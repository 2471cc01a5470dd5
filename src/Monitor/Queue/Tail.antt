-- ===== src/Monitor/Queue/Tail.antt =====
-- When `queue_stats` (src/queue_monitor.rs) reports a bad tail, and what it counts.
use ez_gh_actions.Base.{
  ℕ, ◌*◌, Bool, false, ◌&&◌, ◌||◌, none, some, List, [], ◌∷◌, ◌≡◌, refl, any, ltb, unwrap_or, arith,
  inl, inr, Option-cases,
}
use ez_gh_actions.Base.Integers.{ℤ}
use ez_gh_actions.Timestamp.{parse_github_timestamp_secs}
use ez_gh_actions.Monitor.Queue.{
  QueueJob, QueueSnapshot, Queued, Running, age, max_age, queue_stats, see_queued, see_all_queued,
  see_running, see_all_running,
}

-- a queued job that is not stale, and older than `limit` seconds
unfoldable pub waits_over : ℤ → ℕ → ℕ → QueueJob → Bool
waits_over now stale limit job = elim (parse_github_timestamp_secs job.created_at) [
  | none ↦ false
  | some from ↦ ltb (age now from) stale && ltb limit (age now from)
]

unfoldable pub runs_over : ℤ → ℕ → QueueJob → Bool
runs_over now limit job =
    elim (parse_github_timestamp_secs (unwrap_or job.started_at job.created_at)) [
      | none ↦ false
      | some from ↦ ltb limit (age now from)
    ]

module _ (now : ℤ) (stale limit : ℕ) where
  see_queued-tail :
      (job : QueueJob) (seen : Queued)
      → ltb limit (max_age (see_queued now stale job seen).fresh_ages)
        ≡ (waits_over now stale limit job || ltb limit (max_age seen.fresh_ages))
  unfolding see_queued waits_over max_age
  see_queued-tail job seen = elim (Option-cases (parse_github_timestamp_secs job.created_at)) [
    | inl e ↦ ground arith
    | inr (from, e) ↦ ground arith
  ]

  see_all_queued-tail :
      (jobs : List QueueJob) (seen : Queued)
      → ltb limit (max_age (see_all_queued now stale jobs seen).fresh_ages)
        ≡ (any (waits_over now stale limit) jobs || ltb limit (max_age seen.fresh_ages))
  unfolding see_all_queued
  see_all_queued-tail [] seen = refl
  see_all_queued-tail (job ∷ jobs) seen =
      rw (see_all_queued-tail jobs (see_queued now stale job seen), see_queued-tail job seen)
        (ground arith)

  pub see_running-tail :
      (job : QueueJob) (seen : Running)
      → ltb limit (max_age (see_running now job seen).ages)
        ≡ (runs_over now limit job || ltb limit (max_age seen.ages))
  unfolding see_running runs_over max_age
  see_running-tail job seen =
      elim (Option-cases (parse_github_timestamp_secs (unwrap_or job.started_at job.created_at))) [
        | inl e ↦ ground arith
        | inr (from, e) ↦ ground arith
      ]

  pub see_all_running-tail :
      (jobs : List QueueJob) (seen : Running)
      → ltb limit (max_age (see_all_running now jobs seen).ages)
        ≡ (any (runs_over now limit) jobs || ltb limit (max_age seen.ages))
  unfolding see_all_running
  see_all_running-tail [] seen = refl
  see_all_running-tail (job ∷ jobs) seen =
      rw (see_all_running-tail jobs (see_running now job seen), see_running-tail job seen)
        (ground arith)

-- The tail is bad exactly when a queued job that is not stale, or a running job, has been there for more
-- than the tolerated minutes; a job whose time cannot be read counts for neither.
pub queue_stats-tail_bad :
    (snapshot : QueueSnapshot) (now : ℤ) (stale_hours tail_warn_minutes : ℕ)
    → (queue_stats snapshot now stale_hours tail_warn_minutes).tail_bad ≡ (
        any (waits_over now (stale_hours * 3600) (tail_warn_minutes * 60)) snapshot.queued
        || any (runs_over now (tail_warn_minutes * 60)) snapshot.in_progress)
unfolding queue_stats max_age
queue_stats-tail_bad snapshot now stale_hours tail_warn_minutes = ground (
  arith,
  see_all_queued-tail now (stale_hours * 3600) (tail_warn_minutes * 60) snapshot.queued
      (record { fresh_ages = []; stale_queued = 0; oldest_fresh = none; oldest_stale = none }),
  see_all_running-tail now (stale_hours * 3600) (tail_warn_minutes * 60) snapshot.in_progress
      (record { ages = []; oldest = none }),
)
