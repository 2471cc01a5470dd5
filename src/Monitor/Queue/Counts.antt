-- ===== src/Monitor/Queue/Counts.antt =====
-- How `queue_stats` (src/queue_monitor.rs) divides the queued jobs.
use ez_gh_actions.Base.{
  ℕ, ◌+◌, ◌*◌, none, some, List, [], ◌∷◌, ◌≡◌, length, arith, inl, inr, Option-cases,
}
use ez_gh_actions.Base.Integers.{ℤ}
use ez_gh_actions.Timestamp.{parse_github_timestamp_secs}
use ez_gh_actions.Monitor.Queue.{
  QueueJob, QueueSnapshot, Queued, queue_stats, see_queued, see_all_queued,
}

unfoldable pub unreadable : List QueueJob → ℕ
unreadable [] = 0
unreadable (job ∷ jobs) = elim (parse_github_timestamp_secs job.created_at) [
  | none ↦ 1 + unreadable jobs
  | some _ ↦ unreadable jobs
]

see_all_queued-counts :
    (now : ℤ) (stale : ℕ) (jobs : List QueueJob) (seen : Queued)
    → let seen' = see_all_queued now stale jobs seen in
      length seen'.fresh_ages + seen'.stale_queued + unreadable jobs
      ≡ length seen.fresh_ages + seen.stale_queued + length jobs
unfolding see_all_queued see_queued unreadable
see_all_queued-counts now stale [] seen = omega arith
see_all_queued-counts now stale (job ∷ jobs) seen =
    elim (Option-cases (parse_github_timestamp_secs job.created_at)) [
      | inl e ↦ ground (arith, see_all_queued-counts now stale jobs seen)
      | inr (from, e) ↦
          ground (arith, see_all_queued-counts now stale jobs (see_queued now stale job seen))
    ]

-- Every queued job is fresh, stale, or has a time that cannot be read, and only one of these.
queue_stats-counts :
    (snapshot : QueueSnapshot) (now : ℤ) (stale_hours tail_warn_minutes : ℕ)
    → let stats = queue_stats snapshot now stale_hours tail_warn_minutes in
      stats.fresh_queued + stats.stale_queued + unreadable snapshot.queued ≡ stats.queued_total
unfolding queue_stats
queue_stats-counts snapshot now stale_hours tail_warn_minutes = ground (
  arith,
  see_all_queued-counts now (stale_hours * 3600) snapshot.queued
      (record { fresh_ages = []; stale_queued = 0; oldest_fresh = none; oldest_stale = none }),
)
