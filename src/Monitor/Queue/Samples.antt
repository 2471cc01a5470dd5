-- ===== src/Monitor/Queue/Samples.antt =====
-- What the two invariants of a sample of the fleet mean (src/queue_monitor.rs: `combine_invariant_sample`).
use ez_gh_actions.Base.{
  ℕ, ◌*◌, Bool, false, not, ◌&&◌, ◌||◌, Option, none, some, List, [], ◌∷◌, ◌≡◌, ◌==◌, refl, any,
  all, map, leb, ltb, max, length, arith, inl, inr, Option-cases,
}
use ez_gh_actions.Base.Integers.{ℤ}
use ez_gh_actions.Timestamp.{parse_github_timestamp_secs}
use ez_gh_actions.Monitor.Queue.{
  QueueJob, QueueSnapshot, QueueStats, FleetRunnerStats, AgedQueueJob, Queued, age, oldest_age,
  older, queue_stats, see_queued, see_all_queued, queued_total, oldest_queued, oldest_running,
  combine_invariant_sample, expected_fleet_runners, invariant_duration_threshold, max_age,
}
use ez_gh_actions.Monitor.Queue.Tail.{runs_over, see_all_running-tail}

-- a queued job, stale or not, that is older than `limit` seconds
unfoldable pub queued_over : ℤ → ℕ → QueueJob → Bool
queued_over now limit job = elim (parse_github_timestamp_secs job.created_at) [
  | none ↦ false
  | some from ↦ ltb limit (age now from)
]

unfoldable pub holds_over : ℤ → ℕ → QueueSnapshot → Bool
holds_over now limit snapshot =
    any (queued_over now limit) snapshot.queued || any (runs_over now limit) snapshot.in_progress

-- no queued job at all
unfoldable pub is_empty : QueueSnapshot → Bool
is_empty snapshot = length snapshot.queued == 0

abbrev oldest_over : ℕ → Option AgedQueueJob → Option AgedQueueJob → Bool
oldest_over limit fresh stale = ltb limit (oldest_age fresh) || ltb limit (oldest_age stale)

or_zero : (w : ℕ) (p q : Bool) → ((p || (ltb w 0 || ltb w 0)) || (q || ltb w 0)) ≡ (p || q)
or_zero w p q = ground arith

ltb-four :
    (w a b c d e : ℕ)
    → (ltb w (max (max a b) c) || ltb w (max d e))
      ≡ (((ltb w a || ltb w b) || ltb w d) || (ltb w c || ltb w e))
ltb-four w a b c d e = ground arith

older-over :
    (limit : ℕ) (o : Option AgedQueueJob) (j : AgedQueueJob)
    → ltb limit (oldest_age (older o j)) ≡ (ltb limit (oldest_age o) || ltb limit j.age_secs)
unfolding older
older-over limit none j = ground arith
older-over limit (some old) j = ground arith

module _ (now : ℤ) (stale limit : ℕ) where
  see_queued-oldest :
      (job : QueueJob) (seen : Queued)
      → let seen' = see_queued now stale job seen in
        oldest_over limit seen'.oldest_fresh seen'.oldest_stale
        ≡ (queued_over now limit job || oldest_over limit seen.oldest_fresh seen.oldest_stale)
  unfolding see_queued queued_over
  see_queued-oldest job seen = elim (Option-cases (parse_github_timestamp_secs job.created_at)) [
    | inl e ↦ ground arith
    | inr (from, e) ↦
        let aged : AgedQueueJob = record { job = job; age_secs = age now from } in
        ground
          (arith, older-over limit seen.oldest_fresh aged, older-over limit seen.oldest_stale aged)
  ]

  see_all_queued-oldest :
      (jobs : List QueueJob) (seen : Queued)
      → let seen' = see_all_queued now stale jobs seen in
        oldest_over limit seen'.oldest_fresh seen'.oldest_stale ≡ (
          any (queued_over now limit) jobs || oldest_over limit seen.oldest_fresh seen.oldest_stale)
  unfolding see_all_queued
  see_all_queued-oldest [] seen = refl
  see_all_queued-oldest (job ∷ jobs) seen = ground (
    arith,
    see_all_queued-oldest jobs (see_queued now stale job seen),
    see_queued-oldest job seen,
  )

module _ (now : ℤ) (stale_hours warn limit : ℕ) where
  stats : QueueSnapshot → QueueStats
  stats snapshot = queue_stats snapshot now stale_hours warn

  stats-oldest :
      (s : QueueSnapshot)
      → (oldest_over limit (stats s).oldest_fresh (stats s).oldest_stale
          || ltb limit (stats s).max_in_progress_age)
        ≡ holds_over now limit s
  unfolding stats holds_over queue_stats
  stats-oldest s =
      rw
        (
          see_all_queued-oldest now (stale_hours * 3600) limit s.queued (record {
            fresh_ages = [];
            stale_queued = 0;
            oldest_fresh = none;
            oldest_stale = none;
          }),
          see_all_running-tail now (stale_hours * 3600) limit s.in_progress
              (record { ages = []; oldest = none }),
        )
        (unfold max_age in
          or_zero limit (any (queued_over now limit) s.queued)
            (any (runs_over now limit) s.in_progress))

  oldest-over :
      (snapshots : List QueueSnapshot)
      → (ltb limit (oldest_queued (map stats snapshots))
          || ltb limit (oldest_running (map stats snapshots)))
        ≡ any (holds_over now limit) snapshots
  unfolding oldest_queued oldest_running
  oldest-over [] = ground arith
  oldest-over (s ∷ snapshots) =
      rw (← stats-oldest s, ← oldest-over snapshots)
        (ltb-four limit (oldest_age (stats s).oldest_fresh) (oldest_age (stats s).oldest_stale)
          (oldest_queued (map stats snapshots)) (stats s).max_in_progress_age
          (oldest_running (map stats snapshots)))

  queued_total-is_empty :
      (snapshots : List QueueSnapshot)
      → (queued_total (map stats snapshots) == 0) ≡ all is_empty snapshots
  unfolding stats queued_total is_empty queue_stats
  queued_total-is_empty [] = refl
  queued_total-is_empty (s ∷ snapshots) = ground (arith, queued_total-is_empty snapshots)

-- The sample of the monitored repositories passes the first invariant exactly when at least 24 runners are
-- busy, or the enumeration was complete and no repository has a queued job. It passes the second exactly
-- when no queued job, stale or not, and no running job whose time can be read is older than twenty minutes.
pub combine_invariant_sample_lem :
    (fleet : FleetRunnerStats) (snapshots : List QueueSnapshot) (now : ℤ) (stale_hours warn : ℕ)
    (capped : Bool)
    → let sample =
        combine_invariant_sample fleet
          (map (λ s. queue_stats s now stale_hours warn) snapshots)
          now
          capped in
      (sample.inv1
        ≡ (leb expected_fleet_runners fleet.busy_count || (all is_empty snapshots && not capped)))
      × (sample.inv2 ≡ not (any (holds_over now invariant_duration_threshold) snapshots))
unfolding combine_invariant_sample stats
combine_invariant_sample_lem fleet snapshots now stale_hours warn capped = (
  ground (arith, queued_total-is_empty now stale_hours warn 0 snapshots),
  ground (arith, oldest-over now stale_hours warn invariant_duration_threshold snapshots),
)
