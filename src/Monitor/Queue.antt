-- ===== src/Monitor/Queue.antt =====
-- The queue of a repository as the monitor sees it (src/queue_monitor.rs): the jobs that wait or run, their
-- ages, and the sample of the fleet. Ages are whole seconds in place of their sixtieth part, the f64
-- of minutes; the two quantiles, which only a message prints, are left out.
mod Counts
pub mod Samples
pub mod Tail
use ez_gh_actions.Base.{
  ℕ, ◌+◌, ◌*◌, Bool, not, ◌&&◌, ◌||◌, Option, none, some, List, [], ◌∷◌, ◌==◌, if◌then◌else◌,
  length, any, leb, ltb, max, unwrap_or, Text, text, text_eq,
}
use ez_gh_actions.Base.Integers.{ℤ, pos, negsuc, ◌-ℤ◌}
use ez_gh_actions.Timestamp.{parse_github_timestamp_secs}

pub record QueueJob : Type 0 where
  pub run_id : ℕ
  pub job_id : ℕ
  pub name : Text
  pub head_branch : Text
  pub created_at : Text
  pub started_at : Option Text
  pub url : Text

pub record FleetRunner : Type 0 where
  pub name : Text
  pub status : Text
  pub busy : Bool

pub record FleetRunnerStats : Type 0 where
  pub expected_total : ℕ
  pub registered_count : ℕ
  pub busy_count : ℕ
  pub idle_count : ℕ
  pub missing_names : List Text
  pub runners : List FleetRunner

pub record QueueSnapshot : Type 0 where
  pub queued : List QueueJob
  pub in_progress : List QueueJob
  pub fleet : Option FleetRunnerStats

pub record AgedQueueJob : Type 0 where
  pub job : QueueJob
  pub age_secs : ℕ

pub record QueueStats : Type 0 where
  pub queued_total : ℕ
  pub fresh_queued : ℕ
  pub stale_queued : ℕ
  pub in_progress_total : ℕ
  pub max_fresh_wait : ℕ
  pub max_in_progress_age : ℕ
  pub max_current_job_age : ℕ
  pub tail_warn_minutes : ℕ
  pub stale_cutoff_hours : ℕ
  pub tail_bad : Bool
  pub oldest_fresh : Option AgedQueueJob
  pub oldest_stale : Option AgedQueueJob
  pub oldest_in_progress : Option AgedQueueJob
  pub fleet : Option FleetRunnerStats

-- `(now - then).max(0)`
abbrev pub age : ℤ → ℤ → ℕ
age now from = elim (now -ℤ from) [ pos n ↦ n | negsuc _ ↦ 0 ]

-- the older of the two; the earlier of two that are equally old
unfoldable pub older : Option AgedQueueJob → AgedQueueJob → Option AgedQueueJob
older none job = some job
older (some old) job = if ltb old.age_secs job.age_secs then some job else some old

-- what the loop over the queued jobs gathers
pub record Queued : Type 0 where
  pub fresh_ages : List ℕ
  pub stale_queued : ℕ
  pub oldest_fresh : Option AgedQueueJob
  pub oldest_stale : Option AgedQueueJob

unfoldable pub see_queued : ℤ → ℕ → QueueJob → Queued → Queued
see_queued now stale_secs job seen = elim (parse_github_timestamp_secs job.created_at) [
  | none ↦ seen
  | some created ↦
      let age_secs = age now created in
      let aged : AgedQueueJob = record { job = job; age_secs = age_secs } in
      if leb stale_secs age_secs
      then record seen {
        stale_queued = seen.stale_queued + 1;
        oldest_stale = older seen.oldest_stale aged;
      }
      else record seen {
        fresh_ages = age_secs ∷ seen.fresh_ages;
        oldest_fresh = older seen.oldest_fresh aged;
      }
]

unfoldable pub see_all_queued : ℤ → ℕ → List QueueJob → Queued → Queued
see_all_queued now stale_secs [] seen = seen
see_all_queued now stale_secs (job ∷ jobs) seen =
    see_all_queued now stale_secs jobs (see_queued now stale_secs job seen)

-- what the loop over the running jobs gathers
pub record Running : Type 0 where
  pub ages : List ℕ
  pub oldest : Option AgedQueueJob

unfoldable pub see_running : ℤ → QueueJob → Running → Running
see_running now job seen =
    elim (parse_github_timestamp_secs (unwrap_or job.started_at job.created_at)) [
      | none ↦ seen
      | some started ↦
          let age_secs = age now started in
          record {
            ages = age_secs ∷ seen.ages;
            oldest = older seen.oldest (record { job = job; age_secs = age_secs });
          }
    ]

unfoldable pub see_all_running : ℤ → List QueueJob → Running → Running
see_all_running now [] seen = seen
see_all_running now (job ∷ jobs) seen = see_all_running now jobs (see_running now job seen)

-- the last of the sorted ages, 0 where there is none
unfoldable pub max_age : List ℕ → ℕ
max_age [] = 0
max_age (a ∷ ages) = max a (max_age ages)

unfoldable pub queue_stats : QueueSnapshot → ℤ → ℕ → ℕ → QueueStats
queue_stats snapshot now stale_hours tail_warn_minutes =
    let queued =
      see_all_queued now (stale_hours * 3600) snapshot.queued
        (record { fresh_ages = []; stale_queued = 0; oldest_fresh = none; oldest_stale = none }) in
    let running = see_all_running now snapshot.in_progress (record { ages = []; oldest = none }) in
    let max_current = max (max_age queued.fresh_ages) (max_age running.ages) in
    record {
      queued_total = length snapshot.queued;
      fresh_queued = length queued.fresh_ages;
      stale_queued = queued.stale_queued;
      in_progress_total = length snapshot.in_progress;
      max_fresh_wait = max_age queued.fresh_ages;
      max_in_progress_age = max_age running.ages;
      max_current_job_age = max_current;
      tail_warn_minutes = tail_warn_minutes;
      stale_cutoff_hours = stale_hours;
      tail_bad = ltb (tail_warn_minutes * 60) max_current;
      oldest_fresh = queued.oldest_fresh;
      oldest_stale = queued.oldest_stale;
      oldest_in_progress = running.oldest;
      fleet = snapshot.fleet;
    }

pub record InvariantSample : Type 0 where
  pub ts : ℤ
  pub busy : ℕ
  pub registered : ℕ
  pub queued_jobs : ℕ
  pub queued_jobs_capped : Bool
  pub oldest_queued_job : ℕ
  pub oldest_running_job : ℕ
  pub inv1 : Bool
  pub inv2 : Bool
  pub inv1_fail_class : Option Text

abbrev pub expected_fleet_runners : ℕ
expected_fleet_runners = 24

-- INVARIANT_DURATION_THRESHOLD_MINUTES, in seconds
abbrev pub invariant_duration_threshold : ℕ
invariant_duration_threshold = 20 * 60

unfoldable pub classify_inv1_failure : FleetRunnerStats → Text
classify_inv1_failure fleet = elim fleet.missing_names [
  | _ ∷ _ ↦ text "missing-registration"
  | [] ↦
      if any (λ r. not (text_eq r.status (text "online"))) fleet.runners
      then text "offline-respawning"
      else text "genuinely-idle"
]

abbrev pub oldest_age : Option AgedQueueJob → ℕ
oldest_age none = 0
oldest_age (some job) = job.age_secs

unfoldable pub queued_total : List QueueStats → ℕ
queued_total [] = 0
queued_total (s ∷ stats) = s.queued_total + queued_total stats

unfoldable pub oldest_queued : List QueueStats → ℕ
oldest_queued [] = 0
oldest_queued (s ∷ stats) =
    max (max (oldest_age s.oldest_fresh) (oldest_age s.oldest_stale)) (oldest_queued stats)

unfoldable pub oldest_running : List QueueStats → ℕ
oldest_running [] = 0
oldest_running (s ∷ stats) = max s.max_in_progress_age (oldest_running stats)

unfoldable pub combine_invariant_sample :
    FleetRunnerStats → List QueueStats → ℤ → Bool → InvariantSample
combine_invariant_sample fleet repo_stats now queued_jobs_capped =
    let queued_jobs = queued_total repo_stats in
    let inv1 =
      leb expected_fleet_runners fleet.busy_count || (queued_jobs == 0 && not queued_jobs_capped) in
    record {
      ts = now;
      busy = fleet.busy_count;
      registered = fleet.registered_count;
      queued_jobs = queued_jobs;
      queued_jobs_capped = queued_jobs_capped;
      oldest_queued_job = oldest_queued repo_stats;
      oldest_running_job = oldest_running repo_stats;
      inv1 = inv1;
      inv2 =
          leb (oldest_queued repo_stats) invariant_duration_threshold
          && leb (oldest_running repo_stats) invariant_duration_threshold;
      inv1_fail_class = if inv1 then none else some (classify_inv1_failure fleet);
    }
