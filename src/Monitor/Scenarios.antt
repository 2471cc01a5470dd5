-- ===== src/Monitor/Scenarios.antt =====
-- Tests and instances for the monitor of src/queue_monitor.rs.
use ez_gh_actions.Base.{
  ℕ, ◌+◌, ◌-◌, ◌*◌, ◌≤◌, ◌<◌, ◌≡◌, ◌⊎◌, refl, true, false, not, ◌&&◌, ◌||◌, none, some, List, [],
  ◌∷◌, map, any, all, length, leb, if◌then◌else◌, map_option, is_some, arith, Text, text, text_eq,
  ends_with,
}
use ez_gh_actions.Base.Integers.{pos}
use ez_gh_actions.Base.Results.{ok}
use ez_gh_actions.Base.Decimal.{parse_uint}
use ez_gh_actions.Timestamp.{
  parse_github_timestamp_secs, parse_i32, is_well_formed, days_from_civil, max_day, civil_days,
}
use ez_gh_actions.Serve.Durations.{from_secs}
use ez_gh_actions.Monitor.Queue.{
  QueueJob, FleetRunnerStats, QueueSnapshot, QueueStats, queue_stats, see_queued, see_all_queued,
  see_running, see_all_running, older, max_age, combine_invariant_sample, expected_fleet_runners,
  invariant_duration_threshold,
}
use ez_gh_actions.Monitor.Queue.Tail.{waits_over, runs_over, queue_stats-tail_bad}
use ez_gh_actions.Monitor.Queue.Samples.{is_empty, holds_over, combine_invariant_sample_lem}
use ez_gh_actions.Monitor.Reports.{warning, critical, queue_alert_severity}
use ez_gh_actions.Monitor.State.{MonitorConfig, new_monitor, new_sampler, is_due}
use ez_gh_actions.Github.Backoff.{RestBudgetProbe, known, unknown}
use ez_gh_actions.Monitor.Fetches.{DriveReadings}
use ez_gh_actions.Monitor.Drive.{Drive, drive_with_fetcher}
use ez_gh_actions.Monitor.Drive.Budget.{drive_each, IsDeferred, low_budget}
use ez_gh_actions.Monitor.Drive.Pause.{due, AllDue, pause_ends}
use ez_gh_actions.Monitor.Drive.Stamps.{IsFetched, IsStamped, drive-stamps}
use ez_gh_actions.Monitor.Scheduler.{
  Turn, Worker, new, collect_finished, dispatch_with_spawner, maybe_dispatch, tick_worker,
  due_states, spawn,
}
use ez_gh_actions.Monitor.Scheduler.Ownership.{IsOwned, view, ended, starts, States, dispatch-view}
use ez_gh_actions.Monitor.Scheduler.Cadence.{attempts, attempts_once, last_pass, attempts_spaced}

-- the epoch plus `n` minutes, below an hour
abbrev job : Text → QueueJob
job created_at = record {
  run_id = 7;
  job_id = 8;
  name = text "build";
  head_branch = text "main";
  created_at = created_at;
  started_at = none;
  url = [];
}

abbrev fleet : FleetRunnerStats
fleet = record {
  expected_total = 24;
  registered_count = 1;
  busy_count = 0;
  idle_count = 1;
  missing_names = [];
  runners = record { name = text "ez-runner-c-1"; status = text "online"; busy = false } ∷ [];
}

-- at 1970-01-01T00:50:00Z these are 50 and 10 minutes old, and one time is not readable
abbrev snapshot : QueueSnapshot
snapshot = record {
  queued = job (text "1970-01-01T00:00:00Z") ∷ job (text "yesterday") ∷ [];
  in_progress = job (text "1970-01-01T00:40:00Z") ∷ [];
  fleet = some fleet;
}

abbrev stats : QueueStats
stats = queue_stats snapshot (pos 3000) 8 30

tail_is_bad : (stats.tail_bad ≡ true) × (stats.fresh_queued ≡ 1)
unfolding queue_stats see_all_queued see_queued see_all_running see_running older max_age
    parse_github_timestamp_secs ends_with text_eq parse_i32 parse_uint is_well_formed
    days_from_civil max_day civil_days
tail_is_bad = (refl, refl)

third_bad_sample_alerts : queue_alert_severity 3 3 ≡ some warning
unfolding queue_alert_severity
third_bad_sample_alerts = refl

sixth_bad_sample_is_critical : queue_alert_severity 6 3 ≡ some critical
unfolding queue_alert_severity
sixth_bad_sample_is_critical = refl

queue_stats-tail_bad_example : stats.tail_bad ≡ (
    any (waits_over (pos 3000) (8 * 3600) (30 * 60)) snapshot.queued
    || any (runs_over (pos 3000) (30 * 60)) snapshot.in_progress)
queue_stats-tail_bad_example = queue_stats-tail_bad snapshot (pos 3000) 8 30

combine_invariant_sample_lem_example :
    let sample =
      combine_invariant_sample fleet
        (map (λ s. queue_stats s (pos 3000) 8 30) (snapshot ∷ []))
        (pos 3000)
        false in
    (sample.inv1 ≡ (
      leb expected_fleet_runners fleet.busy_count || (all is_empty (snapshot ∷ []) && not false)))
    × (sample.inv2 ≡ not (any (holds_over (pos 3000) invariant_duration_threshold) (snapshot ∷ [])))
combine_invariant_sample_lem_example =
    combine_invariant_sample_lem fleet (snapshot ∷ []) (pos 3000) 8 30 false

abbrev config : MonitorConfig
config = record {
  qm_enabled = true;
  qm_check_interval_seconds = 60;
  repo = some (text "owner/repo");
  repo_scope = false;
  target = [];
  tail_warn_minutes = 30;
  stale_hours = 8;
  consecutive_alert_threshold = 3;
  rest_budget_floor = 500;
  is_enabled = false;
  is_check_interval_seconds = 60;
}

abbrev readings : RestBudgetProbe → DriveReadings
readings probe = record {
  qm_now = from_secs 100;
  is_now = from_secs 100;
  probe = probe;
  fetch_fleet = λ _. ok fleet;
  fetch_repo = λ _ _ _ _. ok (snapshot, false);
  qm_checked_at = from_secs 101;
  qm_unix_now = pos 3000;
  is_checked_at = from_secs 101;
  is_unix_now = pos 3000;
  notify = λ _. true;
  append = λ _. true;
}

abbrev start : Drive
start = record { qm = new_monitor; sampler = new_sampler; probes = 0; notified = []; history = [] }

abbrev paused : Drive
paused = record start {
  qm = record {
    last_check = none;
    consecutive_bad = 0;
    rest_budget_consecutive_floor_hits = 3;
    rest_budget_skip_ticks_remaining = 1;
  };
}

abbrev low_ticks : List (DriveReadings × ℕ)
low_ticks =
    (readings (known 12), from_secs 100)
    ∷ (readings (known 12), from_secs 130)
    ∷ (readings (known 500), from_secs 160)
    ∷ []

low_budget_example :
    IsDeferred start (drive_each config low_ticks start)
    × (6 * (drive_each config low_ticks start).probes ≤ 6 * start.probes + length low_ticks + 15)
low_budget_example =
    low_budget config low_ticks start (omega arith, (omega arith, (omega arith, tt)))

abbrev two_ticks : List (DriveReadings × ℕ)
two_ticks = (readings unknown, from_secs 100) ∷ (readings unknown, from_secs 130) ∷ []

two_ticks-AllDue : AllDue config two_ticks paused
unfolding drive_with_fetcher due
two_ticks-AllDue = (refl, (refl, tt))

pause_ends_example : paused.probes < (drive_each config two_ticks paused).probes
pause_ends_example = pause_ends config two_ticks paused two_ticks-AllDue (omega arith)

drive-stamps_example :
    let r = readings (known 4000) in
    let qm_due =
      is_due config.qm_enabled config.qm_check_interval_seconds start.qm.last_check r.qm_now in
    let sampler_due =
      is_due config.is_enabled config.is_check_interval_seconds start.sampler.last_check r.is_now in
    let s' = (drive_with_fetcher config r (from_secs 100) start).1 in
    IsDeferred start s'
    ⊎ (IsFetched config r qm_due sampler_due (from_secs 100)
        × IsStamped r qm_due sampler_due start s')
drive-stamps_example = drive-stamps config (readings (known 4000)) (from_secs 100) start

abbrev turns : List Turn
turns =
    record {
      loop_start = from_secs 100;
      now = from_secs 100;
      finished = false;
      spawned = false;
      tick = none;
    }
    ∷ record {
      loop_start = from_secs 110;
      now = from_secs 110;
      finished = false;
      spawned = true;
      tick = some (readings unknown);
    }
    ∷ record {
      loop_start = from_secs 140;
      now = from_secs 140;
      finished = false;
      spawned = true;
      tick = some (readings unknown);
    }
    ∷ []

attempts_spaced_example :
    attempts config (from_secs 30) turns new * from_secs 30
    ≤ (last_pass (from_secs 100) turns - from_secs 100) + from_secs 30
attempts_spaced_example =
    attempts_spaced config (from_secs 30) (from_secs 100) turns new
      (omega arith, (omega arith, (omega arith, tt)))

two_attempts : attempts config (from_secs 30) turns new ≡ 2
unfolding attempts attempts_once maybe_dispatch dispatch_with_spawner collect_finished due_states
    spawn new new_monitor new_sampler
two_attempts = refl

new-IsOwned : IsOwned new
unfolding new
new-IsOwned = record { monitor = refl; sampler = refl }

abbrev worker : Worker
worker = tick_worker config (from_secs 100) (some (readings (known 4000)))

dispatch-view_example :
    let (result, self') =
      dispatch_with_spawner config (from_secs 30) (from_secs 100) false true worker new in
    IsOwned self'
    × (result ≡ is_some self'.in_flight)
    × (view self' ≡ (
        if starts config (from_secs 30) (from_secs 100) false true new
        then map_option (λ ((qm, inv) : States). ended (worker qm inv)) (view new)
        else view new))
dispatch-view_example =
    dispatch-view config (from_secs 30) (from_secs 100) false true worker new new-IsOwned
