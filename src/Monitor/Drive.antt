-- ===== src/Monitor/Drive.antt =====
-- One tick of the monitor and the sampler (src/queue_monitor.rs: `drive_with_fetcher`). Instants are in
-- nanoseconds.
pub mod Budget
pub mod Pause
pub mod Stamps
use ez_gh_actions.Base.{
  ℕ, ◌+◌, ◌-◌, Bool, not, ◌&&◌, Option, none, some, List, ◌∷◌, ◌++◌, map, if◌then◌else◌, leb, ltb,
  Text,
}
use ez_gh_actions.Base.Results.{Result, ok, err}
use ez_gh_actions.Monitor.Queue.{
  FleetRunnerStats, QueueStats, InvariantSample, queue_stats, combine_invariant_sample,
}
use ez_gh_actions.Monitor.Reports.{
  Notification, notify_each, report_queue_health, alert_invariant_violation,
}
use ez_gh_actions.Monitor.State.{
  MonitorConfig, QueueMonitorState, InvariantSamplerState, queue_repo, record_tail_sample,
  bump_floor_hit_counter, is_due,
}
use ez_gh_actions.Github.Backoff.{known, unknown}
use ez_gh_actions.Monitor.Fetches.{
  DriveReadings, Snapshots, serve_loop_time_budget, monitored_repos, needed_repos, fetch_repos,
  lookup, monitored,
}

pub data DriveError : Type 0 where
  fetch_failed : Text → DriveError
  report_failed append_failed violation_failed : DriveError

-- the two states, and what the ticks have asked and told the world: the calls of the budget probe, the
-- notifications that were tried and the lines of the history, the latest tick first
pub record Drive : Type 0 where
  pub qm : QueueMonitorState
  pub sampler : InvariantSamplerState
  pub probes : ℕ
  pub notified : List Notification
  pub history : List InvariantSample

abbrev pub Ticks : Type 0
Ticks = Option QueueStats × Option InvariantSample

module _ (cfg : MonitorConfig) (r : DriveReadings) where
  unfoldable pub queue_tick : Snapshots → Drive → Result DriveError (Option QueueStats) × Drive
  queue_tick snapshots s =
      let s' = record s { qm = record s.qm { last_check = some r.qm_checked_at } } in
      elim (queue_repo cfg) [
        | none ↦ (ok none, s')
        | some repo ↦ elim (lookup repo snapshots) [
          | none ↦ (ok none, s')
          | some (snapshot, capped) ↦
              let stats =
                queue_stats snapshot r.qm_unix_now cfg.stale_hours cfg.tail_warn_minutes in
              let qm = record_tail_sample stats.tail_bad s'.qm in
              let (tried, success) =
                notify_each r.notify
                  (report_queue_health stats qm.consecutive_bad cfg.consecutive_alert_threshold) in
              let s'' = record s' { qm = qm; notified = tried ++ s'.notified } in
              if success then (ok (some stats), s'') else (err report_failed, s'')
        ]
      ]

  unfoldable pub sampler_tick :
      FleetRunnerStats → Snapshots → Drive → Result DriveError (Option InvariantSample) × Drive
  sampler_tick fleet snapshots s =
      let (found, any_capped) = monitored monitored_repos snapshots in
      let sample =
        combine_invariant_sample fleet
          (map (λ s. queue_stats s r.is_unix_now cfg.stale_hours cfg.tail_warn_minutes) found)
          r.is_unix_now any_capped in
      let s' = record s { sampler = record { last_check = some r.is_checked_at } } in
      if not (r.append sample)
      then (err append_failed, s')
      else (let (tried, success) = notify_each r.notify (alert_invariant_violation sample) in
          let s'' = record s' { notified = tried ++ s'.notified; history = sample ∷ s'.history } in
          if success then (ok (some sample), s'') else (err violation_failed, s''))

  unfoldable pub consume :
      Bool → Bool → FleetRunnerStats → Snapshots → Drive → Result DriveError Ticks × Drive
  consume qm_due is_due fleet snapshots s =
      let (stats, s') = if qm_due then queue_tick snapshots s else (ok none, s) in
      elim stats [
        | err e ↦ (err e, s')
        | ok stats ↦
            let (sample, s'') = if is_due then sampler_tick fleet snapshots s' else (ok none, s') in
            elim sample [ err e ↦ (err e, s'') | ok sample ↦ (ok (stats, sample), s'') ]
      ]

  unfoldable pub fetch : Bool → Bool → ℕ → Drive → Result DriveError Ticks × Drive
  fetch qm_due is_due loop_start s =
      let deadline = loop_start + serve_loop_time_budget in
      elim (r.fetch_fleet deadline) [
        | err e ↦ (err (fetch_failed e), s)
        | ok fleet ↦ elim (fetch_repos r fleet deadline (needed_repos cfg qm_due is_due)) [
          | err e ↦ (err (fetch_failed e), s)
          | ok snapshots ↦ consume qm_due is_due fleet snapshots s
        ]
      ]

  unfoldable pub drive_with_fetcher : ℕ → Drive → Result DriveError Ticks × Drive
  drive_with_fetcher loop_start s =
      let qm_due = is_due cfg.qm_enabled cfg.qm_check_interval_seconds s.qm.last_check r.qm_now in
      let sampler_due =
        is_due cfg.is_enabled cfg.is_check_interval_seconds s.sampler.last_check r.is_now in
      if not qm_due && not sampler_due
      then (ok (none, none), s)
      else if ltb 0 s.qm.rest_budget_skip_ticks_remaining
      then (
        ok (none, none),
        record s {
          qm = record s.qm {
            rest_budget_skip_ticks_remaining = s.qm.rest_budget_skip_ticks_remaining - 1;
          };
        },
      )
      else elim r.probe [
        | unknown ↦ (ok (none, none), record s { probes = s.probes + 1 })
        | known remaining ↦
            let s' = record s { probes = s.probes + 1 } in
            if leb remaining cfg.rest_budget_floor
            then (ok (none, none), record s' { qm = bump_floor_hit_counter s.qm })
            else fetch qm_due sampler_due loop_start (record s' {
              qm = record s.qm {
                rest_budget_consecutive_floor_hits = 0;
                rest_budget_skip_ticks_remaining = 0;
              };
            })
      ]
