-- ===== src/Monitor/Scheduler.antt =====
-- The scheduler that runs the monitor beside the serve loop (src/queue_monitor.rs:
-- `QueueMonitorScheduler`). Instants are in nanoseconds.
pub mod Ownership
pub mod Cadence
use ez_gh_actions.Base.{
  ℕ, ◌-◌, Bool, true, false, not, ◌&&◌, ◌||◌, Option, none, some, [], if◌then◌else◌, ltb, is_some,
  is_some_and,
}
use ez_gh_actions.Base.Results.{Result, ok, err}
use ez_gh_actions.Monitor.State.{
  MonitorConfig, QueueMonitorState, InvariantSamplerState, new_monitor, new_sampler, is_due,
}
use ez_gh_actions.Monitor.Fetches.{DriveReadings}
use ez_gh_actions.Monitor.Drive.{Drive, DriveError, Ticks, drive_with_fetcher}

-- the states with which a worker ends, and the status of its tick
abbrev pub MonitorResult : Type 0
MonitorResult = QueueMonitorState × InvariantSamplerState × Result DriveError Unit

-- A handle stands for what its thread ends with: none where it panics.
abbrev pub JoinHandle : Type 0
JoinHandle = Option MonitorResult

abbrev pub Worker : Type 0
Worker = QueueMonitorState → InvariantSamplerState → JoinHandle

pub record Scheduler : Type 0 where
  pub queue_monitor : Option QueueMonitorState
  pub invariant_sampler : Option InvariantSamplerState
  pub in_flight : Option JoinHandle
  pub last_attempt : Option ℕ

unfoldable pub new : Scheduler
new = record {
  queue_monitor = some new_monitor;
  invariant_sampler = some new_sampler;
  in_flight = none;
  last_attempt = none;
}

-- `finished` says whether the thread has ended
unfoldable pub collect_finished : Bool → Scheduler → Bool × Scheduler
collect_finished finished self = elim self.in_flight [
  | none ↦ (false, self)
  | some handle ↦ if not finished then (false, self) else elim handle [
    | some (qm, inv, status) ↦ (
      true,
      record self { queue_monitor = some qm; invariant_sampler = some inv; in_flight = none },
    )
    | none ↦ (
      false,
      record self {
        queue_monitor = some new_monitor;
        invariant_sampler = some new_sampler;
        in_flight = none;
      },
    )
  ]
]

-- the states that a new worker would take, where one is to be spawned
unfoldable pub due_states :
    MonitorConfig → ℕ → ℕ → Scheduler → Option (QueueMonitorState × InvariantSamplerState)
due_states cfg serve_tick now self =
    if is_some_and self.last_attempt (λ last. ltb (now - last) serve_tick)
    then none
    else elim self.queue_monitor [
      | none ↦ none
      | some qm ↦ elim self.invariant_sampler [
        | none ↦ none
        | some inv ↦
            if not (is_due cfg.qm_enabled cfg.qm_check_interval_seconds qm.last_check now)
              && not (is_due cfg.is_enabled cfg.is_check_interval_seconds inv.last_check now)
            then none
            else some (qm, inv)
      ]
    ]

-- `spawned` says whether the thread can be started
unfoldable pub spawn :
    ℕ → Bool → Worker → QueueMonitorState → InvariantSamplerState → Scheduler → Bool × Scheduler
spawn now spawned worker qm inv self =
    if spawned
    then (
      true,
      record {
        queue_monitor = none;
        invariant_sampler = none;
        in_flight = some (worker qm inv);
        last_attempt = some now;
      },
    )
    else (
      false,
      record self {
        queue_monitor = some qm;
        invariant_sampler = some inv;
        last_attempt = some now;
      },
    )

unfoldable pub dispatch_with_spawner :
    MonitorConfig → ℕ → ℕ → Bool → Bool → Worker → Scheduler → Bool × Scheduler
dispatch_with_spawner cfg serve_tick now finished spawned worker self =
    let s = (collect_finished finished self).1 in
    if is_some s.in_flight then (true, s) else elim (due_states cfg serve_tick now s) [
      | none ↦ (false, s)
      | some (qm, inv) ↦ spawn now spawned worker qm inv s
    ]

-- the worker of `maybe_dispatch`: one tick, which panics where it has no readings
unfoldable pub tick_worker : MonitorConfig → ℕ → Option DriveReadings → Worker
tick_worker cfg loop_start none qm inv = none
tick_worker cfg loop_start (some r) qm inv =
    let (result, s) =
      drive_with_fetcher cfg r loop_start
        (record { qm = qm; sampler = inv; probes = 0; notified = []; history = [] }) in
    some (s.qm, s.sampler, elim result [ ok _ ↦ ok tt | err e ↦ err e ])

-- one pass of the serve loop
pub record Turn : Type 0 where
  pub loop_start : ℕ
  pub now : ℕ
  pub finished : Bool
  pub spawned : Bool
  pub tick : Option DriveReadings

unfoldable pub maybe_dispatch : MonitorConfig → ℕ → Turn → Scheduler → Bool × Scheduler
maybe_dispatch cfg serve_tick turn self =
    dispatch_with_spawner cfg serve_tick turn.now turn.finished turn.spawned
      (tick_worker cfg turn.loop_start turn.tick) self
