-- ===== src/Monitor/Scheduler/Ownership.antt =====
-- Where the states of the monitor are (src/queue_monitor.rs: `QueueMonitorScheduler`).
use ez_gh_actions.Base.{
  ℕ, Bool, not, ◌&&◌, Option, none, some, ◌≡◌, sym, ◌∙◌, is_some, map_option, if◌then◌else◌, arith,
  inl, inr, Option-cases,
}
use ez_gh_actions.Monitor.State.{
  MonitorConfig, QueueMonitorState, InvariantSamplerState, new_monitor, new_sampler,
}
use ez_gh_actions.Monitor.Scheduler.{
  Scheduler, JoinHandle, Worker, collect_finished, due_states, spawn, dispatch_with_spawner,
}

-- Each of the two states is with the scheduler exactly when no worker is in flight.
pub record IsOwned (s : Scheduler) : Type 0 where
  pub monitor : is_some s.queue_monitor ≡ not (is_some s.in_flight)
  pub sampler : is_some s.invariant_sampler ≡ not (is_some s.in_flight)

abbrev pub States : Type 0
States = QueueMonitorState × InvariantSamplerState

-- the states with which a worker ends; a panic leaves new ones
abbrev pub ended : JoinHandle → States
ended none = (new_monitor, new_sampler)
ended (some (qm, inv, status)) = (qm, inv)

-- The states as if every worker ran at once, when it is spawned.
unfoldable pub view : Scheduler → Option States
view s = elim s.in_flight [
  | some handle ↦ some (ended handle)
  | none ↦ elim s.queue_monitor [
    | none ↦ none
    | some qm ↦ elim s.invariant_sampler [ none ↦ none | some inv ↦ some (qm, inv) ]
  ]
]

abbrev at_once : Worker → States → States
at_once worker (qm, inv) = ended (worker qm inv)

-- a worker is started
unfoldable pub starts : MonitorConfig → ℕ → ℕ → Bool → Bool → Scheduler → Bool
starts cfg serve_tick now finished spawned self =
    let s = (collect_finished finished self).1 in
    spawned && not (is_some s.in_flight) && is_some (due_states cfg serve_tick now s)

collect-view : (finished : Bool) (s : Scheduler) → view (collect_finished finished s).1 ≡ view s
unfolding view collect_finished
collect-view finished s = ground arith

collect-IsOwned :
    (finished : Bool) (s : Scheduler) → IsOwned s → IsOwned (collect_finished finished s).1
unfolding collect_finished
collect-IsOwned finished s owned = record {
  monitor = ground (arith, owned.monitor);
  sampler = ground (arith, owned.sampler);
}

due_states-view :
    (cfg : MonitorConfig) (serve_tick now : ℕ) (s : Scheduler) (states : States)
    → s.in_flight ≡ none
    → due_states cfg serve_tick now s ≡ some states
    → view s ≡ some states
unfolding due_states view
due_states-view cfg serve_tick now s states idle h = ground arith

dispatch-IsOwned :
    (cfg : MonitorConfig) (serve_tick now : ℕ) (finished spawned : Bool) (worker : Worker)
    (self : Scheduler)
    → IsOwned self
    → IsOwned (dispatch_with_spawner cfg serve_tick now finished spawned worker self).1
unfolding dispatch_with_spawner spawn
dispatch-IsOwned cfg serve_tick now finished spawned worker self owned =
    let s = (collect_finished finished self).1 in
    let kept = collect-IsOwned finished self owned in
    record {
      monitor = ground (arith, kept.monitor, kept.sampler);
      sampler = ground (arith, kept.monitor, kept.sampler);
    }

-- The scheduler keeps the two states with itself or with its one worker, and answers whether a worker is in
-- flight. Seen from the states, a worker that is started runs at once, and nothing else changes them: an
-- error of its tick keeps what the tick has left, a thread that cannot be started leaves them as they
-- were, and only a panic replaces them by new ones.
pub dispatch-view :
    (cfg : MonitorConfig) (serve_tick now : ℕ) (finished spawned : Bool) (worker : Worker)
    (self : Scheduler)
    → IsOwned self
    → let (result, self') = dispatch_with_spawner cfg serve_tick now finished spawned worker self in
      IsOwned self'
      × (result ≡ is_some self'.in_flight)
      × (view self' ≡ (
          if starts cfg serve_tick now finished spawned self
          then map_option (at_once worker) (view self)
          else view self))
unfolding dispatch_with_spawner spawn starts
dispatch-view cfg serve_tick now finished spawned worker self owned =
    elim (Option-cases (collect_finished finished self).1.in_flight) [
      | inr (handle, flying) ↦ (
        dispatch-IsOwned cfg serve_tick now finished spawned worker self owned,
        ground arith,
        ground (arith, collect-view finished self),
      )
      | inl idle ↦
          elim (Option-cases (due_states cfg serve_tick now (collect_finished finished self).1)) [
            | inl rests ↦ (
              dispatch-IsOwned cfg serve_tick now finished spawned worker self owned,
              ground arith,
              ground (arith, collect-view finished self),
            )
            | inr ((qm, inv), taken) ↦ (
              dispatch-IsOwned cfg serve_tick now finished spawned worker self owned,
              ground arith,
              rw (taken, idle)
                  (rw
                    (sym (collect-view finished self)
                      ∙ due_states-view cfg serve_tick now (collect_finished finished self).1
                          (qm, inv) idle taken)
                    (unfold view in ground arith)),
            )
          ]
    ]
