-- ===== src/Monitor/Scheduler/Cadence.antt =====
-- How often the scheduler tries to start a worker (src/queue_monitor.rs: `dispatch_with_spawner`).
use ez_gh_actions.Base.{
  ℕ, ◌+◌, ◌-◌, ◌*◌, ◌≤◌, Bool, true, false, not, ◌&&◌, some, List, [], ◌∷◌, ◌≡◌, ◌⊎◌, ◌∙◌, is_some,
  if◌then◌else◌, arith, inl, inr, Bool-cases,
}
use ez_gh_actions.Monitor.State.{MonitorConfig}
use ez_gh_actions.Monitor.Scheduler.{
  Scheduler, Turn, collect_finished, due_states, spawn, dispatch_with_spawner, maybe_dispatch,
}

-- a pass tries to start a worker, whether or not the thread can be started
unfoldable pub attempts_once : MonitorConfig → ℕ → Turn → Scheduler → Bool
attempts_once cfg serve_tick turn self =
    let s = (collect_finished turn.finished self).1 in
    not (is_some s.in_flight) && is_some (due_states cfg serve_tick turn.now s)

unfoldable pub attempts : MonitorConfig → ℕ → List Turn → Scheduler → ℕ
attempts cfg serve_tick [] self = 0
attempts cfg serve_tick (turn ∷ turns) self =
    let rest = attempts cfg serve_tick turns (maybe_dispatch cfg serve_tick turn self).1 in
    if attempts_once cfg serve_tick turn self then 1 + rest else rest

-- the passes follow one another in time, the first not before `from`
abbrev pub IsAscending : ℕ → List Turn → Type 0
IsAscending from [] = Unit
IsAscending from (turn ∷ turns) = (from ≤ turn.now) × IsAscending turn.now turns

abbrev pub last_pass : ℕ → List Turn → ℕ
last_pass from [] = from
last_pass from (turn ∷ turns) = last_pass turn.now turns

last_pass-from :
    (from : ℕ) (turns : List Turn) → IsAscending from turns → from ≤ last_pass from turns
last_pass-from from [] ascending = omega arith
last_pass-from from (turn ∷ turns) (first, rest) = omega (arith, last_pass-from turn.now turns rest)

collect-last_attempt :
    (finished : Bool) (s : Scheduler)
    → (collect_finished finished s).1.last_attempt ≡ s.last_attempt
unfolding collect_finished
collect-last_attempt finished s = ground arith

due_states-spaced :
    (cfg : MonitorConfig) (serve_tick now : ℕ) (s : Scheduler) {last : ℕ}
    → s.last_attempt ≡ some last
    → is_some (due_states cfg serve_tick now s) ≡ true
    → serve_tick ≤ now - last
unfolding due_states
due_states-spaced cfg serve_tick now s h due = ground arith

-- an attempt is stamped, and comes a tick after the one before; another pass leaves the stamp
pass_spaced :
    (cfg : MonitorConfig) (serve_tick : ℕ) (turn : Turn) (self : Scheduler)
    → ((attempts_once cfg serve_tick turn self ≡ false)
        × ((maybe_dispatch cfg serve_tick turn self).1.last_attempt ≡ self.last_attempt))
      ⊎ ((attempts_once cfg serve_tick turn self ≡ true)
          × ((maybe_dispatch cfg serve_tick turn self).1.last_attempt ≡ some turn.now)
          × ((last : ℕ) → self.last_attempt ≡ some last → serve_tick ≤ turn.now - last))
unfolding attempts_once maybe_dispatch dispatch_with_spawner spawn
pass_spaced cfg serve_tick turn self =
    let s = (collect_finished turn.finished self).1 in
    elim (Bool-cases
      (not (is_some s.in_flight) && is_some (due_states cfg serve_tick turn.now s))) [
        | inr rests ↦ inl (rests, ground (arith, collect-last_attempt turn.finished self))
        | inl tries ↦ inr (
          tries,
          ground arith,
          λ last h.
              due_states-spaced cfg serve_tick turn.now s
                (collect-last_attempt turn.finished self ∙ h) (ground arith),
        )
      ]

spaced :
    (cfg : MonitorConfig) (serve_tick from last : ℕ) (turns : List Turn) (self : Scheduler)
    → self.last_attempt ≡ some last
    → last ≤ from
    → IsAscending from turns
    → attempts cfg serve_tick turns self * serve_tick + last ≤ last_pass from turns
unfolding attempts
spaced cfg serve_tick from last [] self h before ascending = omega arith
spaced cfg serve_tick from last (turn ∷ turns) self h before (first, rest) =
    let self' = (maybe_dispatch cfg serve_tick turn self).1 in
    elim (pass_spaced cfg serve_tick turn self) [
      | inl (rests, kept) ↦
          rw rests (spaced cfg serve_tick turn.now last turns self' (kept ∙ h) (omega arith) rest)
      | inr (tries, stamped, later) ↦
          let waited : serve_tick ≤ turn.now - last = later last h in
          let ih : attempts cfg serve_tick turns self' * serve_tick + turn.now
              ≤ last_pass turn.now turns =
            spaced cfg serve_tick turn.now turn.now turns self' stamped (omega arith) rest in
          rw tries (omega arith)
    ]

-- However the passes of the serve loop follow one another in time, whatever their workers do, and whether
-- or not their threads can be started: no more attempts to start a worker fit into a time than it has serve
-- ticks, and one.
pub attempts_spaced :
    (cfg : MonitorConfig) (serve_tick from : ℕ) (turns : List Turn) (self : Scheduler)
    → IsAscending from turns
    → attempts cfg serve_tick turns self * serve_tick ≤ (last_pass from turns - from) + serve_tick
unfolding attempts
attempts_spaced cfg serve_tick from [] self ascending = omega arith
attempts_spaced cfg serve_tick from (turn ∷ turns) self (first, rest) =
    let self' = (maybe_dispatch cfg serve_tick turn self).1 in
    let after : turn.now ≤ last_pass turn.now turns = last_pass-from turn.now turns rest in
    elim (pass_spaced cfg serve_tick turn self) [
      | inl (rests, kept) ↦
          let ih = attempts_spaced cfg serve_tick turn.now turns self' rest in
          rw rests (omega arith)
      | inr (tries, stamped, later) ↦
          let ih : attempts cfg serve_tick turns self' * serve_tick + turn.now
              ≤ last_pass turn.now turns =
            spaced cfg serve_tick turn.now turn.now turns self' stamped (omega arith) rest in
          rw tries (omega arith)
    ]
