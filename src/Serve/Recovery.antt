-- ===== src/Serve/Recovery.antt =====
-- `BackendRecoveryState` and the restart commands (src/main.rs).
pub mod Limits
use ez_gh_actions.Base.{
  ℕ, ◌+◌, ◌-◌, Bool, true, false, Option, none, some, List, [], ◌∷◌, ltb, leb, if◌then◌else◌, min,
  is_some_and, suc, zero,
}
use ez_gh_actions.Backend.{Selection, nothing, chosen, docker, docker_sysbox}
use ez_gh_actions.Serve.Durations.{from_secs, add_u32}

abbrev pub backend_restart_cooldown : ℕ
backend_restart_cooldown = from_secs 60

abbrev pub backend_restart_window : ℕ
backend_restart_window = from_secs 600

abbrev pub backend_restart_max_attempts : ℕ
backend_restart_max_attempts = 3

pub record BackendRecoveryState : Type 0 where
  pub window_started : ℕ
  pub attempts_in_window : ℕ
  pub last_restart_at : Option ℕ

abbrev pub new : ℕ → BackendRecoveryState
new now = record { window_started = now; attempts_in_window = 0; last_restart_at = none }

-- a new window, when the last one is over
unfoldable pub roll_window : ℕ → BackendRecoveryState → BackendRecoveryState
roll_window now self =
    if ltb backend_restart_window (now - self.window_started)
    then record self { window_started = now; attempts_in_window = 0 }
    else self

unfoldable pub cooling_down : ℕ → BackendRecoveryState → Bool
cooling_down now self =
    is_some_and self.last_restart_at (λ last. ltb (now - last) backend_restart_cooldown)

unfoldable pub allow_restart : ℕ → BackendRecoveryState → Bool × BackendRecoveryState
allow_restart now state =
    let self = roll_window now state in
    if cooling_down now self
    then (false, self)
    else if leb backend_restart_max_attempts self.attempts_in_window
    then (false, self)
    else (
      true,
      record self {
        attempts_in_window = add_u32 self.attempts_in_window 1;
        last_restart_at = some now;
      },
    )

pub record BackendRestartTiming : Type 0 where
  pub command_ceiling : ℕ
  pub min_budget : ℕ
  pub safety_margin : ℕ
  pub health_poll_ceiling : ℕ
  pub health_poll_interval : ℕ

abbrev pub production : BackendRestartTiming
production = record {
  command_ceiling = from_secs 120;
  min_budget = from_secs 10;
  safety_margin = from_secs 5;
  health_poll_ceiling = from_secs 15;
  health_poll_interval = from_secs 1;
}

unfoldable pub clamped_restart_timeout : BackendRestartTiming → ℕ → Option ℕ → Option ℕ
clamped_restart_timeout self now none = some self.command_ceiling
clamped_restart_timeout self now (some deadline) =
    if ltb (deadline - now) self.min_budget
    then none
    else some (min (deadline - now - self.safety_margin) self.command_ceiling)

unfoldable pub clamped_health_poll_timeout : BackendRestartTiming → ℕ → Option ℕ → ℕ
clamped_health_poll_timeout self now none = self.health_poll_ceiling
clamped_health_poll_timeout self now (some deadline) =
    min (deadline - now - self.safety_margin) self.health_poll_ceiling

-- whether the selected backend is one that runs in Docker, or there is none
unfoldable pub backend_restart_can_help : Selection → Bool
backend_restart_can_help nothing = true
backend_restart_can_help (chosen docker skipped) = true
backend_restart_can_help (chosen docker_sysbox skipped) = true
backend_restart_can_help _ = false

-- how a command ends: `Ok(true)`, `Ok(false)`, the command is not there, or another error
pub data CommandResult : Type 0 where
  succeeded exited_nonzero not_found failed : CommandResult

-- What the restart meets, by the number of the command: the time it is considered, how it ends, the
-- time after it, and whether Docker answers within the health poll of that timeout and interval.
pub record Host : Type 0 where
  pub before : ℕ → ℕ
  pub run : ℕ → ℕ → CommandResult
  pub after : ℕ → ℕ
  pub poll_backend_healthy : ℕ → ℕ → ℕ → Bool

-- what a command's end makes of the attempt, given the health poll and what the later commands do
abbrev pub after_command : {C : Type 0} → CommandResult → Bool → C → Bool × List C → Bool × List C
after_command succeeded healthy call later = (healthy, call ∷ [])
after_command exited_nonzero healthy call (restarted, calls) = (restarted, call ∷ calls)
after_command not_found healthy call (restarted, calls) = (restarted, call ∷ calls)
after_command failed healthy call (restarted, calls) = (restarted, call ∷ calls)

-- whether the backend came back, and each command that was run, with its number and its timeout
unfoldable pub attempt_backend_restart_with :
    {C : Type 0} → List C → Option ℕ → BackendRestartTiming → Host → ℕ → Bool × List (ℕ × C × ℕ)
attempt_backend_restart_with [] deadline timing host k = (false, [])
attempt_backend_restart_with (command ∷ commands) deadline timing host k =
    let later = attempt_backend_restart_with commands deadline timing host (k + 1) in
    elim (clamped_restart_timeout timing (host.before k) deadline) [
      | none ↦ (false, [])
      | some timeout ↦
          after_command (host.run k timeout)
            (host.poll_backend_healthy k
              (clamped_health_poll_timeout timing (host.after k) deadline)
              timing.health_poll_interval)
            (k, command, timeout) later
    ]
