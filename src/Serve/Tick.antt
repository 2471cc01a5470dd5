-- ===== src/Serve/Tick.antt =====
-- One iteration of the serve loop of src/main.rs, from the readings it takes to its sleep.
pub mod Readiness
pub mod Pacing
pub mod Credit
mod Scenarios
use ez_gh_actions.Base.{
  ℕ, ◌-◌, Bool, true, false, not, ◌&&◌, Option, none, some, List, [], ltb, if◌then◌else◌, is_some,
  Text,
}
use ez_gh_actions.Base.Results.{Result, ok, err}
use ez_gh_actions.Backend.{Selection}
use ez_gh_actions.Pool.Ensure.{EnsureError}
use ez_gh_actions.Pool.Outcome.{EnsureCountOutcome, is_partial_failure, ReadinessSummary}
use ez_gh_actions.Serve.Durations.{from_secs, add_u32, Config, serve_tick}
use ez_gh_actions.Serve.Settling.{
  SettlingDecision, continue, recovered, ceiling, SettlingEpisode, observe, settling_plan,
  apply_local_settling_decision, SettlingCeilingState, record_recovery, record_settling_ceiling_at,
}
use ez_gh_actions.Serve.Decisions.{
  ensure_outcome_may_credit_deadman, EnsureSuccessDecision, start_settling, fully_recovered,
  post_refill_capacity_lost, post_refill_slots_released, incomplete_readiness, admission_paused,
  ensure_success_decision, ensure_success_plan, immediate_capacity_reconcile,
  ensure_success_decision_with_pending_readiness, apply_ensure_success_decision, is_empty,
}
use ez_gh_actions.Serve.Recovery.{BackendRecoveryState, backend_restart_can_help, allow_restart}

-- the loop's variables
pub record ServeState : Type 0 where
  pub settling : Option SettlingEpisode
  pub pending_readiness : Bool
  pub previous_post_refill_capacity_immediate : Bool
  pub settling_ceilings : SettlingCeilingState
  pub ensure_fail_streak : ℕ
  pub backend_recovery : BackendRecoveryState

-- What an iteration reads: the clock, `local_executing_runner_count`, `ensure_count_outcome`, whether
-- `backend::select` finds a backend that a restart helps, whether Docker answers, and whether
-- `attempt_backend_restart` brings the backend back.
pub record Readings : Type 0 where
  pub now : ℕ
  pub local_executing : Result Text ReadinessSummary
  pub ensured : Result EnsureError EnsureCountOutcome
  pub selection : Selection
  pub docker_reachable : Bool
  pub restarts : Bool

-- the sleep, whether monitors run, whether the dead-man clock is credited, and whether a settling
-- ceiling was escalated
pub record Iteration : Type 0 where
  pub sleep : ℕ
  pub run_monitors : Bool
  pub deadman_credit : Bool
  pub escalated : Bool

-- the ceilings that a decision of a settling episode leaves
unfoldable pub count_ceiling :
    Config → ℕ → SettlingDecision → SettlingCeilingState → Bool × SettlingCeilingState
count_ceiling cfg now continue s = (false, s)
count_ceiling cfg now recovered s = (false, record_recovery)
count_ceiling cfg now ceiling s = record_settling_ceiling_at cfg now s

-- an absent container ends the episode at once
unfoldable pub poll_decision :
    Config → ℕ → ReadinessSummary → SettlingEpisode → SettlingDecision × SettlingEpisode
poll_decision cfg now summary episode =
    if not (is_empty summary.absent) && ltb summary.ready cfg.count
    then (ceiling, episode)
    else observe now summary.ready cfg.count episode

unfoldable pub settle :
    Config → ℕ → SettlingDecision → SettlingEpisode → ServeState → Iteration × ServeState
settle cfg now decision episode s =
    let (escalated, ceilings) = count_ceiling cfg now decision s.settling_ceilings in
    let (settling, pending) =
      apply_local_settling_decision decision (some episode, s.pending_readiness) in
    let (sleep, monitors) = settling_plan cfg decision in
    (
      record {
        sleep = sleep;
        run_monitors = monitors;
        deadman_credit = false;
        escalated = escalated;
      },
      record s { settling = settling; pending_readiness = pending; settling_ceilings = ceilings },
    )

unfoldable pub local_iteration :
    Config → Readings → SettlingEpisode → ServeState → Iteration × ServeState
local_iteration cfg r episode s = elim r.local_executing [
  | ok summary ↦
      let (decision, episode') = poll_decision cfg r.now summary episode in
      settle cfg r.now decision episode' s
  | err e ↦ settle cfg r.now ceiling episode s
]

unfoldable pub apply_ensure_outcome_to_failure_streak : EnsureCountOutcome → ℕ → ℕ
apply_ensure_outcome_to_failure_streak outcome streak =
    if is_partial_failure outcome
    then add_u32 streak 1
    else if is_some outcome.admission_paused_reason
    then streak
    else 0

-- the ceilings that a decision after a reconciliation leaves
unfoldable pub count_ensure_ceiling :
    Config → ℕ → EnsureSuccessDecision → SettlingCeilingState → Bool × SettlingCeilingState
count_ensure_ceiling cfg now fully_recovered s = (false, record_recovery)
count_ensure_ceiling cfg now post_refill_capacity_lost s = record_settling_ceiling_at cfg now s
count_ensure_ceiling cfg now incomplete_readiness s = record_settling_ceiling_at cfg now s
count_ensure_ceiling cfg now _ s = (false, s)

unfoldable pub decide : Config → EnsureCountOutcome → ServeState → EnsureSuccessDecision
decide cfg outcome s =
    ensure_success_decision_with_pending_readiness (ensure_success_decision cfg outcome)
      s.pending_readiness s.previous_post_refill_capacity_immediate
      (cfg.count - outcome.remaining_shortage)

unfoldable pub ensured_iteration :
    Config → ℕ → EnsureCountOutcome → EnsureSuccessDecision → ServeState → Iteration × ServeState
ensured_iteration cfg now outcome decision s =
    let (escalated, ceilings) = count_ensure_ceiling cfg now decision s.settling_ceilings in
    let (settling, pending) =
      apply_ensure_success_decision now decision (s.settling, s.pending_readiness) in
    let (sleep, monitors) = ensure_success_plan cfg decision in
    (
      record {
        sleep = sleep;
        run_monitors = monitors;
        deadman_credit = ensure_outcome_may_credit_deadman outcome;
        escalated = escalated;
      },
      record s {
        settling = settling;
        pending_readiness = pending;
        previous_post_refill_capacity_immediate = immediate_capacity_reconcile decision;
        settling_ceilings = ceilings;
        ensure_fail_streak = apply_ensure_outcome_to_failure_streak outcome s.ensure_fail_streak;
      },
    )

unfoldable pub maybe_restart_backend : Readings → BackendRecoveryState → Bool × BackendRecoveryState
maybe_restart_backend r recovery =
    if not (backend_restart_can_help r.selection)
    then (false, recovery)
    else if r.docker_reachable
    then (false, recovery)
    else (let (allowed, recovery') = allow_restart r.now recovery in
        (allowed && r.restarts, recovery'))

unfoldable pub failed_iteration : Config → Readings → ServeState → Iteration × ServeState
failed_iteration cfg r s =
    let (restarted, recovery) = maybe_restart_backend r s.backend_recovery in
    (
      record {
        sleep = if restarted then from_secs 8 else serve_tick cfg;
        run_monitors = false;
        deadman_credit = false;
        escalated = false;
      },
      record s {
        previous_post_refill_capacity_immediate = false;
        ensure_fail_streak = add_u32 s.ensure_fail_streak 1;
        backend_recovery = recovery;
      },
    )

unfoldable pub reconcile : Config → Readings → ServeState → Iteration × ServeState
reconcile cfg r s = elim r.ensured [
  | ok outcome ↦ ensured_iteration cfg r.now outcome (decide cfg outcome s) s
  | err e ↦ failed_iteration cfg r s
]

unfoldable pub iteration : Config → Readings → ServeState → Iteration × ServeState
iteration cfg r s = elim s.settling [
  | some episode ↦ local_iteration cfg r episode s
  | none ↦ reconcile cfg r s
]
