-- ===== src/Serve/Decisions.antt =====
-- What the serve loop of src/main.rs decides after a reconciliation.
use ez_gh_actions.Base.{
  ℕ, ◌-◌, Bool, true, false, not, ◌||◌, ◌&&◌, Option, none, some, List, [], ◌∷◌, ltb, ◌==◌,
  if◌then◌else◌, is_some,
}
use ez_gh_actions.Pool.Outcome.{EnsureCountOutcome, is_partial_failure}
use ez_gh_actions.Serve.Durations.{Config, serve_tick}
use ez_gh_actions.Serve.Settling.{
  SettlingEpisode, continue, recovered, ceiling, settling_plan, start,
}

abbrev pub is_empty {ℓ} : {A : Type ℓ} → List A → Bool
is_empty [] = true
is_empty (x ∷ xs) = false

unfoldable pub ensure_outcome_may_credit_deadman : EnsureCountOutcome → Bool
ensure_outcome_may_credit_deadman outcome =
    not (is_some outcome.admission_paused_reason)
    && (not (is_partial_failure outcome)
        && (not (is_some outcome.post_refill_readiness_error)
            && (is_empty outcome.post_refill_capacity_lost
                && (is_empty outcome.post_refill_slots_released
                    && outcome.remaining_shortage == 0))))

pub data EnsureSuccessDecision : Type 0 where
  start_settling : ℕ → EnsureSuccessDecision
  fully_recovered post_refill_capacity_lost post_refill_slots_released : EnsureSuccessDecision
  incomplete_readiness admission_paused : EnsureSuccessDecision

pub data StartCommandDisposition : Type 0 where
  at_capacity started paused pending_shortage incomplete : StartCommandDisposition

unfoldable pub start_command_disposition : EnsureCountOutcome → StartCommandDisposition
start_command_disposition outcome =
    if is_some outcome.admission_paused_reason
    then paused
    else if ltb 0 outcome.start_failures
        || is_some outcome.post_refill_readiness_error
        || not (is_empty outcome.post_refill_capacity_lost)
        || not (is_empty outcome.post_refill_slots_released)
    then incomplete
    else if not (is_empty outcome.started)
    then started
    else if outcome.remaining_shortage == 0
    then at_capacity
    else pending_shortage

unfoldable pub ensure_success_decision : Config → EnsureCountOutcome → EnsureSuccessDecision
ensure_success_decision cfg outcome =
    if is_some outcome.admission_paused_reason
    then admission_paused
    else if not (is_empty outcome.post_refill_capacity_lost)
    then post_refill_capacity_lost
    else if not (is_empty outcome.post_refill_slots_released)
    then post_refill_slots_released
    else if is_some outcome.post_refill_readiness_error
    then incomplete_readiness
    else if ltb 0 outcome.remaining_shortage
    then start_settling (cfg.count - outcome.remaining_shortage)
    else fully_recovered

unfoldable pub ensure_success_plan : Config → EnsureSuccessDecision → ℕ × Bool
ensure_success_plan cfg (start_settling executing) = settling_plan cfg continue
ensure_success_plan cfg fully_recovered = settling_plan cfg recovered
ensure_success_plan cfg post_refill_capacity_lost = settling_plan cfg ceiling
ensure_success_plan cfg post_refill_slots_released = settling_plan cfg ceiling
ensure_success_plan cfg incomplete_readiness = settling_plan cfg ceiling
ensure_success_plan cfg admission_paused = (serve_tick cfg, true)

unfoldable pub immediate_capacity_reconcile : EnsureSuccessDecision → Bool
immediate_capacity_reconcile post_refill_capacity_lost = true
immediate_capacity_reconcile post_refill_slots_released = true
immediate_capacity_reconcile _ = false

abbrev is_fully_recovered : EnsureSuccessDecision → Bool
is_fully_recovered fully_recovered = true
is_fully_recovered _ = false

unfoldable pub ensure_success_decision_with_pending_readiness :
    EnsureSuccessDecision → Bool → Bool → ℕ → EnsureSuccessDecision
ensure_success_decision_with_pending_readiness decision pending_readiness previous executing =
    if previous && immediate_capacity_reconcile decision
    then start_settling executing
    else if pending_readiness && is_fully_recovered decision
    then start_settling 0
    else decision

unfoldable pub apply_ensure_success_decision :
    ℕ → EnsureSuccessDecision → Option SettlingEpisode × Bool → Option SettlingEpisode × Bool
apply_ensure_success_decision now (start_settling executing) s = (some (start now executing), true)
apply_ensure_success_decision now fully_recovered s = (none, false)
apply_ensure_success_decision now post_refill_capacity_lost s = (none, true)
apply_ensure_success_decision now post_refill_slots_released s = (none, true)
apply_ensure_success_decision now incomplete_readiness s = (none, true)
apply_ensure_success_decision now admission_paused (settling, pending_readiness) =
    (none, pending_readiness)
