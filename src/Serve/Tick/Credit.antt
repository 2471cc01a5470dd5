-- ===== src/Serve/Tick/Credit.antt =====
-- When the serve loop of src/main.rs credits the dead-man clock.
use ez_gh_actions.Base.{
  ◌≤◌, ◌≡◌, ◌⊎◌, inl, inr, true, false, List, arith, length, Text, Option-cases,
}
use ez_gh_actions.Base.Results.{ok, Result-cases}
use ez_gh_actions.FailureLadder.{FailureLadderPolicy}
use ez_gh_actions.Pool.Outcome.{EnsureCountOutcome, ReadinessSummary}
use ez_gh_actions.Pool.Gates.{PoolConfig, EnsureState}
use ez_gh_actions.Pool.Ensure.{EnsureReadings, owned, ensure_count_outcome}
use ez_gh_actions.Pool.Ensure.Evidence.{ensure_count-full}
use ez_gh_actions.Serve.Durations.{Config}
use ez_gh_actions.Serve.Settling.{SettlingEpisode}
use ez_gh_actions.Serve.Tick.Pacing.{iteration-idle, iteration-settling}
use ez_gh_actions.Serve.Decisions.{ensure_outcome_may_credit_deadman}
use ez_gh_actions.Serve.Tick.{
  ServeState, Readings, settle, local_iteration, ensured_iteration, failed_iteration, reconcile,
  iteration,
}

local_iteration-credit :
    (cfg : Config) (r : Readings) (e : SettlingEpisode) (s : ServeState)
    → (local_iteration cfg r e s).0.deadman_credit ≡ false
unfolding local_iteration settle
local_iteration-credit cfg r e s = ground arith

reconcile-credit :
    (cfg : Config) (r : Readings) (s : ServeState)
    → (reconcile cfg r s).0.deadman_credit ≡ true
    → (outcome : EnsureCountOutcome) × (r.ensured ≡ ok outcome)
      × (ensure_outcome_may_credit_deadman outcome ≡ true)
unfolding reconcile ensured_iteration failed_iteration
reconcile-credit cfg r s h = elim (Result-cases r.ensured) [
  | inl (outcome, done) ↦ (outcome, done, ground (arith, done, h))
  | inr (e, failed) ↦ absurd (ground (arith, failed, h))
]

iteration-credit :
    (cfg : Config) (r : Readings) (s : ServeState)
    → (iteration cfg r s).0.deadman_credit ≡ true
    → (outcome : EnsureCountOutcome) × (r.ensured ≡ ok outcome)
      × (ensure_outcome_may_credit_deadman outcome ≡ true)
iteration-credit cfg r s h = elim (Option-cases s.settling) [
  | inl none_yet ↦ reconcile-credit cfg r s (rw (← iteration-idle cfg r s none_yet) h)
  | inr (e, going) ↦
      absurd
        (ground (arith, h, iteration-settling cfg r s e going, local_iteration-credit cfg r e s))
]

-- An iteration credits the dead-man clock only where its reconciliation has seen a full pool: all
-- configured runners' containers before the refill, or all of them ready after it.
pub iteration-deadman_credit :
    (cfg : Config) (r : Readings) (s : ServeState) (policy : FailureLadderPolicy)
    (pool : PoolConfig) (seen : EnsureReadings) (state : EnsureState)
    → r.ensured ≡ (ensure_count_outcome policy pool seen state).0
    → (iteration cfg r s).0.deadman_credit ≡ true
    → ((before : List Text) × (seen.containers ≡ ok before)
        × (pool.count ≤ length (owned pool before)))
      ⊎ ((summary : ReadinessSummary) × (seen.readiness_after ≡ ok summary)
          × (pool.count ≤ summary.ready))
unfolding ensure_outcome_may_credit_deadman
iteration-deadman_credit cfg r s policy pool seen state ran credited =
    let (outcome, done, full) = iteration-credit cfg r s credited in
    ensure_count-full policy pool seen state {outcome = outcome} (rw (← ran) done)
      (ground (arith, full)) (ground (arith, full)) (ground (arith, full))
