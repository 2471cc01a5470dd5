-- ===== src/Serve/Tick/Pacing.antt =====
-- The pace of the serve loop of src/main.rs: what an iteration leaves, and when it does not sleep.
use ez_gh_actions.Base.{
  ℕ, ◌+◌, ◌<◌, ◌≡◌, refl, inl, inr, Bool, true, false, Option, none, some, arith, Option-cases,
}
use ez_gh_actions.Base.Results.{ok, Result-cases}
use ez_gh_actions.Pool.Outcome.{EnsureCountOutcome}
use ez_gh_actions.Serve.Durations.{Config, serve_tick}
use ez_gh_actions.Serve.Settling.{
  SettlingDecision, continue, recovered, ceiling, SettlingEpisode, observe, settling_plan,
  apply_local_settling_decision,
}
use ez_gh_actions.Serve.Settling.Bounds.{IsActive, observe-IsActive, start-IsActive}
use ez_gh_actions.Serve.Decisions.{
  EnsureSuccessDecision, start_settling, fully_recovered, post_refill_capacity_lost,
  post_refill_slots_released, incomplete_readiness, admission_paused, ensure_success_decision,
  ensure_success_plan, immediate_capacity_reconcile, ensure_success_decision_with_pending_readiness,
  apply_ensure_success_decision,
}
use ez_gh_actions.Pool.Outcome.{ReadinessSummary}
use ez_gh_actions.Serve.Tick.{
  ServeState, Readings, poll_decision, settle, local_iteration, decide, ensured_iteration,
  failed_iteration, reconcile, iteration,
}

-- An episode in progress is active, and readiness is pending while there is one.
pub data IsPaced : Option SettlingEpisode → Bool → Type 0 where
  idle : (pending : Bool) → IsPaced none pending
  settling :
      (began polls : ℕ) (e : SettlingEpisode) → IsActive began polls e → IsPaced (some e) true

poll_decision-continue :
    (cfg : Config) (now : ℕ) (summary : ReadinessSummary) (e : SettlingEpisode)
    → (poll_decision cfg now summary e).0 ≡ continue
    → ((observe now summary.ready cfg.count e).0 ≡ continue)
      × ((poll_decision cfg now summary e).1 ≡ (observe now summary.ready cfg.count e).1)
unfolding poll_decision
poll_decision-continue cfg now summary e h = (ground (arith, h), ground (arith, h))

settle-IsPaced :
    (cfg : Config) (now began polls : ℕ) (decision : SettlingDecision) (e : SettlingEpisode)
    (s : ServeState)
    → s.pending_readiness ≡ true
    → (decision ≡ continue → IsActive began polls e)
    → IsPaced
        (settle cfg now decision e s).1.settling
        (settle cfg now decision e s).1.pending_readiness
unfolding settle apply_local_settling_decision
settle-IsPaced cfg now began polls continue e s pending active =
    rw pending (settling began polls e (active refl))
settle-IsPaced cfg now began polls recovered e s pending active = idle false
settle-IsPaced cfg now began polls ceiling e s pending active = idle true

apply_ensure_success_decision-IsPaced :
    (now : ℕ) (decision : EnsureSuccessDecision) (before : Option SettlingEpisode) (pending : Bool)
    → IsPaced
        (apply_ensure_success_decision now decision (before, pending)).0
        (apply_ensure_success_decision now decision (before, pending)).1
unfolding apply_ensure_success_decision
apply_ensure_success_decision-IsPaced now (start_settling n) before pending =
    settling now 0 _ (start-IsActive now n)
apply_ensure_success_decision-IsPaced now fully_recovered before pending = idle false
apply_ensure_success_decision-IsPaced now post_refill_capacity_lost before pending = idle true
apply_ensure_success_decision-IsPaced now post_refill_slots_released before pending = idle true
apply_ensure_success_decision-IsPaced now incomplete_readiness before pending = idle true
apply_ensure_success_decision-IsPaced now admission_paused before pending = idle pending

local_iteration-IsPaced :
    (cfg : Config) (r : Readings) (began polls : ℕ) (e : SettlingEpisode) (s : ServeState)
    → s.pending_readiness ≡ true
    → IsActive began polls e
    → IsPaced (local_iteration cfg r e s).1.settling (local_iteration cfg r e s).1.pending_readiness
unfolding local_iteration
local_iteration-IsPaced cfg r began polls e s pending a = elim (Result-cases r.local_executing) [
  | inl (summary, counted) ↦ rw counted (
      settle-IsPaced cfg r.now began (polls + 1) (poll_decision cfg r.now summary e).0
        (poll_decision cfg r.now summary e).1 s pending
        (λ goes_on.
          (let (seen, kept) = poll_decision-continue cfg r.now summary e goes_on in
            rw kept (observe-IsActive r.now summary.ready cfg.count began polls e a seen).0)))
  | inr (x, unknown) ↦
      rw unknown
        (settle-IsPaced cfg r.now began polls ceiling e s pending (λ never. absurd (cc never)))
]

IsPaced-settling :
    (o : Option SettlingEpisode) (pending : Bool) (e : SettlingEpisode)
    → IsPaced o pending
    → o ≡ some e
    → (pending ≡ true) × (began : ℕ) × (polls : ℕ) × IsActive began polls e
IsPaced-settling none pending e (idle _) h = absurd (cc h)
IsPaced-settling (some e') true e (settling began polls _ a) h =
    let same : e' ≡ e = ground (arith, h) in (refl, began, polls, rw (← same) a)
IsPaced-settling (some e') false e x h = elim x [ ]

reconcile-IsPaced :
    (cfg : Config) (r : Readings) (s : ServeState)
    → s.settling ≡ none
    → IsPaced (reconcile cfg r s).1.settling (reconcile cfg r s).1.pending_readiness
unfolding reconcile ensured_iteration failed_iteration
reconcile-IsPaced cfg r s none_yet = elim (Result-cases r.ensured) [
  | inl (outcome, done) ↦ rw done (
      apply_ensure_success_decision-IsPaced r.now (decide cfg outcome s) s.settling
        s.pending_readiness)
  | inr (e, failed) ↦ rw (failed, none_yet) (idle s.pending_readiness)
]

pub iteration-idle :
    (cfg : Config) (r : Readings) (s : ServeState)
    → s.settling ≡ none
    → iteration cfg r s ≡ reconcile cfg r s
unfolding iteration
iteration-idle cfg r s h = ground (arith, h)

pub iteration-settling :
    (cfg : Config) (r : Readings) (s : ServeState) (e : SettlingEpisode)
    → s.settling ≡ some e
    → iteration cfg r s ≡ local_iteration cfg r e s
unfolding iteration
iteration-settling cfg r s e h = ground (arith, h)

-- Every iteration keeps the loop paced: an episode in progress was started, has made fewer than five
-- polls, and stands only while readiness is pending.
pub iteration-IsPaced :
    (cfg : Config) (r : Readings) (s : ServeState)
    → IsPaced s.settling s.pending_readiness
    → IsPaced (iteration cfg r s).1.settling (iteration cfg r s).1.pending_readiness
iteration-IsPaced cfg r s paced = elim (Option-cases s.settling) [
  | inl none_yet ↦ rw (iteration-idle cfg r s none_yet) (reconcile-IsPaced cfg r s none_yet)
  | inr (e, going) ↦
      let (pending, began, polls, a) =
        IsPaced-settling s.settling s.pending_readiness e paced going in
      rw (iteration-settling cfg r s e going)
        (local_iteration-IsPaced cfg r began polls e s pending a)
]

settle-zero :
    (cfg : Config) (now : ℕ) (decision : SettlingDecision) (e : SettlingEpisode) (s : ServeState)
    → (settle cfg now decision e s).0.sleep ≡ 0
    → ((settle cfg now decision e s).1.settling ≡ none)
      × ((settle cfg now decision e s).1.pending_readiness ≡ true)
unfolding settle apply_local_settling_decision settling_plan serve_tick
settle-zero cfg now decision e s h = (ground (arith, h), ground (arith, h))

ensured_iteration-zero :
    (cfg : Config) (now : ℕ) (outcome : EnsureCountOutcome) (decision : EnsureSuccessDecision)
    (s : ServeState)
    → (ensured_iteration cfg now outcome decision s).0.sleep ≡ 0
    → ((ensured_iteration cfg now outcome decision s).1.settling ≡ none)
      × ((ensured_iteration cfg now outcome decision s).1.pending_readiness ≡ true)
unfolding ensured_iteration apply_ensure_success_decision ensure_success_plan settling_plan
    serve_tick
ensured_iteration-zero cfg now outcome decision s h = (ground (arith, h), ground (arith, h))

failed_iteration-sleeps :
    (cfg : Config) (r : Readings) (s : ServeState) → 0 < (failed_iteration cfg r s).0.sleep
unfolding failed_iteration serve_tick
failed_iteration-sleeps cfg r s = ground arith

local_iteration-zero :
    (cfg : Config) (r : Readings) (e : SettlingEpisode) (s : ServeState)
    → (local_iteration cfg r e s).0.sleep ≡ 0
    → ((local_iteration cfg r e s).1.settling ≡ none)
      × ((local_iteration cfg r e s).1.pending_readiness ≡ true)
unfolding local_iteration
local_iteration-zero cfg r e s h = elim (Result-cases r.local_executing) [
  | inl (summary, counted) ↦ rw counted (
      settle-zero cfg r.now (poll_decision cfg r.now summary e).0
        (poll_decision cfg r.now summary e).1 s (ground (arith, counted, h)))
  | inr (x, unknown) ↦ rw unknown (settle-zero cfg r.now ceiling e s (ground (arith, unknown, h)))
]

reconcile-zero :
    (cfg : Config) (r : Readings) (s : ServeState)
    → (reconcile cfg r s).0.sleep ≡ 0
    → ((reconcile cfg r s).1.settling ≡ none) × ((reconcile cfg r s).1.pending_readiness ≡ true)
unfolding reconcile
reconcile-zero cfg r s h = elim (Result-cases r.ensured) [
  | inl (outcome, done) ↦
      rw done (
        ensured_iteration-zero cfg r.now outcome (decide cfg outcome s) s (ground (arith, done, h)))
  | inr (e, failed) ↦ absurd (ground (arith, failed, h, failed_iteration-sleeps cfg r s))
]

-- An iteration that does not sleep leaves no episode and readiness pending: the next iteration is a full
-- reconciliation, which cannot take the pool for recovered unseen.
zero_sleep_reconciles :
    (cfg : Config) (r next : Readings) (s : ServeState)
    → (iteration cfg r s).0.sleep ≡ 0
    → ((iteration cfg r s).1.pending_readiness ≡ true)
      × (iteration cfg next (iteration cfg r s).1 ≡ reconcile cfg next (iteration cfg r s).1)
zero_sleep_reconciles cfg r next s h = elim (Option-cases s.settling) [
  | inl none_yet ↦
      let same = iteration-idle cfg r s none_yet in
      let zero = reconcile-zero cfg r s (rw (← same) h) in
      rw same (zero.1, iteration-idle cfg next (reconcile cfg r s).1 zero.0)
  | inr (e, going) ↦
      let same = iteration-settling cfg r s e going in
      let zero = local_iteration-zero cfg r e s (rw (← same) h) in
      rw same (zero.1, iteration-idle cfg next (local_iteration cfg r e s).1 zero.0)
]

-- A reconciliation that lost capacity or slots is repeated at once, but not twice: the one after it, if it
-- succeeds without a readiness error, sleeps and does not ask for another immediate one.
immediate_once :
    (cfg : Config) (r : Readings) (s : ServeState) (outcome : EnsureCountOutcome)
    → s.previous_post_refill_capacity_immediate ≡ true
    → r.ensured ≡ ok outcome
    → outcome.post_refill_readiness_error ≡ none
    → ((reconcile cfg r s).1.previous_post_refill_capacity_immediate ≡ false)
      × (0 < (reconcile cfg r s).0.sleep)
unfolding reconcile ensured_iteration decide ensure_success_decision_with_pending_readiness
    immediate_capacity_reconcile ensure_success_decision ensure_success_plan settling_plan
    serve_tick
immediate_once cfg r s outcome h done complete =
    (ground (arith, h, done), ground (arith, h, done, complete))
