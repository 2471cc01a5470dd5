-- ===== src/Serve/Tick/Readiness.antt =====
-- What an iteration of the serve loop of src/main.rs takes as evidence that the pool has recovered.
use ez_gh_actions.Base.{ℕ, ◌≤◌, ◌≡◌, refl, inl, inr, true, false, arith, Option-cases}
use ez_gh_actions.Base.Results.{ok, Result-cases}
use ez_gh_actions.Pool.Outcome.{EnsureCountOutcome}
use ez_gh_actions.Serve.Durations.{Config}
use ez_gh_actions.Serve.Settling.{
  SettlingDecision, recovered, ceiling, SettlingEpisode, observe, observe_active, progress,
  apply_local_settling_decision,
}
use ez_gh_actions.Serve.Decisions.{
  ensure_success_decision_with_pending_readiness, apply_ensure_success_decision,
}
use ez_gh_actions.Pool.Outcome.{ReadinessSummary}
use ez_gh_actions.Serve.Tick.{
  ServeState, Readings, poll_decision, settle, local_iteration, decide, ensured_iteration,
  failed_iteration, reconcile, iteration,
}

-- only a poll that meets the target says that the pool has recovered
observe-recovered :
    (now executing target : ℕ) (self : SettlingEpisode)
    → (observe now executing target self).0 ≡ recovered
    → target ≤ executing
unfolding observe observe_active progress
observe-recovered now executing target self h = ground (arith, h)

poll_decision-recovered :
    (cfg : Config) (now : ℕ) (summary : ReadinessSummary) (episode : SettlingEpisode)
    → (poll_decision cfg now summary episode).0 ≡ recovered
    → cfg.count ≤ summary.ready
unfolding poll_decision
poll_decision-recovered cfg now summary episode h =
    ground (arith, h, observe-recovered now summary.ready cfg.count episode)

settle-pending :
    (cfg : Config) (now : ℕ) (decision : SettlingDecision) (episode : SettlingEpisode)
    (s : ServeState)
    → s.pending_readiness ≡ true
    → (settle cfg now decision episode s).1.pending_readiness ≡ false
    → decision ≡ recovered
unfolding settle apply_local_settling_decision
settle-pending cfg now decision episode s h k = ground (arith, h, k)

ensured_iteration-pending :
    (cfg : Config) (now : ℕ) (outcome : EnsureCountOutcome) (s : ServeState)
    → s.pending_readiness ≡ true
    → (ensured_iteration cfg now outcome (decide cfg outcome s) s).1.pending_readiness ≡ true
unfolding ensured_iteration decide apply_ensure_success_decision
    ensure_success_decision_with_pending_readiness
ensured_iteration-pending cfg now outcome s h = ground (arith, h)

failed_iteration-pending :
    (cfg : Config) (r : Readings) (s : ServeState)
    → (failed_iteration cfg r s).1.pending_readiness ≡ s.pending_readiness
unfolding failed_iteration
failed_iteration-pending cfg r s = refl

-- While readiness is pending, only a local count that finds every configured runner ready clears
-- it: no reconciliation, failure or ceiling does.
pub readiness_needs_evidence :
    (cfg : Config) (r : Readings) (s : ServeState)
    → s.pending_readiness ≡ true
    → (iteration cfg r s).1.pending_readiness ≡ false
    → (summary : ReadinessSummary) × (r.local_executing ≡ ok summary) × (cfg.count ≤ summary.ready)
unfolding iteration local_iteration reconcile
readiness_needs_evidence cfg r s pending cleared = elim (Option-cases s.settling) [
  | inr (episode, settling) ↦ elim (Result-cases r.local_executing) [
    | inl (summary, counted) ↦
        let (decision, episode') = poll_decision cfg r.now summary episode in
        (
          summary,
          counted,
          poll_decision-recovered cfg r.now summary episode (
              settle-pending cfg r.now decision episode' s pending
                (ground (arith, settling, counted, cleared))),
        )
    | inr (e, unknown) ↦
        let never =
          settle-pending cfg r.now ceiling episode s pending
            (ground (arith, settling, unknown, cleared)) in
        absurd (cc never)
  ]
  | inl idle ↦ elim (Result-cases r.ensured) [
    | inl (outcome, done) ↦
        absurd (
          ground
            (arith, idle, done, cleared, ensured_iteration-pending cfg r.now outcome s pending))
    | inr (e, failed) ↦
        absurd (ground (arith, idle, failed, cleared, pending, failed_iteration-pending cfg r s))
  ]
]
