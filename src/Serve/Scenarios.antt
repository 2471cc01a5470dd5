-- ===== src/Serve/Scenarios.antt =====
-- Tests and instances for the serve loop of src/main.rs.
use ez_gh_actions.Base.{
  ℕ, ◌==◌, if◌then◌else◌, ◌+◌, ◌≤◌, ◌≡◌, refl, true, false, none, some, [], ◌∷◌, arith, Text, text,
}
use ez_gh_actions.Base.Results.{Result, ok, err}
use ez_gh_actions.Backend.{chosen, docker}
use ez_gh_actions.Pool.Outcome.{EnsureCountOutcome}
use ez_gh_actions.Serve.Durations.{from_secs, Config, serve_tick}
use ez_gh_actions.Serve.Settling.{
  observe, observe_active, progress, settling_plan, start, apply_local_settling_decision,
  record_recovery, record_settling_ceiling_at,
}
use ez_gh_actions.Serve.Settling.Bounds.{Episode, begin, poll}
use ez_gh_actions.Serve.Decisions.{
  ensure_outcome_may_credit_deadman, ensure_success_decision, ensure_success_plan,
  immediate_capacity_reconcile, ensure_success_decision_with_pending_readiness,
  apply_ensure_success_decision, start_command_disposition,
}
use ez_gh_actions.Serve.Recovery.{
  new, roll_window, cooling_down, allow_restart, clamped_restart_timeout,
  clamped_health_poll_timeout, succeeded, not_found, Host, attempt_backend_restart_with,
}
use ez_gh_actions.Serve.Recovery.Limits
use ez_gh_actions.Serve.Recovery.Limits.{Requests, IsSpaced, since, restarts_limited}
use ez_gh_actions.Pool.Outcome.{ReadinessSummary}
use ez_gh_actions.Serve.Tick.{
  ServeState, Readings, count_ceiling, poll_decision, settle, local_iteration,
  apply_ensure_outcome_to_failure_streak, count_ensure_ceiling, decide, ensured_iteration,
  maybe_restart_backend, failed_iteration, reconcile, iteration,
}
use ez_gh_actions.Serve.Tick.Readiness.{readiness_needs_evidence}
use ez_gh_actions.Serve.Tick.Pacing.{IsPaced, idle, iteration-IsPaced}

-- what an iteration computes with
unfoldable pub serve_code : Unit {0}
unfolding serve_tick observe observe_active progress settling_plan apply_local_settling_decision
    record_settling_ceiling_at ensure_outcome_may_credit_deadman ensure_success_decision
    ensure_success_plan immediate_capacity_reconcile ensure_success_decision_with_pending_readiness
    apply_ensure_success_decision start_command_disposition roll_window cooling_down allow_restart
    clamped_restart_timeout clamped_health_poll_timeout attempt_backend_restart_with count_ceiling
    poll_decision settle local_iteration apply_ensure_outcome_to_failure_streak count_ensure_ceiling
    decide ensured_iteration maybe_restart_backend failed_iteration reconcile iteration
serve_code = tt

abbrev pub six : Config
six = record { count = 6; serve_tick_seconds = 30; failure_alert_threshold = 3 }

abbrev pub short_by : ℕ → EnsureCountOutcome
short_by n = record {
  started = [];
  missing = n;
  remaining_shortage = n;
  post_refill_readiness_error = none;
  post_refill_capacity_lost = [];
  post_refill_slots_released = [];
  start_failures = 0;
  reclaimed = 0;
  admission_paused_reason = none;
}

abbrev pub reads : ℕ → Result Text ReadinessSummary → EnsureCountOutcome → Readings
reads seconds local outcome = record {
  now = from_secs seconds;
  local_executing = local;
  ensured = ok outcome;
  selection = chosen docker [];
  docker_reachable = true;
  restarts = false;
}

abbrev ready : ℕ → Result Text ReadinessSummary
ready n = ok (record { ready = n; absent = [] })

abbrev pub at_rest : ServeState
at_rest = record {
  settling = none;
  pending_readiness = false;
  previous_post_refill_capacity_immediate = false;
  settling_ceilings = record_recovery;
  ensure_fail_streak = 0;
  backend_recovery = new 0;
}

abbrev in_episode : ServeState
in_episode = record at_rest { settling = some (start (from_secs 10) 4); pending_readiness = true }

-- A shortage starts an episode, and a later count of all six ends it.
settles :
    ((iteration six (reads 10 (err []) (short_by 2)) at_rest).1 ≡ in_episode)
    × ((iteration six (reads 15 (ready 6) (short_by 0)) in_episode).1 ≡ at_rest)
unfolding serve_code
settles = (refl, refl)

readiness_needs_evidence_example :
    (summary : ReadinessSummary) × (ready 6 ≡ ok summary) × (6 ≤ summary.ready)
unfolding serve_code
readiness_needs_evidence_example =
    readiness_needs_evidence six (reads 15 (ready 6) (short_by 0)) in_episode refl refl

iteration-IsPaced_example : IsPaced (some (start (from_secs 10) 4)) true
unfolding serve_code
iteration-IsPaced_example =
    iteration-IsPaced six (reads 10 (err []) (short_by 2)) at_rest (idle false)

abbrev lost : EnsureCountOutcome
lost = record (short_by 1) { post_refill_capacity_lost = text "runner-3" ∷ [] }

abbrev after_loss : ServeState
after_loss = record at_rest {
  pending_readiness = true;
  previous_post_refill_capacity_immediate = true;
}

polled_once : Episode 0 4 6 1 (observe (from_secs 5) 4 6 (start 0 4)).1
unfolding serve_code
polled_once = poll (from_secs 5) 4 begin refl

restarted_once :
    Requests (from_secs 100) (from_secs 100 ∷ []) (allow_restart (from_secs 100) (new 0)).1
unfolding serve_code
restarted_once = Limits.allowed (from_secs 100) (Limits.begin 0) (omega arith) refl

restarts_limited_example :
    IsSpaced (from_secs 100 ∷ [])
    × (since (allow_restart (from_secs 100) (new 0)).1.window_started (from_secs 100 ∷ []) ≤ 3)
restarts_limited_example = restarts_limited restarted_once

-- the first command is not there, the second brings Docker back
abbrev linux : Host
linux = record {
  before = λ k. from_secs k;
  run = λ k timeout. if k == 0 then not_found else succeeded;
  after = λ k. from_secs (k + 30);
  poll_backend_healthy = λ k timeout interval. true;
}
