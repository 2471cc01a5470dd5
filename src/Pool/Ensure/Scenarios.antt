-- ===== src/Pool/Ensure/Scenarios.antt =====
-- Tests and instances for the reconciliation of src/docker_backend.rs and its memory gate.
use ez_gh_actions.Base.{◌+◌, ◌≤◌, ◌≡◌, refl, true, false, none, some, [], ◌∷◌, arith, length, text}
use ez_gh_actions.Base.Results.{ok}
use ez_gh_actions.FailureLadder.{default_policy, empty}
use ez_gh_actions.Pool.Pressure.{eval_admission, all_rising, rises_from, admission_pause_alert_due}
use ez_gh_actions.Pool.Pressure.Gate.{Pause, admitted, quiet, reported}
use ez_gh_actions.Pool.Released.{
  runner_name_for, runner_name_matches_prefix, sort, released_from, was_released,
  post_refill_released_slots,
}
use ez_gh_actions.Pool.Outcome.{EnsureCountOutcome, admission_paused_outcome}
use ez_gh_actions.Pool.Gates.{
  PoolConfig, EnsureState, host_disk, docker_disk, memory_decision, has_headroom, memory_gate,
}
use ez_gh_actions.Pool.Ensure.{
  EnsureReadings, capacity_lost, shortage_after, refilled_outcome, after_refill, refill,
  ensure_missing, full_outcome, ensure_listed, ensure_count_outcome,
}
use ez_gh_actions.Pool.Ensure.Evidence.{
  IsHostRoomy, IsDockerRoomy, IsMemoryFree, ensure_count-starts,
}
use ez_gh_actions.Pool.Scenarios.{steady, granted, pool_code}

-- what a reconciliation computes with
ensure_code : Unit {0}
unfolding pool_code eval_admission all_rising rises_from admission_pause_alert_due runner_name_for
    runner_name_matches_prefix sort released_from was_released post_refill_released_slots
    admission_paused_outcome host_disk docker_disk memory_decision has_headroom memory_gate
    capacity_lost shortage_after refilled_outcome after_refill refill ensure_missing full_outcome
    ensure_listed ensure_count_outcome
ensure_code = tt

abbrev four : PoolConfig
four = record {
  count = 4;
  name_prefix = text "ez";
  min_free_disk_gb = 10;
  memory_mb = 2048;
  host_reserve_mb = 4096;
}

abbrev fresh : EnsureState
fresh = record {
  persistence_failed = false;
  consecutive_disk_none = 0;
  pressure_window = none ∷ none ∷ none ∷ none ∷ none ∷ [];
  pause_episode = none;
}

-- two of four runners are there, slot 2 cannot be started, and three are ready afterwards
abbrev two_missing : EnsureReadings
two_missing = record {
  host_containment = ok tt;
  reclaimed = 0;
  containers = ok (text "ez-1" ∷ text "ez-4" ∷ text "other" ∷ []);
  host_free_disk_gb = some 40;
  free_disk_gb = none;
  memory_pressure = ok (120, 17179869184);
  now = 0;
  start = granted;
  surroundings = steady;
  before_batch = none;
  before_release = none;
  quarantine_readable = true;
  release_succeeded = true;
  after_release = none;
  containers_after = ok (text "ez-3" ∷ text "ez-4" ∷ []);
  eligibility = record { quarantine = ok []; ladder = ok empty; now = 100 };
  readiness_after = ok (record { ready = 2; absent = [] });
}

abbrev partly_refilled : EnsureCountOutcome
partly_refilled = record {
  started = text "r" ∷ [];
  missing = 2;
  remaining_shortage = 2;
  post_refill_readiness_error = none;
  post_refill_capacity_lost = text "ez-1" ∷ [];
  post_refill_slots_released = [];
  start_failures = 1;
  reclaimed = 0;
  admission_paused_reason = none;
}

reconciles : (ensure_count_outcome default_policy four two_missing fresh).0 ≡ ok partly_refilled
unfolding ensure_code
reconciles = refl

ensure_count-starts_example :
    (length partly_refilled.started + partly_refilled.start_failures ≤ 2)
    × (2 ≤ 4)
    × IsHostRoomy four two_missing
    × IsDockerRoomy four two_missing 0
    × IsMemoryFree four two_missing
    × ((memory_decision four two_missing.memory_pressure fresh.pressure_window).0 ≡ ok tt)
ensure_count-starts_example =
    ensure_count-starts default_policy four two_missing fresh {outcome = partly_refilled} reconciles
      (omega arith)

-- ten minutes after the first refusal the pause is reported
paused_long : Pause 1 (some (record { since = 5; alerted = true }))
unfolding admission_pause_alert_due
paused_long = reported 600000000005 true (quiet 5 true admitted refl) refl
