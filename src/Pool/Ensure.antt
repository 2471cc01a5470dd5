-- ===== src/Pool/Ensure.antt =====
-- `ensure_count_outcome` (src/docker_backend.rs): one reconciliation of the pool.
pub mod Evidence
mod Scenarios
use ez_gh_actions.Base.{
  ℕ, ◌+◌, ◌-◌, ◌*◌, ◌%◌, ◌^◌, Bool, true, false, not, ◌&&◌, ◌||◌, Option, none, some, List, [], ◌∷◌,
  ltb, leb, if◌then◌else◌, length, retain, saturating_add, any, map_option, is_some_and, Text,
  text_eq, zero, suc,
}
use ez_gh_actions.Base.Results.{Result, ok, err}
use ez_gh_actions.FailureLadder.{FailureLadderPolicy}
use ez_gh_actions.Pool.Slots.{SlotAssignments}
use ez_gh_actions.Pool.Memory.{has}
use ez_gh_actions.Pool.Pressure.{
  Refusal, probe_failed, eval_admission, AdmissionPauseEpisode, admission_pause_alert_due,
  push_reading, saturating_mul,
}
use ez_gh_actions.Pool.Released.{
  runner_name_for, runner_name_matches_prefix, sort, Eligibility, post_refill_released_slots,
}
use ez_gh_actions.Pool.Gates.{PoolConfig, EnsureState, host_disk, docker_disk, memory_gate}
use ez_gh_actions.Pool.Attempt.{Surroundings}
use ez_gh_actions.Pool.Refill.{
  StartMissingOutcome, RefillError, Start, start_missing_runners_with_starter,
}
use ez_gh_actions.Pool.Outcome.{
  EnsurePause, host_containment_failed, host_disk_floor, disk_floor, host_disk_unmeasured,
  disk_unmeasured, memory_refused, refill_paused, EnsureCountOutcome, ReadinessSummary,
  admission_paused_outcome,
}

-- What a reconciliation reads, in the order in which it does. `start` and `surroundings` are what the refill
-- finds; `snapshots` are the slot file before the batch, before the release and after it.
pub record EnsureReadings : Type 0 where
  pub host_containment : Result Text Unit
  pub reclaimed : ℕ
  pub containers : Result Text (List Text)
  pub host_free_disk_gb : Option ℕ
  pub free_disk_gb : Option ℕ
  pub memory_pressure : Result Text (ℕ × ℕ)
  pub now : ℕ
  pub start : Start
  pub surroundings : Surroundings
  pub before_batch : Option SlotAssignments
  pub before_release : Option SlotAssignments
  pub quarantine_readable : Bool
  pub release_succeeded : Bool
  pub after_release : Option SlotAssignments
  pub containers_after : Result Text (List Text)
  pub eligibility : Eligibility
  pub readiness_after : Result Text ReadinessSummary

pub data EnsureError : Type 0 where
  listing_failed recount_failed : Text → EnsureError
  refill_failed : RefillError → EnsureError

abbrev pub owned : PoolConfig → List Text → List Text
owned cfg names = retain (runner_name_matches_prefix cfg.name_prefix) names

-- `configured_names`, for the slots `slot..slot + left`
abbrev configured : PoolConfig → ℕ → ℕ → List Text
configured cfg zero slot = []
configured cfg (suc left) slot =
    runner_name_for cfg.name_prefix slot ∷ configured cfg left (slot + 1)

-- collecting into a `HashSet`
abbrev distinct : List Text → List Text
distinct [] = []
distinct (x ∷ xs) = let rest = distinct xs in if has rest x then rest else x ∷ rest

unfoldable pub capacity_lost : PoolConfig → List Text → List Text → List Text
capacity_lost cfg before after = sort (
    retain (λ name. not (has (owned cfg after) name))
      (distinct (retain (has (configured cfg cfg.count 1)) (owned cfg before))))

-- the shortage after the batch, and the readiness error
unfoldable pub shortage_after :
    PoolConfig → List Text → Result Text ReadinessSummary → ℕ × Option Text
shortage_after cfg after (ok summary) = (cfg.count - summary.ready, none)
shortage_after cfg after (err e) = (cfg.count - length (owned cfg after), some e)

unfoldable pub refilled_outcome :
    PoolConfig
    → EnsureReadings
    → Bool
    → ℕ
    → List Text
    → List Text
    → StartMissingOutcome
    → EnsureCountOutcome
refilled_outcome cfg r latch missing before after refill =
    let (shortage, error) = shortage_after cfg after r.readiness_after in
    record {
      started = refill.started;
      missing = missing;
      remaining_shortage = shortage;
      post_refill_readiness_error = error;
      post_refill_capacity_lost = capacity_lost cfg before after;
      post_refill_slots_released =
          post_refill_released_slots cfg.name_prefix cfg.count r.eligibility latch r.before_batch
            r.before_release
            (if r.release_succeeded && r.quarantine_readable then r.after_release else none)
            refill.attempted_slots (owned cfg after);
      start_failures = refill.start_failures;
      reclaimed = r.reclaimed;
      admission_paused_reason = map_option refill_paused refill.admission_paused_reason;
    }

unfoldable pub after_refill :
    PoolConfig
    → EnsureReadings
    → Bool
    → ℕ
    → List Text
    → Result RefillError StartMissingOutcome
    → Result EnsureError EnsureCountOutcome
after_refill cfg r latch missing before (err e) = err (refill_failed e)
after_refill cfg r latch missing before (ok refill) = elim r.containers_after [
  | err e ↦ err (recount_failed e)
  | ok after ↦ ok (refilled_outcome cfg r latch missing before after refill)
]

unfoldable pub refill :
    FailureLadderPolicy
    → PoolConfig
    → EnsureReadings
    → ℕ
    → List Text
    → EnsureState
    → Result EnsureError EnsureCountOutcome × EnsureState
refill policy cfg r missing before state =
    let (result, latch) =
      start_missing_runners_with_starter policy cfg.count r.surroundings
        (record r.start { missing = missing; persistence_failed = state.persistence_failed }) in
    (after_refill cfg r latch missing before result, record state { persistence_failed = latch })

-- the gates that a shortage passes before the refill
unfoldable pub ensure_missing :
    FailureLadderPolicy
    → PoolConfig
    → EnsureReadings
    → ℕ
    → List Text
    → EnsureState
    → Result EnsureError EnsureCountOutcome × EnsureState
ensure_missing policy cfg r missing before state = elim (host_disk cfg r.host_free_disk_gb) [
  | some p ↦ (ok (admission_paused_outcome missing p), state)
  | none ↦
      let (pause, strikes) = docker_disk cfg r.free_disk_gb state.consecutive_disk_none in
      let state' = record state { consecutive_disk_none = strikes } in
      elim pause [
        | some p ↦ (ok (admission_paused_outcome missing p), state')
        | none ↦
            let (decision, state'') = memory_gate cfg r.now r.memory_pressure state' in
            elim decision [
              | err e ↦ (ok (admission_paused_outcome missing (memory_refused e)), state'')
              | ok _ ↦ refill policy cfg r missing before state''
            ]
      ]
]

unfoldable pub full_outcome : ℕ → EnsureCountOutcome
full_outcome reclaimed = record {
  started = [];
  missing = 0;
  remaining_shortage = 0;
  post_refill_readiness_error = none;
  post_refill_capacity_lost = [];
  post_refill_slots_released = [];
  start_failures = 0;
  reclaimed = reclaimed;
  admission_paused_reason = none;
}

unfoldable pub ensure_listed :
    FailureLadderPolicy
    → PoolConfig
    → EnsureReadings
    → List Text
    → EnsureState
    → Result EnsureError EnsureCountOutcome × EnsureState
ensure_listed policy cfg r before state =
    if leb cfg.count (length (owned cfg before))
    then (ok (full_outcome r.reclaimed), record state { pause_episode = none })
    else ensure_missing policy cfg r (cfg.count - length (owned cfg before)) before state

unfoldable pub ensure_count_outcome :
    FailureLadderPolicy
    → PoolConfig
    → EnsureReadings
    → EnsureState
    → Result EnsureError EnsureCountOutcome × EnsureState
ensure_count_outcome policy cfg r state = elim r.host_containment [
  | err e ↦ (ok (admission_paused_outcome cfg.count (host_containment_failed e)), state)
  | ok _ ↦ elim r.containers [
    | err e ↦ (err (listing_failed e), state)
    | ok before ↦ ensure_listed policy cfg r before state
  ]
]
