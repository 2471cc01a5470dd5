-- ===== src/Pool/Refill.antt =====
-- `start_missing_runners_with_starter` (src/docker_backend.rs): one batch of starts.
pub mod Induction
pub mod Bounds
pub mod Exclusion
pub mod Ledger
use ez_gh_actions.Base.{
  map_option, ℕ, zero, suc, ◌+◌, ◌*◌, ◌<◌, Bool, true, false, not, Option, none, some, List, [],
  ◌∷◌, ◌++◌, ltb, if◌then◌else◌, min, max, Text,
}
use ez_gh_actions.Base.Results.{Result, ok, err}
use ez_gh_actions.FailureLadder.{
  FailureLadderPolicy, PolicyError, FailureLadder, record_failure, record_success, excluded_slots,
  open_slot_count, fleet_admission_is_paused, empty,
}
use ez_gh_actions.FailureLadder.Storage.{LoadError}
use ez_gh_actions.Pool.Slots.{SlotAssignments, SlotError, next_slot_excluding}
use ez_gh_actions.Pool.Memory.{NativeHost, admission_batch}
use ez_gh_actions.Pool.Attempt.{
  PauseReason, persistence_failed_before, preflight_not_persisted, ladder_unreadable,
  fleet_circuit_open, native_admission_paused, memory_permits, Surroundings, Batch, Round, continue,
  stop, abort, round,
}

-- `for _ in 0..batch.slots`, from attempt `k` on
unfoldable pub run_batch :
    FailureLadderPolicy → ℕ → Surroundings → ℕ → ℕ → Batch → Result PolicyError Unit × Batch
run_batch policy count env zero k s = (ok tt, s)
run_batch policy count env (suc left) k s = elim (round policy count env k s) [
  | continue s' ↦ run_batch policy count env left (k + 1) s'
  | stop s' ↦ (ok tt, s')
  | abort e s' ↦ (err e, s')
]

pub record StartMissingOutcome : Type 0 where
  pub started : List Text
  pub attempted_slots : List ℕ
  pub start_failures : ℕ
  pub admission_paused_reason : Option PauseReason

abbrev pub paused_outcome : PauseReason → StartMissingOutcome
paused_outcome reason = record {
  started = [];
  attempted_slots = [];
  start_failures = 0;
  admission_paused_reason = some reason;
}

pub data RefillError : Type 0 where
  policy_error : PolicyError → RefillError
  allocation_error : SlotError → RefillError

unfoldable pub batch_outcome : Batch → StartMissingOutcome
batch_outcome s = record {
  started = s.started;
  attempted_slots = s.attempted_slots;
  start_failures = s.start_failures;
  admission_paused_reason = s.admission_paused_reason;
}

-- an allocation error is the batch's error if nothing was started
unfoldable pub finish : Result PolicyError Unit × Batch → Result RefillError StartMissingOutcome
finish (err e, s) = err (policy_error e)
finish (ok _, s) = elim s.started [
  | [] ↦ elim s.last_err [ none ↦ ok (batch_outcome s) | some e ↦ err (allocation_error e) ]
  | _ ↦ ok (batch_outcome s)
]

-- What the call finds: the latch, the loaded ledger, the time, whether the ledger can be persisted,
-- how many runners are missing, the host that `admission_batch` looks at, and the slot file.
pub record Start : Type 0 where
  pub persistence_failed : Bool
  pub loaded : Result LoadError FailureLadder
  pub now : ℕ
  pub persists : Bool
  pub missing : ℕ
  pub host : NativeHost
  pub slots : SlotAssignments

abbrev pub first_batch : Start → FailureLadder → Option PauseReason → Batch
first_batch start ladder paused = record {
  ladder = ladder;
  slots = start.slots;
  failed_slots = excluded_slots ladder start.now;
  started = [];
  attempted_slots = [];
  start_failures = 0;
  admission_paused_reason = paused;
  last_err = none;
  persistence_failed = false;
}

-- the result, and the latch afterwards
unfoldable pub start_loaded :
    FailureLadderPolicy
    → ℕ
    → Surroundings
    → Start
    → FailureLadder
    → Result RefillError StartMissingOutcome × Bool
start_loaded policy count env start ladder =
    if fleet_admission_is_paused ladder start.now
    then (ok (paused_outcome (fleet_circuit_open (open_slot_count ladder start.now))), false)
    else if not start.persists
    then (ok (paused_outcome preflight_not_persisted), true)
    else elim (admission_batch start.missing start.host) [
      | err e ↦ (ok (paused_outcome (native_admission_paused e)), false)
      | ok (slots, paused) ↦
          let batch =
            run_batch policy count env slots 0
              (first_batch start ladder (map_option memory_permits paused)) in
          (finish batch, batch.1.persistence_failed)
    ]

unfoldable pub start_missing_runners_with_starter :
    FailureLadderPolicy → ℕ → Surroundings → Start → Result RefillError StartMissingOutcome × Bool
start_missing_runners_with_starter policy count env start =
    if start.persistence_failed
    then (ok (paused_outcome persistence_failed_before), true)
    else elim start.loaded [
      | err e ↦ (ok (paused_outcome (ladder_unreadable e)), false)
      | ok ladder ↦ start_loaded policy count env start ladder
    ]
