-- ===== src/Pool/Attempt.antt =====
-- One round of the start loop of `start_missing_runners_with_starter` (src/docker_backend.rs).
use ez_gh_actions.Base.{
  ℕ, ◌+◌, ◌*◌, Bool, true, not, Option, none, some, List, [], ◌∷◌, ◌++◌, ltb, if◌then◌else◌, min,
  max, Text,
}
use ez_gh_actions.Base.Results.{Result, ok, err}
use ez_gh_actions.FailureLadder.{
  FailureLadderPolicy, PolicyError, FailureLadder, record_failure, record_success, open_slot_count,
  fleet_admission_is_paused,
}
use ez_gh_actions.FailureLadder.Storage.{LoadError}
use ez_gh_actions.BtreeMap.Slots.{contains}
use ez_gh_actions.Pool.Memory.{AdmissionError, MemoryPause}
use ez_gh_actions.Pool.Slots.{SlotAssignments, SlotError, next_slot_excluding}

-- `config.rs`'s table, from which the policy is made
pub record FailureLadderConfig : Type 0 where
  pub slot_failure_threshold : ℕ
  pub slot_failure_window_secs : ℕ
  pub slot_cooldown_secs : ℕ
  pub fleet_open_slot_threshold : ℕ
  pub fleet_cooldown_secs : ℕ

unfoldable pub failure_ladder_policy : FailureLadderConfig → ℕ → FailureLadderPolicy
failure_ladder_policy cfg count = record {
  slot_failure_threshold = cfg.slot_failure_threshold;
  slot_window_secs = cfg.slot_failure_window_secs;
  slot_cooldown_secs = cfg.slot_cooldown_secs;
  fleet_open_slots_threshold = min cfg.fleet_open_slot_threshold (max count 1);
  fleet_cooldown_secs = cfg.fleet_cooldown_secs;
}

-- how one start ends; a preflight refusal is `AdmissionPreflightError`
pub data StartResult : Type 0 where
  runner_started : Text → StartResult
  preflight_refused start_failed : Text → StartResult

-- one constructor for each message of `admission_paused_reason`, with the values in it
pub data PauseReason : Type 0 where
  persistence_failed_before preflight_not_persisted : PauseReason
  ladder_unreadable : LoadError → PauseReason
  fleet_circuit_open : ℕ → PauseReason
  native_admission_paused : AdmissionError → PauseReason
  memory_permits : MemoryPause → PauseReason
  circuits_cooling : ℕ → PauseReason
  recovery_not_persisted failure_not_persisted : PauseReason
  preflight_refused_refill : ℕ → Text → PauseReason
  fleet_circuit_opened : ℕ → PauseReason

-- What lies outside the loop, by the number of the attempt: the shutdown flag, the quarantine, the
-- slot file's reads and writes, the starter, and whether the ledger can be persisted. `clock n` is
-- the n-th reading of the clock; an attempt makes at most four.
pub record Surroundings : Type 0 where
  pub shutdown : ℕ → Bool
  pub quarantined : ℕ → List ℕ
  pub reads : ℕ → Bool
  pub writes : ℕ → Bool
  pub starter : ℕ → ℕ → SlotAssignments → StartResult × SlotAssignments
  pub persists : ℕ → Bool
  pub clock : ℕ → ℕ

-- the loop's variables, the slot file, and the latch `FAILURE_LADDER_PERSISTENCE_FAILED`
pub record Batch : Type 0 where
  pub ladder : FailureLadder
  pub slots : SlotAssignments
  pub failed_slots : List ℕ
  pub started : List Text
  pub attempted_slots : List ℕ
  pub start_failures : ℕ
  pub admission_paused_reason : Option PauseReason
  pub last_err : Option SlotError
  pub persistence_failed : Bool

-- `HashSet::insert`
abbrev pub insert : ℕ → List ℕ → List ℕ
insert x set = if contains set x then set else x ∷ set

-- how one round of the loop ends; `abort` is the `?` of `record_failure`
pub data Round : Type 0 where
  continue stop : Batch → Round
  abort : PolicyError → Batch → Round

unfoldable pub after_success : Surroundings → ℕ → ℕ → Text → Batch → Round
after_success env k slot name s =
    let s' = record s {
      started = s.started ++ name ∷ [];
      ladder = (record_success slot (env.clock (4 * k + 1)) s.ladder).1;
    } in
    if env.persists k
    then continue s'
    else stop (record s' {
      persistence_failed = true;
      admission_paused_reason = some recovery_not_persisted;
    })

unfoldable pub after_failure : FailureLadderPolicy → Surroundings → ℕ → ℕ → Batch → Round
after_failure policy env k slot s =
    let s' = record s {
      failed_slots = insert slot s.failed_slots;
      start_failures = s.start_failures + 1;
    } in
    elim (record_failure policy slot (env.clock (4 * k + 1)) s.ladder) [
      | err e ↦ abort e s'
      | ok (transition, ladder) ↦
          if not (env.persists k)
          then stop (record s' {
            ladder = ladder;
            persistence_failed = true;
            admission_paused_reason = some failure_not_persisted;
          })
          else if fleet_admission_is_paused ladder (env.clock (4 * k + 2))
          then stop (record s' {
            ladder = ladder;
            admission_paused_reason =
                some (fleet_circuit_opened (open_slot_count ladder (env.clock (4 * k + 3))));
          })
          else continue (record s' { ladder = ladder })
    ]

unfoldable pub after_start :
    FailureLadderPolicy → Surroundings → ℕ → ℕ → StartResult → Batch → Round
after_start policy env k slot (runner_started name) s = after_success env k slot name s
after_start policy env k slot (preflight_refused e) s = stop (record s {
  start_failures = s.start_failures + 1;
  admission_paused_reason = some (preflight_refused_refill slot e);
})
after_start policy env k slot (start_failed e) s = after_failure policy env k slot s

unfoldable pub no_slot : Surroundings → ℕ → Batch → Batch
no_slot env k s =
    if ltb 0 (open_slot_count s.ladder (env.clock (4 * k + 1)))
    then record s {
      admission_paused_reason =
          some (circuits_cooling (open_slot_count s.ladder (env.clock (4 * k + 2))));
    }
    else s

-- the round after the allocation's result
unfoldable pub after_allocation :
    FailureLadderPolicy → Surroundings → ℕ → Result SlotError (Option ℕ) → Batch → Round
after_allocation policy env k (err e) s =
    stop (record s { start_failures = s.start_failures + 1; last_err = some e })
after_allocation policy env k (ok none) s = stop (no_slot env k s)
after_allocation policy env k (ok (some slot)) s =
    let (result, slots) = env.starter k slot s.slots in
    after_start policy env k slot result
      (record s { attempted_slots = insert slot s.attempted_slots; slots = slots })

unfoldable pub round : FailureLadderPolicy → ℕ → Surroundings → ℕ → Batch → Round
round policy count env k s =
    if env.shutdown k
    then stop s
    else (let (result, slots) =
          next_slot_excluding count s.failed_slots (env.quarantined k) (env.clock (4 * k))
            (env.reads k) (env.writes k) s.slots in
        after_allocation policy env k result (record s { slots = slots }))
