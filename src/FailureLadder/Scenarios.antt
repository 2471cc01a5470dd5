-- ===== src/FailureLadder/Scenarios.antt =====
-- Tests and instances for src/failure_ladder.rs.
use ez_gh_actions.Base.{
  ℕ, ◌+◌, ◌≡◌, ◌⊎◌, refl, true, false, ◌||◌, Option, some, [], leb, arith, length, Text, text_eq,
}
use ez_gh_actions.Base.Decimal.{to_string}
use ez_gh_actions.Base.Results.{ok}
use ez_gh_actions.BtreeMap
use ez_gh_actions.BtreeMap.Slots.{contains}
use ez_gh_actions.FailureLadder.{
  FailureLadderTransition, FailureLadder, default_policy, validate, is_open, slot_is_open,
  fleet_admission_is_paused, excluded_slots, open_slot_count, expire, expire_slot, push_failure,
  trips, open_circuit, fail_slot, fleet_trips, settle_failure, record_failure, empty,
}
use ez_gh_actions.FailureLadder.Circuit.{recent_failures, record_failure_opens}
use ez_gh_actions.FailureLadder.Ledger.{empty-IsWellFormed, excluded_slots_lem}
use ez_gh_actions.FailureLadder.Admission.{Run, start, failed, Run-IsWellFormed, admission_recovers}
use ez_gh_actions.FailureLadder.Storage.{load, save, load-save, missing, sync_dir}

-- what a run of the ledger computes with
ladder_code : Unit {0}
unfolding record_failure validate slot_is_open settle_failure expire expire_slot fail_slot
    push_failure trips open_circuit is_open fleet_trips fleet_admission_is_paused open_slot_count
    BtreeMap.get BtreeMap.insert BtreeMap.map_values BtreeMap.values to_string text_eq
ladder_code = tt

-- the ledger after a failure under the default policy, which is valid
abbrev fail : ℕ → ℕ → FailureLadder → FailureLadderTransition × FailureLadder
fail slot now l = settle_failure default_policy slot now (expire now l)

abbrev twice : FailureLadder
twice = (fail 4 11 (fail 4 10 empty).1).1

opens_at_third :
    (slot_is_open twice 4 11 ≡ false)
    × (slot_is_open (fail 4 12 twice).1 4 911 ≡ true)
    × (slot_is_open (fail 4 12 twice).1 4 912 ≡ false)
unfolding ladder_code
opens_at_third = (refl, refl, refl)

record_failure_opens_example :
    slot_is_open (fail 4 12 twice).1 4 12
    ≡ (slot_is_open twice 4 12 || leb 3 (recent_failures default_policy 4 12 twice + 1))
unfolding record_failure validate
record_failure_opens_example =
    record_failure_opens default_policy 4 12 twice {r = fail 4 12 twice} (omega arith) refl

Run-fail-fail : Run default_policy 10 (fail 4 10 (fail 4 10 empty).1).1
unfolding ladder_code
Run-fail-fail =
    failed 4 (fail 4 10 (fail 4 10 empty).1)
      (failed 4 (fail 4 10 empty) (start 10) (omega arith) refl refl) (omega arith) refl refl

excluded_slots_lem_example :
    (contains (excluded_slots (fail 4 10 (fail 4 10 empty).1).1 10) 4
      ≡ slot_is_open (fail 4 10 (fail 4 10 empty).1).1 4 10)
    × (length (excluded_slots (fail 4 10 (fail 4 10 empty).1).1 10)
        ≡ open_slot_count (fail 4 10 (fail 4 10 empty).1).1 10)
excluded_slots_lem_example =
    excluded_slots_lem (fail 4 10 (fail 4 10 empty).1).1 4 10
      (Run-IsWellFormed default_policy Run-fail-fail)

admission_recovers_example :
    (slot_is_open (fail 4 10 (fail 4 10 empty).1).1 4 910 ≡ false)
    × (fleet_admission_is_paused (fail 4 10 (fail 4 10 empty).1).1 910 ≡ false)
admission_recovers_example =
    admission_recovers default_policy 4 910 (omega arith) Run-fail-fail (omega arith) (omega arith)

-- a stand-in for the crate's printer and parser, exact on the empty ledger
abbrev to_toml : FailureLadder → Text
to_toml l = []

abbrev from_toml : Text → Option FailureLadder
from_toml t = some empty

load-save_example :
    let (result, disk') =
      save to_toml from_toml (some sync_dir) [] empty (record { file = missing; tmp = missing }) in
    ((load to_toml from_toml disk'.file ≡ load to_toml from_toml missing)
      ⊎ (load to_toml from_toml disk'.file ≡ ok empty))
    × (result ≡ ok tt → load to_toml from_toml disk'.file ≡ ok empty)
load-save_example =
    load-save to_toml from_toml (some sync_dir) [] empty (record { file = missing; tmp = missing })
      refl empty-IsWellFormed
