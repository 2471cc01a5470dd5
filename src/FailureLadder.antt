-- ===== src/FailureLadder.antt =====
-- The persistent failure circuits of runner admission (src/failure_ladder.rs).
pub mod Circuit
pub mod Fleet
pub mod Ledger
pub mod Admission
pub mod Storage
mod Scenarios
use ez_gh_actions.Base.{
  ℕ, ◌+◌, ◌-◌, Bool, true, false, not, ◌&&◌, ◌||◌, Option, none, some, List, [], ◌∷◌, ◌++◌, ltb,
  leb, ◌==◌, if◌then◌else◌, is_some_and, unwrap_or, saturating_add, u32_max, length, any, retain,
  Text,
}
use ez_gh_actions.Base.Decimal.{to_string, parse_uint}
use ez_gh_actions.Base.Results.{Result, ok, err, ◌>>=◌, ◌>>◌, bail_if}
use ez_gh_actions.BtreeMap
use ez_gh_actions.BtreeMap.{BtreeMap}
use ez_gh_actions.BtreeMap.Slots.{slots_where}

pub record FailureLadderPolicy : Type 0 where
  pub slot_failure_threshold : ℕ
  pub slot_window_secs : ℕ
  pub slot_cooldown_secs : ℕ
  pub fleet_open_slots_threshold : ℕ
  pub fleet_cooldown_secs : ℕ

abbrev pub default_policy : FailureLadderPolicy
default_policy = record {
  slot_failure_threshold = 3;
  slot_window_secs = 600;
  slot_cooldown_secs = 900;
  fleet_open_slots_threshold = 3;
  fleet_cooldown_secs = 600;
}

-- one constructor for each message of `validate`
pub data PolicyError : Type 0 where
  zero_slot_failure_threshold zero_slot_window_secs zero_slot_cooldown_secs : PolicyError
  zero_fleet_open_slots_threshold zero_fleet_cooldown_secs : PolicyError

unfoldable pub validate : FailureLadderPolicy → Result PolicyError Unit
validate policy = do
  bail_if (policy.slot_failure_threshold == 0) zero_slot_failure_threshold
  bail_if (policy.slot_window_secs == 0) zero_slot_window_secs
  bail_if (policy.slot_cooldown_secs == 0) zero_slot_cooldown_secs
  bail_if (policy.fleet_open_slots_threshold == 0) zero_fleet_open_slots_threshold
  bail_if (policy.fleet_cooldown_secs == 0) zero_fleet_cooldown_secs
  ok tt

pub record SlotFailureState : Type 0 where
  pub failure_epoch_secs : List ℕ
  pub open_until_epoch_secs : Option ℕ

abbrev pub default_slot : SlotFailureState
default_slot = record { failure_epoch_secs = []; open_until_epoch_secs = none }

pub record FailureLadder : Type 0 where
  pub slots : BtreeMap SlotFailureState
  pub fleet_open_until_epoch_secs : Option ℕ

abbrev pub empty : FailureLadder
empty = record { slots = []; fleet_open_until_epoch_secs = none }

pub record FailureLadderTransition : Type 0 where
  pub slot : Option ℕ
  pub slot_failure_count : ℕ
  pub slot_opened : Bool
  pub slot_closed : Bool
  pub fleet_opened : Bool
  pub fleet_closed : Bool

abbrev pub no_transition : FailureLadderTransition
no_transition = record {
  slot = none;
  slot_failure_count = 0;
  slot_opened = false;
  slot_closed = false;
  fleet_opened = false;
  fleet_closed = false;
}

unfoldable pub is_open : SlotFailureState → ℕ → Bool
is_open self now = is_some_and self.open_until_epoch_secs (λ until. ltb now until)

unfoldable pub slot_is_open : FailureLadder → ℕ → ℕ → Bool
slot_is_open self slot now =
    is_some_and (BtreeMap.get (to_string slot) self.slots) (λ state. is_open state now)

unfoldable pub fleet_admission_is_paused : FailureLadder → ℕ → Bool
fleet_admission_is_paused self now =
    is_some_and self.fleet_open_until_epoch_secs (λ until. ltb now until)

unfoldable pub excluded_slots : FailureLadder → ℕ → List ℕ
excluded_slots self now = slots_where (λ state. is_open state now) self.slots

unfoldable pub open_slot_count : FailureLadder → ℕ → ℕ
open_slot_count self now = length (retain (λ state. is_open state now) (BtreeMap.values self.slots))

-- a deadline that has passed
abbrev pub elapsed : ℕ → Option ℕ → Bool
elapsed now deadline = is_some_and deadline (λ until. leb until now)

unfoldable pub expire_slot : ℕ → SlotFailureState → SlotFailureState
expire_slot now state =
    if elapsed now state.open_until_epoch_secs
    then record state { open_until_epoch_secs = none }
    else state

unfoldable pub expire : ℕ → FailureLadder → FailureLadderTransition × FailureLadder
expire now self = (
  record no_transition {
    slot_closed =
        any (λ state. elapsed now state.open_until_epoch_secs) (BtreeMap.values self.slots);
    fleet_closed = elapsed now self.fleet_open_until_epoch_secs;
  },
  record {
    slots = BtreeMap.map_values (expire_slot now) self.slots;
    fleet_open_until_epoch_secs =
        if elapsed now self.fleet_open_until_epoch_secs
        then none
        else self.fleet_open_until_epoch_secs;
  },
)

-- the failures inside the rolling window, and the new one
unfoldable pub push_failure : FailureLadderPolicy → ℕ → SlotFailureState → SlotFailureState
push_failure policy now state = record state {
  failure_epoch_secs =
      retain (λ past. leb (now - past) policy.slot_window_secs) state.failure_epoch_secs
      ++ now ∷ [];
}

unfoldable pub trips : FailureLadderPolicy → ℕ → SlotFailureState → Bool
trips policy now state =
    not (is_open state now) && leb policy.slot_failure_threshold (length state.failure_epoch_secs)

unfoldable pub open_circuit : FailureLadderPolicy → ℕ → SlotFailureState → SlotFailureState
open_circuit policy now state = record state {
  failure_epoch_secs = [];
  open_until_epoch_secs = some (saturating_add now policy.slot_cooldown_secs);
}

-- the slot's circuit after one more failure
unfoldable pub fail_slot : FailureLadderPolicy → ℕ → SlotFailureState → SlotFailureState
fail_slot policy now state =
    let pushed = push_failure policy now state in
    if trips policy now pushed then open_circuit policy now pushed else pushed

-- whether the fleet pause opens, once the slot's circuit has been settled
unfoldable pub fleet_trips : FailureLadderPolicy → Bool → ℕ → FailureLadder → Bool
fleet_trips policy slot_opened now self =
    slot_opened
    && (not (fleet_admission_is_paused self now)
        && leb policy.fleet_open_slots_threshold (open_slot_count self now))

abbrev pub slot_state : FailureLadder → ℕ → SlotFailureState
slot_state self slot = unwrap_or (BtreeMap.get (to_string slot) self.slots) default_slot

-- `record_failure` behind its `policy.validate()?` and `self.expire(now)`
unfoldable pub settle_failure :
    FailureLadderPolicy
    → ℕ
    → ℕ
    → FailureLadderTransition × FailureLadder
    → FailureLadderTransition × FailureLadder
settle_failure policy slot now (transition, self) =
    let state = slot_state self slot in
    let pushed = push_failure policy now state in
    let opened = trips policy now pushed in
    let self' = record self {
      slots = BtreeMap.insert (to_string slot) (fail_slot policy now state) self.slots;
    } in
    let paused = fleet_trips policy opened now self' in
    (
      record transition {
        slot = some slot;
        slot_failure_count = length pushed.failure_epoch_secs;
        slot_opened = opened;
        fleet_opened = paused;
      },
      if paused
          then record self' {
            fleet_open_until_epoch_secs = some (saturating_add now policy.fleet_cooldown_secs);
          }
          else self',
    )

unfoldable pub record_failure :
    FailureLadderPolicy
    → ℕ
    → ℕ
    → FailureLadder
    → Result PolicyError (FailureLadderTransition × FailureLadder)
record_failure policy slot now self =
    validate policy >> ok (settle_failure policy slot now (expire now self))

unfoldable pub record_success : ℕ → ℕ → FailureLadder → FailureLadderTransition × FailureLadder
record_success slot now self =
    let (transition, self') = expire now self in
    let old = BtreeMap.get (to_string slot) self'.slots in
    (
      record transition {
        slot = some slot;
        slot_closed = transition.slot_closed || is_some_and old (λ state. is_open state now);
      },
      record self' { slots = BtreeMap.remove (to_string slot) self'.slots },
    )
