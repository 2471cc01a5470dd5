-- ===== src/Pool/Slots.antt =====
-- `slot_assignments.toml` and its operations (src/docker_backend.rs): which slot holds which runner.
pub mod Allocation
use ez_gh_actions.Base.{
  ℕ, zero, suc, ◌+◌, ◌-◌, ◌<◌, Bool, true, false, not, ◌&&◌, ◌||◌, Option, none, some, List, [],
  ◌∷◌, ◌==◌, ltb, if◌then◌else◌, is_some, is_some_and, any, Text, text_eq,
}
use ez_gh_actions.Base.Decimal.{to_string}
use ez_gh_actions.Base.Results.{Result, ok, err}
use ez_gh_actions.BtreeMap
use ez_gh_actions.BtreeMap.{BtreeMap}
use ez_gh_actions.BtreeMap.Slots.{contains}

pub record SlotAssignments : Type 0 where
  pub assignments : BtreeMap Text
  pub registered_at : BtreeMap ℕ
  pub container_started_at : BtreeMap ℕ

abbrev pub no_assignments : SlotAssignments
no_assignments = record { assignments = []; registered_at = []; container_started_at = [] }

-- seconds
abbrev pub registration_grace_window : ℕ
registration_grace_window = 60

unfoldable pub slot_in_grace_window : SlotAssignments → Text → ℕ → Bool
slot_in_grace_window self slot now =
    is_some_and (BtreeMap.get slot self.registered_at)
      (λ at. ltb (now - at) registration_grace_window)

unfoldable pub empty_id_reservation_in_grace_window : SlotAssignments → Text → Text → ℕ → Bool
empty_id_reservation_in_grace_window self slot id_str now =
    if not (text_eq id_str [])
    then false
    else is_some_and (BtreeMap.get slot self.registered_at)
        (λ at. ltb (now - at) registration_grace_window)

unfoldable pub has_assignment : SlotAssignments → ℕ → Bool
has_assignment self slot = is_some (BtreeMap.get (to_string slot) self.assignments)

-- whether the loop of `next_slot_excluding` takes the slot
unfoldable pub is_free : List ℕ → List ℕ → SlotAssignments → ℕ → Bool
is_free excluded quarantined self slot =
    not (contains excluded slot || contains quarantined slot) && not (has_assignment self slot)

-- the loop over `slot..slot + left`
unfoldable pub first_free : List ℕ → List ℕ → SlotAssignments → ℕ → ℕ → Option ℕ
first_free excluded quarantined self zero slot = none
first_free excluded quarantined self (suc left) slot =
    let rest = first_free excluded quarantined self left (slot + 1) in
    if is_free excluded quarantined self slot then some slot else rest

unfoldable pub reserve : ℕ → ℕ → SlotAssignments → SlotAssignments
reserve slot now self = record {
  assignments = BtreeMap.insert (to_string slot) [] self.assignments;
  registered_at = BtreeMap.insert (to_string slot) now self.registered_at;
  container_started_at = BtreeMap.remove (to_string slot) self.container_started_at;
}

pub data SlotError : Type 0 where
  count_is_zero read_failed write_failed unassigned_slot runner_id_differs : SlotError

-- `quarantined` is what the quarantine file excludes, nothing where it cannot be read; `reads` and
-- `writes` say whether the slot file can be read and written. On a failed write it is as it was.
unfoldable pub next_slot_excluding :
    ℕ
    → List ℕ
    → List ℕ
    → ℕ
    → Bool
    → Bool
    → SlotAssignments
    → Result SlotError (Option ℕ) × SlotAssignments
next_slot_excluding count excluded quarantined now reads writes self =
    if count == 0
    then (err count_is_zero, self)
    else if not reads
    then (err read_failed, self)
    else elim (first_free excluded quarantined self count 1) [
      | none ↦ (ok none, self)
      | some slot ↦
          if writes then (ok (some slot), reserve slot now self) else (err write_failed, self)
    ]

-- a change of the slot file, with the errors of reading and writing it
abbrev pub update :
    Bool
    → Bool
    → (SlotAssignments → Result SlotError SlotAssignments)
    → SlotAssignments
    → Result SlotError Unit × SlotAssignments
update reads writes change self =
    if not reads then (err read_failed, self) else elim (change self) [
      | err e ↦ (err e, self)
      | ok changed ↦ if writes then (ok tt, changed) else (err write_failed, self)
    ]

unfoldable pub record_slot_runner_id_for :
    Bool → Bool → ℕ → ℕ → ℕ → SlotAssignments → Result SlotError Unit × SlotAssignments
record_slot_runner_id_for reads writes slot runner_id now self =
    update reads writes
      (λ self. ok (record {
        assignments = BtreeMap.insert (to_string slot) (to_string runner_id) self.assignments;
        registered_at = BtreeMap.insert (to_string slot) now self.registered_at;
        container_started_at = BtreeMap.remove (to_string slot) self.container_started_at;
      }))
      self

unfoldable pub mark_started : ℕ → ℕ → ℕ → SlotAssignments → Result SlotError SlotAssignments
mark_started slot expected now self = elim (BtreeMap.get (to_string slot) self.assignments) [
  | none ↦ err unassigned_slot
  | some runner_id ↦
      if not (text_eq runner_id (to_string expected))
      then err runner_id_differs
      else ok (record self {
        container_started_at = BtreeMap.insert (to_string slot) now self.container_started_at;
      })
]

unfoldable pub record_container_started_for :
    Bool → Bool → ℕ → ℕ → ℕ → SlotAssignments → Result SlotError Unit × SlotAssignments
record_container_started_for reads writes slot expected now self =
    update reads writes (mark_started slot expected now) self

unfoldable pub release_slot_for :
    Bool → Bool → ℕ → SlotAssignments → Result SlotError Unit × SlotAssignments
release_slot_for reads writes slot self =
    update reads writes
      (λ self. ok (record {
        assignments = BtreeMap.remove (to_string slot) self.assignments;
        registered_at = BtreeMap.remove (to_string slot) self.registered_at;
        container_started_at = BtreeMap.remove (to_string slot) self.container_started_at;
      }))
      self
