-- ===== src/FailureLadder/Ledger.antt =====
-- The map of src/failure_ladder.rs: every key is the decimal text of a slot, and each slot has one.
use ez_gh_actions.Base.{ℕ, ◌≤◌, ◌≡◌, u32_max, length}
use ez_gh_actions.Base.Results.{ok}
use ez_gh_actions.BtreeMap.Slots.{
  IsSlotMap, nil-IsSlotMap, insert-IsSlotMap, remove-IsSlotMap, map_values-IsSlotMap, contains,
  contains-slots_where, length-slots_where,
}
use ez_gh_actions.FailureLadder.{
  FailureLadderPolicy, FailureLadder, FailureLadderTransition, is_open, slot_is_open,
  excluded_slots, open_slot_count, expire, record_failure, record_success, empty,
}
use ez_gh_actions.FailureLadder.Circuit.{record_failure-inv, settle_failure_slots}

pub record IsWellFormed (l : FailureLadder) : Type 0 where
  pub slots : IsSlotMap l.slots

pub empty-IsWellFormed : IsWellFormed empty
empty-IsWellFormed = record { slots = nil-IsSlotMap }

expire-IsSlotMap :
    (now : ℕ) (l : FailureLadder) → IsSlotMap l.slots → IsSlotMap (expire now l).1.slots
unfolding expire
expire-IsSlotMap now l w = map_values-IsSlotMap _ l.slots w

-- Recording a failure of a slot keeps the ledger well formed.
pub record_failure-IsWellFormed :
    (p : FailureLadderPolicy) (slot now : ℕ) (l : FailureLadder)
    {r : FailureLadderTransition × FailureLadder}
    → slot ≤ u32_max
    → record_failure p slot now l ≡ ok r
    → IsWellFormed l
    → IsWellFormed r.1
record_failure-IsWellFormed p slot now l {r} le h w =
    let run = (record_failure-inv p slot now l h).1 in
    let (t, l') = expire now l in
    rw (← run) (record {
      slots =
          rw (settle_failure_slots p slot now t l')
            (insert-IsSlotMap slot _ l'.slots le (expire-IsSlotMap now l w.slots));
    })

pub record_success-IsWellFormed :
    (slot now : ℕ) (l : FailureLadder) → IsWellFormed l → IsWellFormed (record_success slot now l).1
unfolding record_success
record_success-IsWellFormed slot now l w = record {
  slots = remove-IsSlotMap slot (expire now l).1.slots (expire-IsSlotMap now l w.slots);
}

-- In a well-formed ledger the slots excluded from allocation are exactly those whose circuits are
-- open, and as many as `open_slot_count` says.
pub excluded_slots_lem :
    (l : FailureLadder) (slot now : ℕ)
    → IsWellFormed l
    → (contains (excluded_slots l now) slot ≡ slot_is_open l slot now)
      × (length (excluded_slots l now) ≡ open_slot_count l now)
unfolding excluded_slots slot_is_open open_slot_count
excluded_slots_lem l slot now w = (
  contains-slots_where (λ state. is_open state now) slot l.slots w.slots,
  length-slots_where (λ state. is_open state now) l.slots w.slots.keyed,
)
