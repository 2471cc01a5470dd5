-- ===== src/FailureLadder/Circuit.antt =====
-- One slot's circuit under the operations of src/failure_ladder.rs: what opens and closes it.
use ez_gh_actions.Base.{
  ℕ, suc, ◌+◌, ◌-◌, ◌≤◌, ◌<◌, ◌≡◌, ◌≢◌, refl, ◌∙◌, Bool, false, ◌||◌, Option, none, some, [], ◌∷◌,
  arith, leb, if◌then◌else◌, is_some_and, length, length-append, retain, map_option, ◌==◌, ==_refl,
  unwrap_or, u64_max, Bool-cases, inl, inr,
}
use ez_gh_actions.Base.Decimal.{to_string, text_eq-to_string}
use ez_gh_actions.Base.Results.{Result-cases, ok}
use ez_gh_actions.BtreeMap
use ez_gh_actions.BtreeMap.{get-insert, get-remove, get-map_values}
use ez_gh_actions.FailureLadder.{
  FailureLadderPolicy, SlotFailureState, FailureLadder, FailureLadderTransition, validate, is_open,
  slot_is_open, expire, expire_slot, settle_failure, record_failure, record_success, slot_state,
  trips, push_failure, fail_slot, default_slot, open_circuit,
}

-- Every threshold and duration is positive.
pub record IsValidPolicy (p : FailureLadderPolicy) : Type 0 where
  pub slot_failure_threshold : 0 < p.slot_failure_threshold
  pub slot_window_secs : 0 < p.slot_window_secs
  pub slot_cooldown_secs : 0 < p.slot_cooldown_secs
  pub fleet_open_slots_threshold : 0 < p.fleet_open_slots_threshold
  pub fleet_cooldown_secs : 0 < p.fleet_cooldown_secs

pub validate-IsValidPolicy : (p : FailureLadderPolicy) → validate p ≡ ok tt → IsValidPolicy p
unfolding validate
validate-IsValidPolicy p h = ground arith

pub IsValidPolicy-validate : (p : FailureLadderPolicy) → IsValidPolicy p → validate p ≡ ok tt
unfolding validate
IsValidPolicy-validate p h = ground arith

-- A recorded failure is one that passed `validate`.
pub record_failure-inv :
    (p : FailureLadderPolicy) (slot now : ℕ) (l : FailureLadder)
    {r : FailureLadderTransition × FailureLadder}
    → record_failure p slot now l ≡ ok r
    → IsValidPolicy p × (settle_failure p slot now (expire now l) ≡ r)
unfolding record_failure
record_failure-inv p slot now l h = elim (Result-cases (validate p)) [
  | inl (_, e) ↦ (validate-IsValidPolicy p e, ground arith)
  | inr (x, e) ↦ absurd (ground arith)
]

is_open-expire_slot :
    (now t : ℕ) (s : SlotFailureState) → now ≤ t → is_open (expire_slot now s) t ≡ is_open s t
unfolding is_open expire_slot
is_open-expire_slot now t s h = ground arith

-- what an entry of the map says of its slot's circuit
abbrev pub entry_is_open : Option SlotFailureState → ℕ → Bool
entry_is_open o t = is_some_and o (λ s. is_open s t)

entry_is_open-expire :
    (now t : ℕ) (o : Option SlotFailureState)
    → now ≤ t
    → entry_is_open (map_option (expire_slot now) o) t ≡ entry_is_open o t
entry_is_open-expire now t none h = refl
entry_is_open-expire now t (some s) h = is_open-expire_slot now t s h

-- Clearing the elapsed deadlines changes no circuit, then or later.
pub slot_is_open-expire :
    (now t j : ℕ) (l : FailureLadder)
    → now ≤ t
    → slot_is_open (expire now l).1 j t ≡ slot_is_open l j t
unfolding slot_is_open expire
slot_is_open-expire now t j l h =
    rw get-map_values (entry_is_open-expire now t (BtreeMap.get (to_string j) l.slots) h)

module _ (p : FailureLadderPolicy) (slot now : ℕ) where
  pub settle_failure_slots :
      (t : FailureLadderTransition) (l : FailureLadder)
      → (settle_failure p slot now (t, l)).1.slots
        ≡ BtreeMap.insert (to_string slot) (fail_slot p now (slot_state l slot)) l.slots
  unfolding settle_failure
  settle_failure_slots t l = ground arith

  -- what the settled ladder holds for each slot
  pub get-settle_failure :
      (l : FailureLadder) (j : ℕ)
      → BtreeMap.get (to_string j) (settle_failure p slot now (expire now l)).1.slots ≡ (
          if slot == j
          then some (fail_slot p now (slot_state (expire now l).1 slot))
          else BtreeMap.get (to_string j) (expire now l).1.slots)
  get-settle_failure l j =
      rw (settle_failure_slots (expire now l).0 (expire now l).1)
        (rw get-insert (rw text_eq-to_string refl))

  -- A failure of one slot changes no sibling's circuit, then or later.
  pub record_failure-sibling :
      (l : FailureLadder) (j t : ℕ) {r : FailureLadderTransition × FailureLadder}
      → record_failure p slot now l ≡ ok r
      → slot ≢ j
      → now ≤ t
      → slot_is_open r.1 j t ≡ slot_is_open l j t
  record_failure-sibling l j t {r} h ne le =
      let run = (record_failure-inv p slot now l h).1 in
      let other : slot_is_open r.1 j t ≡ slot_is_open (expire now l).1 j t =
        unfold slot_is_open in rw (← run) (rw get-settle_failure (ground arith)) in
      other ∙ slot_is_open-expire now t j l le

-- the earlier failures of the slot that still lie in the rolling window
pub recent_failures : FailureLadderPolicy → ℕ → ℕ → FailureLadder → ℕ
recent_failures p slot now l =
    length
      (retain (λ past. leb (now - past) p.slot_window_secs) (slot_state l slot).failure_epoch_secs)

fail_slot_opens :
    (p : FailureLadderPolicy) (now : ℕ) (s : SlotFailureState)
    → now < u64_max
    → 0 < p.slot_cooldown_secs
    → is_open (fail_slot p now s) now ≡ (
        is_open s now
        || leb p.slot_failure_threshold (
            suc
              (length (retain (λ past. leb (now - past) p.slot_window_secs) s.failure_epoch_secs))))
unfolding fail_slot is_open push_failure trips open_circuit
fail_slot_opens p now s h c = ground (
  arith,
  length-append (retain (λ past. leb (now - past) p.slot_window_secs) s.failure_epoch_secs)
      (now ∷ []),
)

pub is_open-slot_state :
    (l : FailureLadder) (slot t : ℕ) → is_open (slot_state l slot) t ≡ slot_is_open l slot t
unfolding slot_is_open is_open
is_open-slot_state l slot t = ground arith

failures-option :
    (now : ℕ) (o : Option SlotFailureState)
    → (unwrap_or (map_option (expire_slot now) o) default_slot).failure_epoch_secs
      ≡ (unwrap_or o default_slot).failure_epoch_secs
unfolding expire_slot
failures-option now o = ground arith

failures-expire :
    (now slot : ℕ) (l : FailureLadder)
    → (slot_state (expire now l).1 slot).failure_epoch_secs ≡ (slot_state l slot).failure_epoch_secs
unfolding expire
failures-expire now slot l =
    rw get-map_values (failures-option now (BtreeMap.get (to_string slot) l.slots))

-- After a failure the slot's circuit is open exactly if it was open already, or the failures inside
-- the window, the new one included, reach the threshold.
pub record_failure_opens :
    (p : FailureLadderPolicy) (slot now : ℕ) (l : FailureLadder)
    {r : FailureLadderTransition × FailureLadder}
    → now < u64_max
    → record_failure p slot now l ≡ ok r
    → slot_is_open r.1 slot now
      ≡ (slot_is_open l slot now || leb p.slot_failure_threshold (recent_failures p slot now l + 1))
unfolding recent_failures
record_failure_opens p slot now l {r} lt h =
    let (valid, run) = record_failure-inv p slot now l h in
    let own : slot_is_open r.1 slot now
        ≡ is_open (fail_slot p now (slot_state (expire now l).1 slot)) now =
      unfold slot_is_open in rw (← run) (rw get-settle_failure (rw ==_refl refl)) in
    ground (
      arith,
      own,
      fail_slot_opens p now (slot_state (expire now l).1 slot),
      valid.slot_cooldown_secs,
      is_open-slot_state (expire now l).1 slot now,
      slot_is_open-expire now now slot l,
      failures-expire now slot l,
    )

get-record_success :
    (slot now j : ℕ) (l : FailureLadder)
    → BtreeMap.get (to_string j) (record_success slot now l).1.slots
      ≡ (if slot == j then none else BtreeMap.get (to_string j) (expire now l).1.slots)
unfolding record_success
get-record_success slot now j l = rw get-remove (rw text_eq-to_string refl)

-- A success closes the slot's circuit and forgets its failures; no sibling's circuit changes.
pub record_success_closes :
    (slot now j t : ℕ) (l : FailureLadder)
    → now ≤ t
    → (slot_is_open (record_success slot now l).1 j t
        ≡ (if slot == j then false else slot_is_open l j t))
      × (slot_state (record_success slot now l).1 slot ≡ default_slot)
record_success_closes slot now j t l h = (
  unfold slot_is_open in
      rw get-record_success (elim (Bool-cases (slot == j)) [
        | inl e ↦ rw e
        | inr e ↦ rw e (slot_is_open-expire now t j l h)
      ]),
  rw get-record_success (rw ==_refl refl),
)
