-- ===== src/FailureLadder/Admission.antt =====
-- The ledger of src/failure_ladder.rs under its caller: what holds after any run of events.
use ez_gh_actions.Base.{
  ℕ, ◌+◌, ◌≤◌, ◌<◌, ◌≡◌, refl, sym, ◌∙◌, false, arith, u32_max, Option-cases, inl, inr, length,
}
use ez_gh_actions.Base.Decimal.{to_string}
use ez_gh_actions.Base.Results.{ok}
use ez_gh_actions.BtreeMap
use ez_gh_actions.BtreeMap.{
  BtreeMap, AllValues, insert-AllEntries, remove-AllEntries, map_values-AllEntries, get-AllEntries,
  weaken-AllEntries,
}
use ez_gh_actions.FailureLadder.{
  FailureLadderPolicy, SlotFailureState, FailureLadder, FailureLadderTransition, is_open,
  slot_is_open, fleet_admission_is_paused, expire, expire_slot, fail_slot, push_failure, trips,
  open_circuit, record_failure, record_success, empty, slot_state, settle_failure,
}
use ez_gh_actions.FailureLadder.Circuit.{
  record_failure-inv, settle_failure_slots, slot_is_open-expire, is_open-slot_state,
}
use ez_gh_actions.FailureLadder.Fleet.{settle_failure-paused}
use ez_gh_actions.FailureLadder.Ledger.{
  IsWellFormed, empty-IsWellFormed, record_failure-IsWellFormed, record_success-IsWellFormed,
}

-- A run of the daemon: time passes, and a start that fails or succeeds is recorded. The allocator
-- offers no slot whose circuit is open, so a failure is recorded only for a closed one.
pub data Run (p : FailureLadderPolicy) : ℕ → FailureLadder → Type 0 where
  start : (now : ℕ) → Run p now empty
  wait : {now : ℕ} {l : FailureLadder} (later : ℕ) → Run p now l → now ≤ later → Run p later l
  failed :
      {now : ℕ} {l : FailureLadder} (slot : ℕ) (r : FailureLadderTransition × FailureLadder)
      → Run p now l
      → slot ≤ u32_max
      → slot_is_open l slot now ≡ false
      → record_failure p slot now l ≡ ok r
      → Run p now r.1
  succeeded :
      {now : ℕ} {l : FailureLadder} (slot : ℕ)
      → Run p now l
      → slot ≤ u32_max
      → Run p now (record_success slot now l).1

-- After any run the ledger is well formed.
pub Run-IsWellFormed :
    (p : FailureLadderPolicy) {now : ℕ} {l : FailureLadder} → Run p now l → IsWellFormed l
Run-IsWellFormed p (start now) = empty-IsWellFormed
Run-IsWellFormed p (wait later r h) = Run-IsWellFormed p r
Run-IsWellFormed p (failed {now} {l} slot res r le closed h) =
    record_failure-IsWellFormed p slot now l le h (Run-IsWellFormed p r)
Run-IsWellFormed p (succeeded {now} {l} slot r le) =
    record_success-IsWellFormed slot now l (Run-IsWellFormed p r)

-- a slot's entry under the policy: fewer failures than the threshold, and a finite deadline
pub record IsBoundedSlot (p : FailureLadderPolicy) (now : ℕ) (s : SlotFailureState) : Type 0 where
  pub failures : length s.failure_epoch_secs < p.slot_failure_threshold
  pub deadline : (t : ℕ) → now + p.slot_cooldown_secs ≤ t → is_open s t ≡ false

expire_slot-IsBoundedSlot :
    (p : FailureLadderPolicy) (now at : ℕ) (s : SlotFailureState)
    → IsBoundedSlot p now s
    → IsBoundedSlot p now (expire_slot at s)
unfolding expire_slot is_open
expire_slot-IsBoundedSlot p now at s b = record {
  failures = ground (arith, b.failures);
  deadline = λ t h. ground (arith, b.deadline t h);
}

fail_slot-IsBoundedSlot :
    (p : FailureLadderPolicy) (now : ℕ) (s : SlotFailureState)
    → 0 < p.slot_failure_threshold
    → is_open s now ≡ false
    → IsBoundedSlot p now s
    → IsBoundedSlot p now (fail_slot p now s)
unfolding fail_slot push_failure trips open_circuit is_open
fail_slot-IsBoundedSlot p now s pos closed b = record {
  failures = ground (arith, b.failures);
  deadline = λ t h. ground (arith, b.deadline t h);
}

later-IsBoundedSlot :
    (p : FailureLadderPolicy) (now later : ℕ) (s : SlotFailureState)
    → now ≤ later
    → IsBoundedSlot p now s
    → IsBoundedSlot p later s
later-IsBoundedSlot p now later s h b = record {
  failures = b.failures;
  deadline = λ t k. b.deadline t (omega arith);
}

pub record IsBounded (p : FailureLadderPolicy) (now : ℕ) (l : FailureLadder) : Type 0 where
  pub slots : AllValues (IsBoundedSlot p now) l.slots
  pub fleet : (t : ℕ) → now + p.fleet_cooldown_secs ≤ t → fleet_admission_is_paused l t ≡ false

expire-IsBounded :
    (p : FailureLadderPolicy) (now at : ℕ) (l : FailureLadder)
    → IsBounded p now l
    → IsBounded p now (expire at l).1
unfolding expire fleet_admission_is_paused
expire-IsBounded p now at l b = record {
  slots =
      map_values-AllEntries (λ _ s. IsBoundedSlot p now s) (λ _ s. IsBoundedSlot p now s)
        (expire_slot at) l.slots (λ k s. expire_slot-IsBoundedSlot p now at s) b.slots;
  fleet = λ t h. ground (arith, b.fleet t h);
}

slot_state-IsBoundedSlot :
    (p : FailureLadderPolicy) (now slot : ℕ) (l : FailureLadder)
    → 0 < p.slot_failure_threshold
    → AllValues (IsBoundedSlot p now) l.slots
    → IsBoundedSlot p now (slot_state l slot)
slot_state-IsBoundedSlot p now slot l pos a =
    elim (Option-cases (BtreeMap.get (to_string slot) l.slots)) [
      | inl e ↦ rw e (record { failures = pos; deadline = λ t h. unfold is_open in refl })
      | inr (s, e) ↦
          rw e (get-AllEntries (λ _ s. IsBoundedSlot p now s) (to_string slot) l.slots s a e)
    ]

settle_failure-IsBounded :
    (p : FailureLadderPolicy) (slot now : ℕ) (t : FailureLadderTransition) (l : FailureLadder)
    → 0 < p.slot_failure_threshold
    → slot_is_open l slot now ≡ false
    → IsBounded p now l
    → IsBounded p now (settle_failure p slot now (t, l)).1
settle_failure-IsBounded p slot now t l pos closed b = record {
  slots = rw (settle_failure_slots p slot now t l) (
      insert-AllEntries (λ _ s. IsBoundedSlot p now s) (to_string slot) _ l.slots
        (fail_slot-IsBoundedSlot p now (slot_state l slot) pos
          (is_open-slot_state l slot now ∙ closed)
          (slot_state-IsBoundedSlot p now slot l pos b.slots))
        b.slots);
  fleet = λ at h. ground (arith, b.fleet at h, settle_failure-paused p slot now t l at);
}

record_success-IsBounded :
    (p : FailureLadderPolicy) (slot now : ℕ) (l : FailureLadder)
    → IsBounded p now l
    → IsBounded p now (record_success slot now l).1
unfolding record_success expire fleet_admission_is_paused
record_success-IsBounded p slot now l b =
    let b' = expire-IsBounded p now now l b in
    record {
      slots =
          remove-AllEntries (λ _ s. IsBoundedSlot p now s) (to_string slot) (expire now l).1.slots
            b'.slots;
      fleet = b'.fleet;
    }

Run-IsBounded :
    (p : FailureLadderPolicy) {now : ℕ} {l : FailureLadder} → Run p now l → IsBounded p now l
Run-IsBounded p (start now) = record {
  slots = tt;
  fleet = λ t h. unfold fleet_admission_is_paused in refl;
}
Run-IsBounded p (wait {now} {l} later r h) =
    let b = Run-IsBounded p r in
    record {
      slots =
          weaken-AllEntries (λ _ s. IsBoundedSlot p now s) (λ _ s. IsBoundedSlot p later s) l.slots
            (λ k s. later-IsBoundedSlot p now later s h) b.slots;
      fleet = λ t k. b.fleet t (omega arith);
    }
Run-IsBounded p (failed {now} {l} slot res r le closed h) =
    let (valid, run) = record_failure-inv p slot now l h in
    rw (← run) (
      settle_failure-IsBounded p slot now (expire now l).0 (expire now l).1
        valid.slot_failure_threshold (slot_is_open-expire now now slot l (omega arith) ∙ closed)
        (expire-IsBounded p now now l (Run-IsBounded p r)))
Run-IsBounded p (succeeded {now} {l} slot r le) =
    record_success-IsBounded p slot now l (Run-IsBounded p r)

-- After any run no slot remembers as many failures as the threshold.
failures_below_threshold :
    (p : FailureLadderPolicy) {now : ℕ} {l : FailureLadder} (slot : ℕ)
    → 0 < p.slot_failure_threshold
    → Run p now l
    → length (slot_state l slot).failure_epoch_secs < p.slot_failure_threshold
failures_below_threshold p {now} {l} slot pos r =
    (slot_state-IsBoundedSlot p now slot l pos (Run-IsBounded p r).slots).failures

-- After any run, once both cooldowns have passed with no new event, admission is restored: no slot
-- is excluded and the fleet is not paused.
pub admission_recovers :
    (p : FailureLadderPolicy) {now : ℕ} {l : FailureLadder} (slot t : ℕ)
    → 0 < p.slot_failure_threshold
    → Run p now l
    → now + p.slot_cooldown_secs ≤ t
    → now + p.fleet_cooldown_secs ≤ t
    → (slot_is_open l slot t ≡ false) × (fleet_admission_is_paused l t ≡ false)
admission_recovers p {now} {l} slot t pos r hs hf =
    let b = Run-IsBounded p r in
    (
      sym (is_open-slot_state l slot t)
          ∙ (slot_state-IsBoundedSlot p now slot l pos b.slots).deadline t hs,
      b.fleet t hf,
    )
