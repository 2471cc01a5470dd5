-- ===== src/Pool/Refill/Exclusion.antt =====
-- Which slots a batch of src/docker_backend.rs may attempt.
use ez_gh_actions.Base.{
  map_option, ℕ, ◌+◌, ◌*◌, ◌≤◌, ◌≡◌, refl, inl, inr, Bool, true, false, ◌||◌, Option, none, some,
  List, arith, ==_iff, Bool-cases, ◌==◌,
}
use ez_gh_actions.Base.Results.{Result, ok, err, Result-cases}
use ez_gh_actions.BtreeMap.Slots.{contains}
use ez_gh_actions.FailureLadder.{
  FailureLadderPolicy, PolicyError, FailureLadder, slot_is_open, excluded_slots,
}
use ez_gh_actions.FailureLadder.Ledger.{IsWellFormed, excluded_slots_lem}
use ez_gh_actions.Pool.Slots.{SlotError, is_free, next_slot_excluding}
use ez_gh_actions.Pool.Slots.Allocation.{next_slot_excluding-some}
use ez_gh_actions.Pool.Memory.{admission_batch}
use ez_gh_actions.Pool.Attempt.{memory_permits}
use ez_gh_actions.Pool.Attempt.{
  StartResult, runner_started, preflight_refused, start_failed, Surroundings, Batch, after_success,
  after_failure, after_start, no_slot, after_allocation, round, insert,
}
use ez_gh_actions.Pool.Refill.Induction.{batch_of, run_batch-Reaches}
use ez_gh_actions.Pool.Refill.{
  run_batch, StartMissingOutcome, batch_outcome, finish, Start, first_batch, start_loaded,
  start_missing_runners_with_starter,
}

pub contains-insert :
    (x j : ℕ) (set : List ℕ) → contains (insert x set) j ≡ (x == j || contains set j)
contains-insert x j set = elim (Bool-cases (contains set x)) [
  | inr e ↦ rw e refl
  | inl e ↦ elim (Bool-cases (x == j)) [
    | inl q ↦ rw (e, q) (rw (← (==_iff x j).0 q) e)
    | inr q ↦ rw (e, q) refl
  ]
]

-- A slot that a batch may attempt: in range, not excluded, and outside the quarantine at some attempt.
pub record IsPermitted (count : ℕ) (env : Surroundings) (excluded : List ℕ) (slot : ℕ)
    : Type 0 where
  pub low : 1 ≤ slot
  pub high : slot ≤ count
  pub admitted : contains excluded slot ≡ false
  pub healthy : (k : ℕ) × (contains (env.quarantined k) slot ≡ false)

module _ (policy : FailureLadderPolicy) (count : ℕ) (env : Surroundings) (excluded : List ℕ) where
  record IsGuarded (k : ℕ) (s : Batch) : Type 0 where
    attempted : (j : ℕ) → contains s.attempted_slots j ≡ true → IsPermitted count env excluded j
    kept : (j : ℕ) → contains excluded j ≡ true → contains s.failed_slots j ≡ true

  after_start-kept :
      (k slot : ℕ) (result : StartResult) (s : Batch)
      → ((batch_of (after_start policy env k slot result s)).attempted_slots ≡ s.attempted_slots)
        × ((j : ℕ)
            → contains s.failed_slots j ≡ true
            → contains (batch_of (after_start policy env k slot result s)).failed_slots j ≡ true)
  unfolding after_start after_success after_failure
  after_start-kept k slot (runner_started name) s = (ground arith, λ j h. ground (arith, h))
  after_start-kept k slot (preflight_refused e) s = (refl, λ j h. h)
  after_start-kept k slot (start_failed e) s =
      (ground arith, λ j h. ground (arith, h, contains-insert slot j s.failed_slots))

  after_allocation-IsGuarded :
      (k : ℕ) (r : Result SlotError (Option ℕ)) (s : Batch)
      → ((slot : ℕ) → r ≡ ok (some slot) → IsPermitted count env excluded slot)
      → IsGuarded k s
      → IsGuarded (k + 1) (batch_of (after_allocation policy env k r s))
  unfolding after_allocation no_slot
  after_allocation-IsGuarded k (err e) s fits i = record { attempted = i.attempted; kept = i.kept }
  after_allocation-IsGuarded k (ok none) s fits i = record {
    attempted = λ j h. i.attempted j (ground (arith, h));
    kept = λ j h. ground (arith, i.kept j h);
  }
  after_allocation-IsGuarded k (ok (some slot)) s fits i =
      let (result, slots) = env.starter k slot s.slots in
      let (same, kept) =
        after_start-kept k slot result
          (record s { attempted_slots = insert slot s.attempted_slots; slots = slots }) in
      record {
        attempted = λ j h. elim (Bool-cases (slot == j)) [
          | inl q ↦ rw (← (==_iff slot j).0 q) (fits slot refl)
          | inr q ↦
              i.attempted j (ground (arith, h, q, same, contains-insert slot j s.attempted_slots))
        ];
        kept = λ j h. kept j (i.kept j h);
      }

  round-IsGuarded :
      (k : ℕ) (s : Batch)
      → IsGuarded k s
      → IsGuarded (k + 1) (batch_of (round policy count env k s))
  unfolding round is_free
  round-IsGuarded k s i =
      let (result, slots) =
        next_slot_excluding count s.failed_slots (env.quarantined k) (env.clock (4 * k))
          (env.reads k) (env.writes k) s.slots in
      let guarded =
        after_allocation-IsGuarded k result (record s { slots = slots })
          (λ slot h.
            (let (low, high, free) =
                next_slot_excluding-some count s.failed_slots (env.quarantined k)
                  (env.clock (4 * k)) (env.reads k) (env.writes k) s.slots slot h in
              record {
                low = low;
                high = high;
                admitted = ground (arith, free, i.kept slot);
                healthy = (k, ground (arith, free));
              }))
          (record { attempted = i.attempted; kept = i.kept }) in
      elim (Bool-cases (env.shutdown k)) [
        | inl e ↦ rw e (record { attempted = i.attempted; kept = i.kept })
        | inr e ↦ rw e guarded
      ]

  run_batch-IsPermitted :
      (left : ℕ) (s : Batch) (j : ℕ)
      → IsGuarded 0 s
      → contains (run_batch policy count env left 0 s).1.attempted_slots j ≡ true
      → IsPermitted count env excluded j
  run_batch-IsPermitted left s j i h =
      let (n, le, i') = run_batch-Reaches policy count env IsGuarded round-IsGuarded left 0 s i in
      i'.attempted j h

finish-attempted :
    (b : Result PolicyError Unit × Batch) (outcome : StartMissingOutcome)
    → finish b ≡ ok outcome
    → outcome.attempted_slots ≡ b.1.attempted_slots
unfolding finish batch_outcome
finish-attempted (err e, b) outcome h = ground (arith, h)
finish-attempted (ok u, b) outcome h = ground (arith, h)

start_loaded-IsPermitted :
    (policy : FailureLadderPolicy) (count : ℕ) (env : Surroundings) (start : Start)
    (l : FailureLadder) (slot : ℕ) {outcome : StartMissingOutcome} {latch : Bool}
    → start_loaded policy count env start l ≡ (ok outcome, latch)
    → contains outcome.attempted_slots slot ≡ true
    → IsPermitted count env (excluded_slots l start.now) slot
unfolding start_loaded
start_loaded-IsPermitted policy count env start l slot {outcome} {latch} h attempted =
    elim (Result-cases (admission_batch start.missing start.host)) [
      | inr (e, refused) ↦ absurd (ground (arith, refused, h, attempted))
      | inl ((slots, paused), granted) ↦
          let b =
            run_batch policy count env slots 0
              (first_batch start l (map_option memory_permits paused)) in
          run_batch-IsPermitted policy count env (excluded_slots l start.now) slots
            (first_batch start l (map_option memory_permits paused)) slot
            (record { attempted = λ j e. absurd (cc); kept = λ j e. e })
            (ground (arith, granted, h, attempted, finish-attempted b outcome))
    ]

-- With a well-formed ledger, a slot that the call attempts lies in 1..=count, has a closed circuit in
-- the loaded ledger, and was outside the quarantine at some attempt.
pub attempts_permitted :
    (policy : FailureLadderPolicy) (count : ℕ) (env : Surroundings) (start : Start)
    (l : FailureLadder) (slot : ℕ) {outcome : StartMissingOutcome} {latch : Bool}
    → start.loaded ≡ ok l
    → IsWellFormed l
    → start_missing_runners_with_starter policy count env start ≡ (ok outcome, latch)
    → contains outcome.attempted_slots slot ≡ true
    → (1 ≤ slot)
      × (slot ≤ count)
      × (slot_is_open l slot start.now ≡ false)
      × (k : ℕ) × (contains (env.quarantined k) slot ≡ false)
unfolding start_missing_runners_with_starter
attempts_permitted policy count env start l slot {outcome} {latch} loaded w h attempted =
    elim (Bool-cases start.persistence_failed) [
      | inl e ↦ absurd (ground (arith, e, h, attempted))
      | inr e ↦
          let p =
            start_loaded-IsPermitted policy count env start l slot {outcome = outcome}
              {latch = latch} (ground (arith, e, loaded, h)) attempted in
          (
            p.low,
            p.high,
            ground (arith, p.admitted, excluded_slots_lem l slot start.now w),
            p.healthy.0,
            p.healthy.1,
          )
    ]
