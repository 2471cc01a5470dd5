-- ===== src/Pool/Refill/Ledger.antt =====
-- A batch of src/docker_backend.rs uses the ledger as its run relation demands.
use ez_gh_actions.Base.{
  ℕ, ◌+◌, ◌*◌, ◌≤◌, ◌≡◌, refl, inl, inr, true, false, Option, none, some, arith, ==_iff, Bool-cases,
  ◌==◌, u32_max, ltb, Text,
}
use ez_gh_actions.Base.Results.{Result, ok, err, Result-cases}
use ez_gh_actions.BtreeMap.Slots.{contains}
use ez_gh_actions.FailureLadder.{
  FailureLadderPolicy, PolicyError, FailureLadder, FailureLadderTransition, slot_is_open, is_open,
  open_slot_count, excluded_slots, record_failure, record_success,
}
use ez_gh_actions.FailureLadder.Circuit.{record_failure-sibling, record_success_closes}
use ez_gh_actions.FailureLadder.Ledger.{excluded_slots_lem}
use ez_gh_actions.FailureLadder.Admission.{Run, wait, failed, succeeded, Run-IsWellFormed}
use ez_gh_actions.Pool.Slots.{SlotError, is_free, next_slot_excluding}
use ez_gh_actions.Pool.Slots.Allocation.{next_slot_excluding-some}
use ez_gh_actions.Pool.Attempt.{
  StartResult, runner_started, preflight_refused, start_failed, PauseReason, Surroundings, Batch,
  after_success, after_failure, after_start, no_slot, after_allocation, round, insert,
}
use ez_gh_actions.Pool.Refill.Induction.{batch_of, run_batch-Reaches}
use ez_gh_actions.Pool.Refill.Exclusion.{contains-insert}
use ez_gh_actions.Pool.Refill.{run_batch, Start, first_batch}

slot_is_open_before :
    (now t j : ℕ) (l : FailureLadder)
    → now ≤ t
    → slot_is_open l j t ≡ true
    → slot_is_open l j now ≡ true
unfolding slot_is_open is_open
slot_is_open_before now t j l le h = ground (arith, h)

module _ (policy : FailureLadderPolicy) (count : ℕ) (env : Surroundings)
    (monotone : (m n : ℕ) → m ≤ n → env.clock m ≤ env.clock n) (fits : count ≤ u32_max) where
  -- the ladder's run up to `now`; every circuit open from then on is in `failed_slots`
  record IsTrackedAt (now : ℕ) (s : Batch) : Type 0 where
    run : Run policy now s.ladder
    covered :
        (j t : ℕ) → now ≤ t → slot_is_open s.ladder j t ≡ true → contains s.failed_slots j ≡ true

  abbrev IsTracked : ℕ → Batch → Type 0
  IsTracked k s = (now : ℕ) × (now ≤ env.clock (4 * k)) × IsTrackedAt now s

  wait-IsTrackedAt :
      {now : ℕ} {s : Batch} (later : ℕ) → now ≤ later → IsTrackedAt now s → IsTrackedAt later s
  wait-IsTrackedAt later le i = record {
    run = wait later i.run le;
    covered = λ j t h open_then. i.covered j t (omega arith) open_then;
  }

  after_success-ladder :
      (k slot : ℕ) (name : Text) (s : Batch)
      → ((batch_of (after_success env k slot name s)).ladder
          ≡ (record_success slot (env.clock (4 * k + 1)) s.ladder).1)
        × ((batch_of (after_success env k slot name s)).failed_slots ≡ s.failed_slots)
  unfolding after_success
  after_success-ladder k slot name s = (ground arith, ground arith)

  after_failure-ladder :
      (k slot : ℕ) (s : Batch) (r : FailureLadderTransition × FailureLadder)
      → record_failure policy slot (env.clock (4 * k + 1)) s.ladder ≡ ok r
      → ((batch_of (after_failure policy env k slot s)).ladder ≡ r.1)
        × ((batch_of (after_failure policy env k slot s)).failed_slots ≡ insert slot s.failed_slots)
  unfolding after_failure
  after_failure-ladder k slot s r h = (ground (arith, h), ground (arith, h))

  after_failure-abort :
      (k slot : ℕ) (s : Batch) (e : PolicyError)
      → record_failure policy slot (env.clock (4 * k + 1)) s.ladder ≡ err e
      → ((batch_of (after_failure policy env k slot s)).ladder ≡ s.ladder)
        × ((batch_of (after_failure policy env k slot s)).failed_slots ≡ insert slot s.failed_slots)
  unfolding after_failure
  after_failure-abort k slot s e h = (ground (arith, h), ground (arith, h))

  success-IsTrackedAt :
      (now slot : ℕ) (s s' : Batch)
      → s'.ladder ≡ (record_success slot now s.ladder).1
      → s'.failed_slots ≡ s.failed_slots
      → slot ≤ u32_max
      → IsTrackedAt now s
      → IsTrackedAt now s'
  success-IsTrackedAt now slot s s' l f le i = record {
    run = rw l (succeeded slot i.run le);
    covered = λ j t h e.
        ground (arith, f, e, l, i.covered j t h, (record_success_closes slot now j t s.ladder h).0);
  }

  failure-IsTrackedAt :
      (now slot : ℕ) (s s' : Batch) (r : FailureLadderTransition × FailureLadder)
      → record_failure policy slot now s.ladder ≡ ok r
      → s'.ladder ≡ r.1
      → s'.failed_slots ≡ insert slot s.failed_slots
      → slot ≤ u32_max
      → contains s.failed_slots slot ≡ false
      → IsTrackedAt now s
      → IsTrackedAt now s'
  failure-IsTrackedAt now slot s s' r h l f le new i = record {
    run = rw l (failed slot r i.run le (ground (arith, new, i.covered slot now (omega arith))) h);
    covered = λ j t later e.
        rw (f, contains-insert slot j s.failed_slots)
          (elim (Bool-cases (slot == j)) [
            | inl q ↦ rw q refl
            | inr q ↦ rw q (
                i.covered j t later (
                  ground (
                    arith,
                    l,
                    e,
                    record_failure-sibling policy slot now s.ladder j t {r = r} h
                        (λ same. ground (arith, ==_iff slot j)) later,
                  )))
          ]);
  }

  after_start-IsTrackedAt :
      (k slot : ℕ) (result : StartResult) (s : Batch)
      → slot ≤ u32_max
      → contains s.failed_slots slot ≡ false
      → IsTrackedAt (env.clock (4 * k + 1)) s
      → IsTrackedAt (env.clock (4 * k + 1)) (batch_of (after_start policy env k slot result s))
  unfolding after_start
  after_start-IsTrackedAt k slot (runner_started name) s le new i =
      let (l, f) = after_success-ladder k slot name s in
      success-IsTrackedAt (env.clock (4 * k + 1)) slot s
        (batch_of (after_success env k slot name s)) l f le i
  after_start-IsTrackedAt k slot (preflight_refused e) s le new i = record {
    run = i.run;
    covered = i.covered;
  }
  after_start-IsTrackedAt k slot (start_failed e) s le new i =
      elim (Result-cases (record_failure policy slot (env.clock (4 * k + 1)) s.ladder)) [
        | inl (r, recorded) ↦
            let (l, f) = after_failure-ladder k slot s r recorded in
            failure-IsTrackedAt (env.clock (4 * k + 1)) slot s
              (batch_of (after_failure policy env k slot s)) r recorded l f le new i
        | inr (x, invalid) ↦
            let (l, f) = after_failure-abort k slot s x invalid in
            record {
              run = rw l i.run;
              covered = λ j t later open_then. ground (
                arith,
                f,
                contains-insert slot j s.failed_slots,
                i.covered j t later (rw (← l) open_then),
              );
            }
      ]

  after_allocation-IsTrackedAt :
      (k : ℕ) (r : Result SlotError (Option ℕ)) (s : Batch)
      → ((slot : ℕ)
          → r ≡ ok (some slot)
          → (slot ≤ u32_max) × (contains s.failed_slots slot ≡ false))
      → IsTrackedAt (env.clock (4 * k + 1)) s
      → IsTrackedAt (env.clock (4 * k + 1)) (batch_of (after_allocation policy env k r s))
  unfolding after_allocation no_slot
  after_allocation-IsTrackedAt k (err e) s chosen i = record { run = i.run; covered = i.covered }
  after_allocation-IsTrackedAt k (ok none) s chosen i =
      elim (Bool-cases (ltb 0 (open_slot_count s.ladder (env.clock (4 * k + 1))))) [
        | inl e ↦ rw e (record { run = i.run; covered = i.covered })
        | inr e ↦ rw e (record { run = i.run; covered = i.covered })
      ]
  after_allocation-IsTrackedAt k (ok (some slot)) s chosen i =
      let (result, slots) = env.starter k slot s.slots in
      let (le, new) = chosen slot refl in
      after_start-IsTrackedAt k slot result
        (record s { attempted_slots = insert slot s.attempted_slots; slots = slots }) le new
        (record { run = i.run; covered = i.covered })

  round-IsTracked :
      (k : ℕ) (s : Batch)
      → IsTracked k s
      → IsTracked (k + 1) (batch_of (round policy count env k s))
  unfolding round is_free
  round-IsTracked k s (now, le, i) =
      let (result, slots) =
        next_slot_excluding count s.failed_slots (env.quarantined k) (env.clock (4 * k))
          (env.reads k) (env.writes k) s.slots in
      let i' =
        wait-IsTrackedAt {s = s} (env.clock (4 * k + 1))
          (omega (arith, monotone (4 * k) (4 * k + 1))) i in
      let tracked =
        after_allocation-IsTrackedAt k result (record s { slots = slots })
          (λ slot h.
            (let (low, high, free) =
                next_slot_excluding-some count s.failed_slots (env.quarantined k)
                  (env.clock (4 * k)) (env.reads k) (env.writes k) s.slots slot h in
              (omega arith, ground (arith, free))))
          (record { run = i'.run; covered = i'.covered }) in
      elim (Bool-cases (env.shutdown k)) [
        | inl e ↦ rw e (
          now,
          omega (arith, monotone (4 * k) (4 * (k + 1))),
          record { run = i.run; covered = i.covered },
        )
        | inr e ↦
            rw e (env.clock (4 * k + 1), monotone (4 * k + 1) (4 * (k + 1)) (omega arith), tracked)
      ]

  -- Where the loaded ledger is one that a run reaches, and the clock never goes back, a batch
  -- only continues that run: the ledger it ends with is reached by a run too, whatever the
  -- starter, the quarantine and the files do.
  pub run_batch-Run :
      (start : Start) (l : FailureLadder) (paused : Option PauseReason) (slots : ℕ)
      → Run policy start.now l
      → start.now ≤ env.clock 0
      → (now : ℕ) × Run policy now
          (run_batch policy count env slots 0 (first_batch start l paused)).1.ladder
  run_batch-Run start l paused slots r le =
      let covered : (j t : ℕ)
          → start.now ≤ t
          → slot_is_open l j t ≡ true
          → contains (excluded_slots l start.now) j ≡ true =
        λ j t later open_then.
          rw ((excluded_slots_lem l j start.now (Run-IsWellFormed policy r)).0)
            (slot_is_open_before start.now t j l later open_then) in
      let (n, _, (now, _, i)) =
        run_batch-Reaches policy count env IsTracked round-IsTracked slots 0
          (first_batch start l paused) (start.now, le, record { run = r; covered = covered }) in
      (now, i.run)
