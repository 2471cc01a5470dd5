-- ===== src/Pool/Refill/Bounds.antt =====
-- A batch of src/docker_backend.rs makes no more starts than it was admitted, and none when closed.
use ez_gh_actions.Base.{
  map_option, ℕ, ◌+◌, ◌*◌, ◌≤◌, ◌≡◌, refl, ◌⊎◌, inl, inr, Bool, true, false, Option, none, some, [],
  ◌∷◌, arith, length, length-append, Bool-cases, Text,
}
use ez_gh_actions.Base.Results.{Result, ok, err, Result-cases}
use ez_gh_actions.FailureLadder.{
  FailureLadderPolicy, PolicyError, FailureLadder, fleet_admission_is_paused, open_slot_count,
}
use ez_gh_actions.FailureLadder.Storage.{LoadError}
use ez_gh_actions.Pool.Slots.{SlotError, next_slot_excluding}
use ez_gh_actions.Pool.Memory.{AdmissionError, MemoryPause, admission_batch}
use ez_gh_actions.Pool.Attempt.{
  StartResult, runner_started, preflight_refused, start_failed, PauseReason, Surroundings, Batch,
  after_success, after_failure, after_start, no_slot, after_allocation, round, insert,
  persistence_failed_before, preflight_not_persisted, ladder_unreadable, fleet_circuit_open,
  native_admission_paused, memory_permits,
}
use ez_gh_actions.Pool.Refill.Induction.{batch_of, run_batch-Reaches}
use ez_gh_actions.Pool.Refill.{
  run_batch, StartMissingOutcome, paused_outcome, batch_outcome, finish, Start, first_batch,
  start_loaded, start_missing_runners_with_starter,
}

-- starts and failures grow by one together, and so do the attempts
record Counts (s s' : Batch) (n : ℕ) : Type 0 where
  outcomes : length s'.started + s'.start_failures ≤ length s.started + s.start_failures + n
  attempts : length s'.attempted_slots ≤ length s.attempted_slots + n

after_success-Counts :
    (env : Surroundings) (k slot : ℕ) (name : Text) (s : Batch)
    → (length (batch_of (after_success env k slot name s)).started
          + (batch_of (after_success env k slot name s)).start_failures
        ≤ length s.started + s.start_failures + 1)
      × ((batch_of (after_success env k slot name s)).attempted_slots ≡ s.attempted_slots)
unfolding after_success
after_success-Counts env k slot name s = ground (arith, length-append s.started (name ∷ []))

after_failure-Counts :
    (policy : FailureLadderPolicy) (env : Surroundings) (k slot : ℕ) (s : Batch)
    → (length (batch_of (after_failure policy env k slot s)).started
          + (batch_of (after_failure policy env k slot s)).start_failures
        ≤ length s.started + s.start_failures + 1)
      × ((batch_of (after_failure policy env k slot s)).attempted_slots ≡ s.attempted_slots)
unfolding after_failure
after_failure-Counts policy env k slot s = ground arith

after_start-Counts :
    (policy : FailureLadderPolicy) (env : Surroundings) (k slot : ℕ) (result : StartResult)
    (s : Batch)
    → (length (batch_of (after_start policy env k slot result s)).started
          + (batch_of (after_start policy env k slot result s)).start_failures
        ≤ length s.started + s.start_failures + 1)
      × ((batch_of (after_start policy env k slot result s)).attempted_slots ≡ s.attempted_slots)
unfolding after_start
after_start-Counts policy env k slot (runner_started name) s =
    after_success-Counts env k slot name s
after_start-Counts policy env k slot (preflight_refused e) s = ground arith
after_start-Counts policy env k slot (start_failed e) s = after_failure-Counts policy env k slot s

after_allocation-Counts :
    (policy : FailureLadderPolicy) (env : Surroundings) (k : ℕ) (r : Result SlotError (Option ℕ))
    (s : Batch)
    → Counts s (batch_of (after_allocation policy env k r s)) 1
unfolding after_allocation no_slot
after_allocation-Counts policy env k (err e) s = record {
  outcomes = omega arith;
  attempts = omega arith;
}
after_allocation-Counts policy env k (ok none) s = record {
  outcomes = ground arith;
  attempts = ground arith;
}
after_allocation-Counts policy env k (ok (some slot)) s =
    let (result, slots) = env.starter k slot s.slots in
    let counts =
      after_start-Counts policy env k slot result
        (record s { attempted_slots = insert slot s.attempted_slots; slots = slots }) in
    record { outcomes = counts.0; attempts = ground (arith, counts.1) }

round-Counts :
    (policy : FailureLadderPolicy) (count : ℕ) (env : Surroundings) (k : ℕ) (s : Batch)
    → Counts s (batch_of (round policy count env k s)) 1
unfolding round
round-Counts policy count env k s =
    let (result, slots) =
      next_slot_excluding count s.failed_slots (env.quarantined k) (env.clock (4 * k)) (env.reads k)
        (env.writes k) s.slots in
    let counts = after_allocation-Counts policy env k result (record s { slots = slots }) in
    elim (Bool-cases (env.shutdown k)) [
      | inl e ↦ rw e (record { outcomes = omega arith; attempts = omega arith })
      | inr e ↦ rw e (record { outcomes = counts.outcomes; attempts = counts.attempts })
    ]

-- what a batch that began with nothing has done after so many rounds
record IsCounted (n : ℕ) (s : Batch) : Type 0 where
  outcomes : length s.started + s.start_failures ≤ n
  attempts : length s.attempted_slots ≤ n

run_batch-IsCounted :
    (policy : FailureLadderPolicy) (count : ℕ) (env : Surroundings) (left : ℕ) (s : Batch)
    → IsCounted 0 s
    → IsCounted left (run_batch policy count env left 0 s).1
run_batch-IsCounted policy count env left s i =
    let (n, le, j) =
      run_batch-Reaches policy count env IsCounted
        (λ k s i.
          (let c = round-Counts policy count env k s in
            record {
              outcomes = omega (arith, c.outcomes, i.outcomes);
              attempts = omega (arith, c.attempts, i.attempts);
            }))
        left 0 s i in
    record { outcomes = omega (arith, le, j.outcomes); attempts = omega (arith, le, j.attempts) }

finish-Counts :
    (b : Result PolicyError Unit × Batch) (n : ℕ) {outcome : StartMissingOutcome}
    → finish b ≡ ok outcome
    → IsCounted n b.1
    → (length outcome.attempted_slots ≤ n) × (length outcome.started + outcome.start_failures ≤ n)
unfolding finish batch_outcome
finish-Counts (err e, b) n h c = absurd (ground (arith, h))
finish-Counts (ok u, b) n {outcome} h c = ground (arith, h, c.outcomes, c.attempts)

start_loaded-Counts :
    (policy : FailureLadderPolicy) (count : ℕ) (env : Surroundings) (start : Start)
    (l : FailureLadder) (slots : ℕ) (paused : Option MemoryPause) {outcome : StartMissingOutcome}
    {latch : Bool}
    → admission_batch start.missing start.host ≡ ok (slots, paused)
    → start_loaded policy count env start l ≡ (ok outcome, latch)
    → (length outcome.attempted_slots ≤ slots)
      × (length outcome.started + outcome.start_failures ≤ slots)
unfolding start_loaded
start_loaded-Counts policy count env start l slots paused {outcome} {latch} admitted h =
    let bounds : finish (
            run_batch policy count env slots 0
              (first_batch start l (map_option memory_permits paused)))
          ≡ ok outcome
        → (length outcome.attempted_slots ≤ slots)
          × (length outcome.started + outcome.start_failures ≤ slots) =
      λ done.
        finish-Counts
          (run_batch policy count env slots 0
            (first_batch start l (map_option memory_permits paused)))
          slots done
          (run_batch-IsCounted policy count env slots
            (first_batch start l (map_option memory_permits paused))
            (record { outcomes = omega arith; attempts = omega arith })) in
    ground (arith, admitted, h, bounds)

-- A batch that was admitted `slots` starts makes at most so many attempts, and starts and failures
-- together are no more than that.
pub batch_bounded :
    (policy : FailureLadderPolicy) (count : ℕ) (env : Surroundings) (start : Start) (slots : ℕ)
    (paused : Option MemoryPause) {outcome : StartMissingOutcome} {latch : Bool}
    → admission_batch start.missing start.host ≡ ok (slots, paused)
    → start_missing_runners_with_starter policy count env start ≡ (ok outcome, latch)
    → (length outcome.attempted_slots ≤ slots)
      × (length outcome.started + outcome.start_failures ≤ slots)
unfolding start_missing_runners_with_starter
batch_bounded policy count env start slots paused {outcome} {latch} admitted h =
    elim (Bool-cases start.persistence_failed) [
      | inl e ↦ ground (arith, e, h)
      | inr latched ↦ elim (Result-cases start.loaded) [
        | inr (e, unreadable) ↦ ground (arith, latched, unreadable, h)
        | inl (l, loaded) ↦
            start_loaded-Counts policy count env start l slots paused {outcome = outcome}
              {latch = latch} admitted (ground (arith, latched, loaded, h))
      ]
    ]

-- Admission fails closed: with the latch set, an unreadable ledger, an open fleet circuit, a ledger
-- that cannot be persisted, or a refused native admission, no slot is attempted, nothing is
-- started or charged, and a reason is given.
pub closed_admission :
    (policy : FailureLadderPolicy) (count : ℕ) (env : Surroundings) (start : Start)
    → ((start.persistence_failed ≡ true)
        ⊎ ((e : LoadError) × (start.loaded ≡ err e))
        ⊎ ((l : FailureLadder) × (start.loaded ≡ ok l)
            × (fleet_admission_is_paused l start.now ≡ true))
        ⊎ (start.persists ≡ false)
        ⊎ ((e : AdmissionError) × (admission_batch start.missing start.host ≡ err e)))
    → (reason : PauseReason) × ((start_missing_runners_with_starter policy count env start).0
        ≡ ok (paused_outcome reason))
unfolding start_missing_runners_with_starter start_loaded
closed_admission policy count env start h = elim (Bool-cases start.persistence_failed) [
  | inl e ↦ (persistence_failed_before, rw e refl)
  | inr latch ↦ elim (Result-cases start.loaded) [
    | inr (e, unreadable) ↦ (ladder_unreadable e, rw (latch, unreadable) refl)
    | inl (l, loaded) ↦ elim (Bool-cases (fleet_admission_is_paused l start.now)) [
      | inl paused ↦
          (fleet_circuit_open (open_slot_count l start.now), rw (latch, loaded) (rw paused refl))
      | inr shut ↦ elim (Bool-cases start.persists) [
        | inr lost ↦ (preflight_not_persisted, rw (latch, loaded) (rw (shut, lost) refl))
        | inl kept ↦ elim (Result-cases (admission_batch start.missing start.host)) [
          | inr (e, refused) ↦
              (native_admission_paused e, rw (latch, loaded) (rw (shut, kept, refused) refl))
          | inl (a, granted) ↦ absurd (ground (arith, h))
        ]
      ]
    ]
  ]
]
