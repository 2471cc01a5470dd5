-- ===== src/Pool/Scenarios.antt =====
-- Tests and instances for the runner pool of src/docker_backend.rs.
use ez_gh_actions.Base.{
  ℕ, ◌+◌, ◌≤◌, ◌<◌, ◌≡◌, ◌⊎◌, refl, inl, inr, true, false, ◌||◌, ◌==◌, none, some, [], ◌∷◌, arith,
  text, text_eq, if◌then◌else◌,
}
use ez_gh_actions.Base.Decimal.{to_string}
use ez_gh_actions.Base.Results.{ok, err}
use ez_gh_actions.BtreeMap
use ez_gh_actions.BtreeMap.Slots.{contains, slots_where}
use ez_gh_actions.FailureLadder.{
  default_policy, validate, is_open, slot_is_open, fleet_admission_is_paused, excluded_slots,
  open_slot_count, expire, expire_slot, push_failure, trips, open_circuit, fail_slot, fleet_trips,
  settle_failure, record_failure, record_success, empty,
}
use ez_gh_actions.FailureLadder.Ledger.{empty-IsWellFormed}
use ez_gh_actions.FailureLadder.Admission.{Run, start}
use ez_gh_actions.Pool.Memory.{
  NativeHost, admission_batch, lock_unavailable, limit_unreadable, listing_failed,
  inspection_failed,
}
use ez_gh_actions.Pool.Slots.{
  SlotAssignments, no_assignments, is_free, first_free, reserve, next_slot_excluding,
  has_assignment,
}
use ez_gh_actions.Pool.Slots.Allocation.{next_slot_excluding_lem}
use ez_gh_actions.Pool.Attempt.{
  StartResult, runner_started, start_failed, Surroundings, after_success, after_failure,
  after_start, no_slot, after_allocation, round, PauseReason,
}
use ez_gh_actions.Pool.Refill.{
  run_batch, StartMissingOutcome, batch_outcome, finish, Start, start_loaded,
  start_missing_runners_with_starter, paused_outcome, first_batch,
}
use ez_gh_actions.Pool.Refill.Bounds.{closed_admission}
use ez_gh_actions.Pool.Refill.Exclusion.{attempts_permitted}
use ez_gh_actions.Pool.Refill.Ledger.{run_batch-Run}

-- what a batch computes with
unfoldable pub pool_code : Unit {0}
unfolding record_failure record_success validate slot_is_open settle_failure expire expire_slot
    fail_slot push_failure trips open_circuit is_open fleet_trips fleet_admission_is_paused
    open_slot_count excluded_slots slots_where BtreeMap.get BtreeMap.insert BtreeMap.remove
    BtreeMap.map_values BtreeMap.values to_string text_eq has_assignment is_free first_free reserve
    next_slot_excluding after_success after_failure after_start no_slot after_allocation round
    admission_batch run_batch batch_outcome finish start_loaded start_missing_runners_with_starter
pool_code = tt

-- slot 2 cannot be started, every other slot can
abbrev second_fails : ℕ → ℕ → SlotAssignments → StartResult × SlotAssignments
second_fails k slot slots =
    if slot == 2 then (start_failed (text "docker"), slots) else (runner_started (text "r"), slots)

abbrev pub steady : Surroundings
steady = record {
  shutdown = λ _. false;
  quarantined = λ _. 1 ∷ [];
  reads = λ _. true;
  writes = λ _. true;
  starter = second_fails;
  persists = λ _. true;
  clock = λ n. 100 + n;
}

-- admission does not look into a virtual machine
abbrev vm : NativeHost
vm = record {
  is_macos_host = false;
  daemon_is_vm_contained = true;
  lock = err lock_unavailable;
  memory_max = err limit_unreadable;
  memory_mb = 2048;
  listed = err listing_failed;
  inspected = err inspection_failed;
}

abbrev pub granted : Start
granted = record {
  persistence_failed = false;
  loaded = ok empty;
  now = 100;
  persists = true;
  missing = 2;
  host = vm;
  slots = no_assignments;
}

abbrev refilled : StartMissingOutcome
refilled = record {
  started = text "r" ∷ [];
  attempted_slots = 3 ∷ 2 ∷ [];
  start_failures = 1;
  admission_paused_reason = none;
}

two_attempts :
    start_missing_runners_with_starter default_policy 4 steady granted ≡ (ok refilled, false)
unfolding pool_code
two_attempts = refl

closed_admission_example :
    (reason : PauseReason) × ((start_missing_runners_with_starter default_policy 4 steady
        (record granted { persists = false })).0
      ≡ ok (paused_outcome reason))
closed_admission_example =
    closed_admission default_policy 4 steady (record granted { persists = false })
      (inr (inr (inr (inl refl))))

attempts_permitted_example :
    (1 ≤ 3)
    × (3 ≤ 4)
    × (slot_is_open empty 3 100 ≡ false)
    × (k : ℕ) × (contains (steady.quarantined k) 3 ≡ false)
attempts_permitted_example =
    attempts_permitted default_policy 4 steady granted empty 3 {outcome = refilled} {latch = false}
      refl empty-IsWellFormed two_attempts refl

run_batch-Run_example :
    (now : ℕ) × Run default_policy now
      (run_batch default_policy 4 steady 2 0 (first_batch granted empty none)).1.ladder
run_batch-Run_example =
    run_batch-Run default_policy 4 steady (λ m n h. omega arith) (omega arith) granted empty none 2
      (start 100) (omega arith)

next_slot_excluding_lem_example :
    (next_slot_excluding 2 (1 ∷ []) [] 5 true true no_assignments).0 ≡ ok none
      × (next_slot_excluding 2 (1 ∷ []) [] 5 true true no_assignments).1 ≡ no_assignments
      × ((j : ℕ) → 1 ≤ j → j ≤ 2 → is_free (1 ∷ []) [] no_assignments j ≡ false)
    ⊎ ((s : ℕ) × ((next_slot_excluding 2 (1 ∷ []) [] 5 true true no_assignments).0 ≡ ok (some s))
        × (1 ≤ s)
        × (s ≤ 2)
        × (is_free (1 ∷ []) [] no_assignments s ≡ true)
        × ((j : ℕ) → 1 ≤ j → j < s → is_free (1 ∷ []) [] no_assignments j ≡ false)
        × ((j : ℕ)
            → has_assignment (next_slot_excluding 2 (1 ∷ []) [] 5 true true no_assignments).1 j
              ≡ (s == j || has_assignment no_assignments j)))
next_slot_excluding_lem_example =
    next_slot_excluding_lem 2 (1 ∷ []) [] 5 no_assignments (omega arith)

abbrev two_reserved : SlotAssignments
two_reserved = reserve 3 90 (reserve 2 100 no_assignments)
