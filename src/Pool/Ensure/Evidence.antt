-- ===== src/Pool/Ensure/Evidence.antt =====
-- What a reconciliation of src/docker_backend.rs has done and seen, from what it reports.
use ez_gh_actions.Base.{
  ℕ, ◌+◌, ◌-◌, ◌*◌, ◌%◌, ◌^◌, ltb, saturating_add, ◌≤◌, ◌<◌, ◌≡◌, refl, ap, ◌⊎◌, inl, inr, Bool,
  Option, none, some, List, arith, leb, length, Text, Bool-cases, Option-cases,
}
use ez_gh_actions.Base.Results.{Result, ok, err, Result-cases}
use ez_gh_actions.FailureLadder.{FailureLadderPolicy}
use ez_gh_actions.Pool.Memory.{admission_batch}
use ez_gh_actions.Pool.Memory.Share.{admission_batch-le}
use ez_gh_actions.Pool.Refill.{
  StartMissingOutcome, RefillError, Start, start_missing_runners_with_starter,
}
use ez_gh_actions.Pool.Refill.Bounds.{batch_bounded, closed_admission}
use ez_gh_actions.Pool.Attempt.{Surroundings}
use ez_gh_actions.Pool.Pressure.{eval_admission, saturating_mul}
use ez_gh_actions.Pool.Outcome.{
  EnsurePause, memory_refused, host_containment_failed, EnsureCountOutcome, ReadinessSummary,
  admission_paused_outcome,
}
use ez_gh_actions.Pool.Gates.{
  PoolConfig, EnsureState, host_disk, docker_disk, memory_decision, memory_gate,
}
use ez_gh_actions.Pool.Ensure.{
  EnsureReadings, owned, shortage_after, refilled_outcome, after_refill, refill, ensure_missing,
  full_outcome, ensure_listed, ensure_count_outcome,
}

-- the host's free disk was measured, and is at least the floor
abbrev pub IsHostRoomy : PoolConfig → EnsureReadings → Type 0
IsHostRoomy cfg r = (free : ℕ) × (r.host_free_disk_gb ≡ some free) × (cfg.min_free_disk_gb ≤ free)

-- docker's free disk is at least the floor, or this is the first time in a row that it could not be measured
abbrev pub IsDockerRoomy : PoolConfig → EnsureReadings → ℕ → Type 0
IsDockerRoomy cfg r strikes =
    ((free : ℕ) × (r.free_disk_gb ≡ some free) × (cfg.min_free_disk_gb ≤ free))
    ⊎ ((r.free_disk_gb ≡ none) × ((strikes + 1) % 2 ^ 32 < 2))

abbrev pub bytes : ℕ → ℕ
bytes mb = saturating_mul mb (1024 * 1024)

-- the pressure is at most 50 % and two runners fit into what is available, and one beside the reserve; where
-- the memory could not be read, no reserve is set
abbrev pub IsMemoryFree : PoolConfig → EnsureReadings → Type 0
IsMemoryFree cfg r =
    ((pressure : ℕ) × (available : ℕ) × (r.memory_pressure ≡ ok (pressure, available))
      × (pressure ≤ 5000)
      × (saturating_mul (bytes cfg.memory_mb) 2 ≤ available)
      × ((bytes cfg.host_reserve_mb ≡ 0)
          ⊎ (saturating_add (bytes cfg.host_reserve_mb) (bytes cfg.memory_mb) ≤ available)))
    ⊎ ((e : Text) × (r.memory_pressure ≡ err e) × (cfg.host_reserve_mb ≡ 0))

-- the gates that a refill has passed: the host's disk, docker's, and the memory with its window
pub record Passed (cfg : PoolConfig) (r : EnsureReadings) (state : EnsureState) : Type 0 where
  pub host : IsHostRoomy cfg r
  pub docker : IsDockerRoomy cfg r state.consecutive_disk_none
  pub free : IsMemoryFree cfg r
  pub memory : (memory_decision cfg r.memory_pressure state.pressure_window).0 ≡ ok tt

-- the ways in which a reconciliation succeeds
pub data Reconciled (policy : FailureLadderPolicy) (cfg : PoolConfig) (r : EnsureReadings)
    (state : EnsureState) : EnsureCountOutcome → Type 0 where
  paused :
      (missing : ℕ) (p : EnsurePause)
      → missing ≤ cfg.count
      → Reconciled policy cfg r state (admission_paused_outcome missing p)
  full :
      (before : List Text)
      → r.containers ≡ ok before
      → cfg.count ≤ length (owned cfg before)
      → Reconciled policy cfg r state (full_outcome r.reclaimed)
  refilled :
      (before after : List Text) (missing : ℕ) (latched latch : Bool)
      (outcome : StartMissingOutcome)
      → Passed cfg r state
      → missing ≤ cfg.count
      → start_missing_runners_with_starter policy cfg.count r.surroundings
          (record r.start { missing = missing; persistence_failed = latched })
        ≡ (ok outcome, latch)
      → Reconciled policy cfg r state (refilled_outcome cfg r latch missing before after outcome)

after_refill-ok :
    (cfg : PoolConfig) (r : EnsureReadings) (latch : Bool) (missing : ℕ) (before : List Text)
    (result : Result RefillError StartMissingOutcome) {outcome : EnsureCountOutcome}
    → after_refill cfg r latch missing before result ≡ ok outcome
    → (done : StartMissingOutcome) × (after : List Text) × (result ≡ ok done)
      × (refilled_outcome cfg r latch missing before after done ≡ outcome)
unfolding after_refill
after_refill-ok cfg r latch missing before (err e) h = absurd (cc h)
after_refill-ok cfg r latch missing before (ok done) {outcome} h =
    elim (Result-cases r.containers_after) [
      | inr (e, failed) ↦ absurd (ground (arith, failed, h))
      | inl (after, counted) ↦ (done, after, refl, ground (arith, counted, h))
    ]

refill-Reconciled :
    (policy : FailureLadderPolicy) (cfg : PoolConfig) (r : EnsureReadings) (missing : ℕ)
    (before : List Text) (state state' : EnsureState) {outcome : EnsureCountOutcome}
    → missing ≤ cfg.count
    → Passed cfg r state
    → (refill policy cfg r missing before state').0 ≡ ok outcome
    → Reconciled policy cfg r state outcome
unfolding refill
refill-Reconciled policy cfg r missing before state state' {outcome} le passed h =
    let call =
      start_missing_runners_with_starter policy cfg.count r.surroundings
        (record r.start { missing = missing; persistence_failed = state'.persistence_failed }) in
    let (done, after, started, same) = after_refill-ok cfg r call.1 missing before call.0 h in
    rw (← same) (
      refilled before after missing state'.persistence_failed call.1 done passed le
        (ap (λ x. (x, call.1)) started))

host_disk-none :
    (cfg : PoolConfig) (measured : Option ℕ)
    → host_disk cfg measured ≡ none
    → (free : ℕ) × (measured ≡ some free) × (cfg.min_free_disk_gb ≤ free)
unfolding host_disk
host_disk-none cfg none h = absurd (cc h)
host_disk-none cfg (some free) h = (free, refl, ground (arith, h))

docker_disk-none :
    (cfg : PoolConfig) (r : EnsureReadings) (strikes : ℕ)
    → (docker_disk cfg r.free_disk_gb strikes).0 ≡ none
    → IsDockerRoomy cfg r strikes
unfolding docker_disk
docker_disk-none cfg r strikes h = elim (Option-cases r.free_disk_gb) [
  | inl unmeasured ↦ inr (unmeasured, ground (arith, unmeasured, h))
  | inr (free, measured) ↦ inl (free, measured, ground (arith, measured, h))
]

memory_decision-IsMemoryFree :
    (cfg : PoolConfig) (r : EnsureReadings) (window : List (Option ℕ))
    → (memory_decision cfg r.memory_pressure window).0 ≡ ok tt
    → IsMemoryFree cfg r
unfolding memory_decision eval_admission
memory_decision-IsMemoryFree cfg r window h = elim (Result-cases r.memory_pressure) [
  | inr (e, unread) ↦ inr (e, unread, ground (arith, unread, h))
  | inl ((pressure, available), read) ↦ inl (
    pressure,
    available,
    read,
    ground (arith, read, h),
    ground (arith, read, h),
    elim (Bool-cases (ltb 0 (bytes cfg.host_reserve_mb))) [
      | inr unreserved ↦ inl (ground (arith, unreserved))
      | inl reserved ↦ inr (ground (arith, reserved, read, h))
    ],
  )
]

ensure_missing-Reconciled :
    (policy : FailureLadderPolicy) (cfg : PoolConfig) (r : EnsureReadings) (missing : ℕ)
    (before : List Text) (state : EnsureState) {outcome : EnsureCountOutcome}
    → missing ≤ cfg.count
    → (ensure_missing policy cfg r missing before state).0 ≡ ok outcome
    → Reconciled policy cfg r state outcome
unfolding ensure_missing memory_gate
ensure_missing-Reconciled policy cfg r missing before state {outcome} le h =
    let disk = docker_disk cfg r.free_disk_gb state.consecutive_disk_none in
    let state' = record state { consecutive_disk_none = disk.1 } in
    let memory = memory_gate cfg r.now r.memory_pressure state' in
    let is_paused : (p : EnsurePause)
        → admission_paused_outcome missing p ≡ outcome
        → Reconciled policy cfg r state outcome =
      λ p same. rw (← same) (paused missing p le) in
    elim (Option-cases (host_disk cfg r.host_free_disk_gb)) [
      | inr (p, low) ↦ is_paused p (ground (arith, low, h))
      | inl host ↦ elim (Option-cases disk.0) [
        | inr (p, low) ↦ is_paused p (ground (arith, host, low, h))
        | inl docker ↦ elim (Result-cases memory.0) [
          | inr (e, refused) ↦
              is_paused (memory_refused e) (ground (arith, host, docker, refused, h))
          | inl (_, admitted) ↦
              let decided : (memory_decision cfg r.memory_pressure state.pressure_window).0
                  ≡ ok tt =
                admitted in
              refill-Reconciled policy cfg r missing before state memory.1 le
                (record {
                  host = host_disk-none cfg r.host_free_disk_gb host;
                  docker = docker_disk-none cfg r state.consecutive_disk_none docker;
                  free = memory_decision-IsMemoryFree cfg r state.pressure_window decided;
                  memory = decided;
                })
                (ground (arith, host, docker, admitted, h))
        ]
      ]
    ]

ensure_listed-Reconciled :
    (policy : FailureLadderPolicy) (cfg : PoolConfig) (r : EnsureReadings) (before : List Text)
    (state : EnsureState) {outcome : EnsureCountOutcome}
    → r.containers ≡ ok before
    → (ensure_listed policy cfg r before state).0 ≡ ok outcome
    → Reconciled policy cfg r state outcome
unfolding ensure_listed
ensure_listed-Reconciled policy cfg r before state {outcome} listed h =
    elim (Bool-cases (leb cfg.count (length (owned cfg before)))) [
      | inl enough ↦
          let same : full_outcome r.reclaimed ≡ outcome = ground (arith, enough, h) in
          rw (← same) (full before listed (ground (arith, enough)))
      | inr short ↦
          ensure_missing-Reconciled policy cfg r (cfg.count - length (owned cfg before)) before
            state (omega arith) (ground (arith, short, h))
    ]

pub ensure_count-Reconciled :
    (policy : FailureLadderPolicy) (cfg : PoolConfig) (r : EnsureReadings) (state : EnsureState)
    {outcome : EnsureCountOutcome}
    → (ensure_count_outcome policy cfg r state).0 ≡ ok outcome
    → Reconciled policy cfg r state outcome
unfolding ensure_count_outcome
ensure_count-Reconciled policy cfg r state {outcome} h = elim (Result-cases r.host_containment) [
  | inr (e, broken) ↦
      let same : admission_paused_outcome cfg.count (host_containment_failed e) ≡ outcome =
        ground (arith, broken, h) in
      rw (← same) (paused cfg.count (host_containment_failed e) (omega arith))
  | inl (_, contained) ↦ elim (Result-cases r.containers) [
    | inr (e, failed) ↦ absurd (ground (arith, contained, failed, h))
    | inl (before, listed) ↦
        ensure_listed-Reconciled policy cfg r before state listed
          (ground (arith, contained, listed, h))
  ]
]

started-le :
    (policy : FailureLadderPolicy) (count : ℕ) (env : Surroundings) (start : Start)
    {outcome : StartMissingOutcome} {latch : Bool}
    → start_missing_runners_with_starter policy count env start ≡ (ok outcome, latch)
    → length outcome.started + outcome.start_failures ≤ start.missing
started-le policy count env start {outcome} {latch} call =
    elim (Result-cases (admission_batch start.missing start.host)) [
      | inr (e, refused) ↦
          let (reason, closed) =
            closed_admission policy count env start (inr (inr (inr (inr (e, refused))))) in
          ground (arith, closed, call)
      | inl ((slots, pause), granted) ↦ omega (
        arith,
        (batch_bounded policy count env start slots pause {outcome = outcome} {latch = latch}
            granted call).1,
        admission_batch-le start.missing start.host granted,
      )
    ]

Reconciled-starts :
    (policy : FailureLadderPolicy) (cfg : PoolConfig) (r : EnsureReadings) (state : EnsureState)
    {outcome : EnsureCountOutcome}
    → Reconciled policy cfg r state outcome
    → 0 < length outcome.started + outcome.start_failures
    → Passed cfg r state
      × (length outcome.started + outcome.start_failures ≤ outcome.missing)
      × (outcome.missing ≤ cfg.count)
unfolding admission_paused_outcome full_outcome refilled_outcome
Reconciled-starts policy cfg r state (paused missing p le) some_start = absurd (omega arith)
Reconciled-starts policy cfg r state (full before listed enough) some_start = absurd (omega arith)
Reconciled-starts policy cfg r state
      (refilled before after missing latched latch done passed le call) some_start =
    (
      passed,
      started-le policy cfg.count r.surroundings
          (record r.start { missing = missing; persistence_failed = latched }) {latch = latch} call,
      le,
    )

Reconciled-full :
    (policy : FailureLadderPolicy) (cfg : PoolConfig) (r : EnsureReadings) (state : EnsureState)
    {outcome : EnsureCountOutcome}
    → Reconciled policy cfg r state outcome
    → outcome.remaining_shortage ≡ 0
    → outcome.admission_paused_reason ≡ none
    → outcome.post_refill_readiness_error ≡ none
    → ((before : List Text) × (r.containers ≡ ok before) × (cfg.count ≤ length (owned cfg before)))
      ⊎ ((summary : ReadinessSummary) × (r.readiness_after ≡ ok summary)
          × (cfg.count ≤ summary.ready))
unfolding admission_paused_outcome refilled_outcome shortage_after
Reconciled-full policy cfg r state (paused missing p le) none_missing unpaused ready =
    absurd (cc unpaused)
Reconciled-full policy cfg r state (full before listed enough) none_missing unpaused ready =
    inl (before, listed, enough)
Reconciled-full policy cfg r state (refilled before after missing latched latch done passed le call)
      none_missing unpaused ready =
    elim (Result-cases r.readiness_after) [
      | inr (e, unknown) ↦ absurd (ground (arith, unknown, ready))
      | inl (summary, counted) ↦ inr (summary, counted, ground (arith, counted, none_missing))
    ]

-- A reconciliation that starts runners, or fails to, makes no more starts than are missing, and only where
-- the host's free disk was measured and is at least the floor; docker's is at least the floor, or this is the
-- first time in a row that it could not be measured; and the memory admits it: the pressure is at most 50 %,
-- two runners fit into what is available, and one beside the reserve, or it could not be read and no
-- reserve is set; and the readings in the window do not rise all the way.
pub ensure_count-starts :
    (policy : FailureLadderPolicy) (cfg : PoolConfig) (r : EnsureReadings) (state : EnsureState)
    {outcome : EnsureCountOutcome}
    → (ensure_count_outcome policy cfg r state).0 ≡ ok outcome
    → 0 < length outcome.started + outcome.start_failures
    → (length outcome.started + outcome.start_failures ≤ outcome.missing)
      × (outcome.missing ≤ cfg.count)
      × IsHostRoomy cfg r
      × IsDockerRoomy cfg r state.consecutive_disk_none
      × IsMemoryFree cfg r
      × ((memory_decision cfg r.memory_pressure state.pressure_window).0 ≡ ok tt)
ensure_count-starts policy cfg r state {outcome} h some_start =
    let (passed, few, missing) =
      Reconciled-starts policy cfg r state (ensure_count-Reconciled policy cfg r state h)
        some_start in
    (few, missing, passed.host, passed.docker, passed.free, passed.memory)

-- Where a reconciliation reports no shortage, no pause and no readiness error, it has seen a full pool:
-- all configured runners' containers before the refill, or all of them ready after it.
pub ensure_count-full :
    (policy : FailureLadderPolicy) (cfg : PoolConfig) (r : EnsureReadings) (state : EnsureState)
    {outcome : EnsureCountOutcome}
    → (ensure_count_outcome policy cfg r state).0 ≡ ok outcome
    → outcome.remaining_shortage ≡ 0
    → outcome.admission_paused_reason ≡ none
    → outcome.post_refill_readiness_error ≡ none
    → ((before : List Text) × (r.containers ≡ ok before) × (cfg.count ≤ length (owned cfg before)))
      ⊎ ((summary : ReadinessSummary) × (r.readiness_after ≡ ok summary)
          × (cfg.count ≤ summary.ready))
ensure_count-full policy cfg r state {outcome} h none_missing unpaused ready =
    Reconciled-full policy cfg r state (ensure_count-Reconciled policy cfg r state h) none_missing
      unpaused ready
