-- ===== src/Start/Cleanup.antt =====
-- What a start of src/docker_backend.rs leaves behind.
use ez_gh_actions.Base.{
  ℕ, ◌≡◌, refl, ap, List, inl, inr, Bool, true, false, some, [], ◌∷◌, ◌++◌, arith, length, Text,
  text_eq_refl, Bool-cases,
}
use ez_gh_actions.Base.Decimal.{to_string}
use ez_gh_actions.Base.Results.{Result, ok, err, Result-cases}
use ez_gh_actions.BtreeMap
use ez_gh_actions.BtreeMap.{get-insert, get-remove}
use ez_gh_actions.Pool.Slots.{
  SlotAssignments, has_assignment, record_slot_runner_id_for, record_container_started_for,
  mark_started, release_slot_for,
}
use ez_gh_actions.Pool.Released.{runner_name_for}
use ez_gh_actions.Stale.Orphans.{owned_ids}
use ez_gh_actions.Start.{
  StartConfig, Host, StartError, containment_failed, limits_refused, slots_unreadable,
  cpus_require_cpu_controller, record_failed, run_args, workspace_wiped, Launch, give_back,
  after_run, run_container, register, start_one_with_generate_at_slot,
}

-- the registration is the slot's, and GitHub was not asked to remove it
abbrev pub Keeps : ℕ → Launch → Type 0
Keeps slot s =
    (runner_id : ℕ) × (s.registered ≡ runner_id ∷ [])
    × (s.removed ≡ [])
    × (BtreeMap.get (to_string slot) s.slots.assignments ≡ some (to_string runner_id))

-- every registration was asked to be removed, and the slot is free
abbrev pub GivesBack : ℕ → Launch → Type 0
GivesBack slot s = (s.removed ≡ s.registered) × (has_assignment s.slots slot ≡ false)

-- nothing was registered or removed, no container was run, and the slot file is as it was
abbrev pub IsUntouched : SlotAssignments → Launch → Type 0
IsUntouched file s = (s.registered ≡ []) × (s.removed ≡ []) × (s.runs ≡ []) × (s.slots ≡ file)

-- the one container that was run is the given one, and lies where it should
abbrev pub IsRun : Host → Text → Launch → Type 0
IsRun host container_id s =
    (args : List Text) × (s.runs ≡ args ∷ [])
    × (host.docker_run args ≡ ok (true, container_id))
    × (host.ancestry container_id ≡ ok tt)

-- what is left of a start, by its result
abbrev pub IsClean : Host → ℕ → SlotAssignments → Result StartError (Text × Text) × Launch → Type 0
IsClean host slot file (ok (container_id, name), s) = Keeps slot s × IsRun host container_id s
IsClean host slot file (err (containment_failed e), s) = IsUntouched file s
IsClean host slot file (err (limits_refused e), s) = IsUntouched file s
IsClean host slot file (err slots_unreadable, s) = IsUntouched file s
IsClean host slot file (err cpus_require_cpu_controller, s) = Keeps slot s
IsClean host slot file (err (record_failed e), s) = (s.removed ≡ []) × (length s.registered ≡ 1)
IsClean host slot file (err _, s) = GivesBack slot s

-- while a registration is at hand
record IsRegistered (slot runner_id : ℕ) (s : Launch) : Type 0 where
  registered : s.registered ≡ runner_id ∷ []
  removed : s.removed ≡ []
  recorded : BtreeMap.get (to_string slot) s.slots.assignments ≡ some (to_string runner_id)

module _ (host : Host) (cfg : StartConfig) (slot : ℕ) (file : SlotAssignments)
    (reads : host.release_reads ≡ true) (writes : host.release_writes ≡ true) where
  give_back-GivesBack :
      (runner_id : ℕ) (s : Launch)
      → s.registered ≡ runner_id ∷ []
      → s.removed ≡ []
      → GivesBack slot (give_back host cfg slot runner_id s)
  unfolding give_back release_slot_for has_assignment
  give_back-GivesBack runner_id s given none_removed = (
    ground (arith, given, none_removed),
    simp (reads, writes) (rw get-remove (rw text_eq_refl refl)),
  )

  witness-assignments :
      (runner_id now : ℕ) (r w : Bool) (self : SlotAssignments)
      → (record_container_started_for r w slot runner_id now self).1.assignments ≡ self.assignments
  unfolding record_container_started_for mark_started
  witness-assignments runner_id now r w self = ground arith

  after_run-IsClean :
      (runner_id : ℕ) (c : Text) (args : List Text) (s : Launch)
      → IsRegistered slot runner_id s
      → s.runs ≡ args ∷ []
      → host.docker_run args ≡ ok (true, c)
      → IsClean host slot file (after_run host cfg slot runner_id c s)
  unfolding after_run
  after_run-IsClean runner_id c args s i once ran = elim (Result-cases (host.ancestry c)) [
    | inr (e, foreign_cgroup) ↦
        rw (foreign_cgroup, after_run) (give_back-GivesBack runner_id _ i.registered i.removed)
    | inl (_, fits) ↦
        rw (fits, after_run)
          (
            (
              runner_id,
              i.registered,
              i.removed,
              rw
                  (witness-assignments runner_id host.started_at host.witness_reads
                    host.witness_writes s.slots)
                  (i.recorded),
            ),
            (args, once, ran, fits),
          )
  ]

  run_container-IsClean :
      (cpus : Text) (memory_mb : ℕ) (jit : Text) (runner_id : ℕ) (s : Launch)
      → IsRegistered slot runner_id s
      → s.runs ≡ []
      → IsClean host slot file (run_container host cfg slot cpus memory_mb jit runner_id s)
  unfolding run_container
  run_container-IsClean cpus memory_mb jit runner_id s i unrun =
      elim (Bool-cases host.cpu_controller) [
        | inr missing ↦ simp missing (runner_id, i.registered, i.removed, i.recorded)
        | inl present ↦
            let args =
              run_args host cfg (runner_name_for cfg.name_prefix slot) runner_id cpus memory_mb
                jit in
            let s' : Launch = record s {
              runs = args ∷ s.runs;
              wiped = workspace_wiped host cfg (runner_name_for cfg.name_prefix slot) ++ s.wiped;
            } in
            let i' : IsRegistered slot runner_id s' = record {
              registered = i.registered;
              removed = i.removed;
              recorded = i.recorded;
            } in
            elim (Result-cases (host.docker_run args)) [
              | inr (e, failed) ↦
                  simp (present, failed) (give_back-GivesBack runner_id s' i'.registered i'.removed)
              | inl ((success, output), ran) ↦ elim (Bool-cases success) [
                | inr refused ↦
                    simp (present, ran, refused)
                      (give_back-GivesBack runner_id s' i'.registered i'.removed)
                | inl started ↦
                    simp (present, ran, started)
                      (after_run-IsClean runner_id output args s' i'
                        (ap (λ runs. args ∷ runs) unrun) (ground (arith, ran, started)))
              ]
            ]
      ]

  record-recorded :
      (runner_id now : ℕ) (r w : Bool) (self : SlotAssignments) (u : Unit)
      → (record_slot_runner_id_for r w slot runner_id now self).0 ≡ ok u
      → BtreeMap.get
          (to_string slot)
          (record_slot_runner_id_for r w slot runner_id now self).1.assignments
        ≡ some (to_string runner_id)
  unfolding record_slot_runner_id_for
  record-recorded runner_id now r w self u h = elim (Bool-cases r) [
    | inr unreadable ↦ absurd (ground (arith, unreadable, h))
    | inl readable ↦ elim (Bool-cases w) [
      | inr unwritable ↦ absurd (ground (arith, readable, unwritable, h))
      | inl writable ↦ rw (readable, writable) (rw get-insert (rw text_eq_refl refl))
    ]
  ]

  register-IsClean :
      (cpus : Text) (memory_mb : ℕ) (s : Launch)
      → s.registered ≡ []
      → s.removed ≡ []
      → s.runs ≡ []
      → IsClean host slot file (register host cfg slot cpus memory_mb s)
  unfolding register
  register-IsClean cpus memory_mb s none_registered none_removed unrun =
      elim (Result-cases (
        host.generate_jitconfig (runner_name_for cfg.name_prefix slot) cfg.labels
          (owned_ids s.slots.assignments))) [
            | inr (e, refused) ↦
                rw (refused, register)
                  (
                    ground arith,
                    unfold release_slot_for has_assignment in
                        simp (reads, writes) (rw get-remove (rw text_eq_refl refl)),
                  )
            | inl ((jit, runner_id), given) ↦
                elim (Result-cases
                  (record_slot_runner_id_for host.record_reads host.record_writes slot runner_id
                    host.recorded_at s.slots).0) [
                      | inr (e, failed) ↦
                          rw (given, register) (rw failed (none_removed, ground arith))
                      | inl (u, done) ↦
                          rw (given, register)
                            (rw done (
                              run_container-IsClean cpus memory_mb jit runner_id _
                                (record {
                                  registered = ground arith;
                                  removed = none_removed;
                                  recorded =
                                      record-recorded runner_id host.recorded_at host.record_reads
                                        host.record_writes s.slots u done;
                                })
                                unrun))
                    ]
          ]

-- What is left of a start, where the release of the slot can be read and written. After a success the
-- slot holds the one new registration, and docker has run one container, the returned one, whose cgroup is right. The errors before GitHub is asked, of containment, of the limits and
-- of reading the slots, leave the slot file as it was, the reservation included. Each later error has every
-- registration asked to be removed, and the slot free, also if GitHub refused to register. Two errors do not:
-- without a CPU controller the slot keeps the registration, and where the runner id could not be recorded,
-- the registration stays.
pub start-IsClean :
    (host : Host) (cfg : StartConfig) (slot : ℕ) (file : SlotAssignments)
    → host.release_reads ≡ true
    → host.release_writes ≡ true
    → IsClean host slot file (start_one_with_generate_at_slot host cfg slot file)
unfolding start_one_with_generate_at_slot
start-IsClean host cfg slot file reads writes = elim (Result-cases host.host_containment) [
  | inr (e, outside) ↦ rw (outside, start_one_with_generate_at_slot) (refl, refl, refl, refl)
  | inl (_, contained) ↦ elim (Result-cases host.effective_limits) [
    | inr (e, refused) ↦
        rw (contained, start_one_with_generate_at_slot) (rw refused (refl, refl, refl, refl))
    | inl ((cpus, memory_mb), limits) ↦ elim (Bool-cases host.readable) [
      | inr unreadable ↦
          simp (start_one_with_generate_at_slot, contained, limits, unreadable)
            (refl, refl, refl, refl)
      | inl readable ↦
          simp (start_one_with_generate_at_slot, contained, limits, readable)
            (register-IsClean host cfg slot file reads writes cpus memory_mb _ refl refl refl)
    ]
  ]
]
