-- ===== src/Stale/Zombies/Held.antt =====
-- When `reconcile_offline_busy_zombies` (src/docker_backend.rs) may free a slot.
use ez_gh_actions.Base.{
  ℕ, ◌≡◌, refl, ◌∙◌, inl, inr, Bool, false, some, List, ◌∷◌, arith, ◌==◌, ==_iff, Text, Bool-cases,
  Option-cases,
}
use ez_gh_actions.Base.Results.{err, Result-cases}
use ez_gh_actions.Github.{RunnerInfo}
use ez_gh_actions.Quarantine.{
  QuarantineEntry, QuarantineTable, upsert, remove, get_mut, is_quarantined,
}
use ez_gh_actions.Quarantine
use ez_gh_actions.Quarantine.Lookup.{get-upsert, get-removed, get-get_mut}
use ez_gh_actions.Pool.Slots.{SlotAssignments, has_assignment, release_slot_for}
use ez_gh_actions.Pool.Slots.Allocation.{has_assignment-release_slot_for}
use ez_gh_actions.Stale.{find_runner}
use ez_gh_actions.Stale.Zombies.{
  Wedged, is_runner_busy_lock_error, ZombieReadings, Reconciling, release, heal, locked,
  quarantine_slot, reconcile_slot, recoverable, recover_entry, recover_slot,
  reconcile_offline_busy_zombies,
}
use ez_gh_actions.Stale.Zombies.Loop.{AllIn, fresh_slots, reconcile-inv}

-- what the table has at slot `j` is about a runner of which `R` holds
abbrev pub AtSlot : ℕ → (ℕ → Type 0) → QuarantineTable → Type 0
AtSlot j R t = (e : QuarantineEntry) → Quarantine.get t j ≡ some e → R e.runner_id

module _ (j : ℕ) (R : ℕ → Type 0) (t : QuarantineTable) (known : AtSlot j R t) where
  remove-AtSlot : (slot : ℕ) → AtSlot j R (remove slot t).0
  remove-AtSlot slot e h = elim (Bool-cases (slot == j)) [
    | inl same ↦ absurd (ground (arith, same, get-removed slot j t))
    | inr other ↦ known e (ground (arith, other, get-removed slot j t))
  ]

  upsert-AtSlot :
      (entry : QuarantineEntry) → (entry.slot ≡ j → R entry.runner_id) → AtSlot j R (upsert entry t)
  upsert-AtSlot entry fits e h = elim (Bool-cases (entry.slot == j)) [
    | inl same ↦
        let put : entry ≡ e = ground (arith, same, get-upsert 0 j t entry) in
        rw (← put) (fits ((==_iff entry.slot j).0 same))
    | inr other ↦ known e (ground (arith, other, get-upsert 0 j t entry))
  ]

  get_mut-AtSlot :
      (slot : ℕ) (f : QuarantineEntry → QuarantineEntry)
      → ((e : QuarantineEntry) → (f e).runner_id ≡ e.runner_id)
      → AtSlot j R (get_mut f slot t)
  get_mut-AtSlot slot f keeps e h = elim (Bool-cases (slot == j)) [
    | inr other ↦ known e (ground (arith, other, get-get_mut slot j t f))
    | inl same ↦ elim (Option-cases (Quarantine.get t j)) [
      | inl missing ↦ absurd (ground (arith, same, missing, get-get_mut slot j t f))
      | inr (old, found) ↦
          let put : f old ≡ e = ground (arith, same, found, get-get_mut slot j t f) in
          rw (← put) (rw (keeps old) (known old found))
    ]
  ]

  quarantine_slot-AtSlot :
      (gh : ZombieReadings) (w : Wedged) (now : ℕ)
      → (w.slot ≡ j → R w.runner_id)
      → AtSlot j R (quarantine_slot gh w now t)
  unfolding quarantine_slot
  quarantine_slot-AtSlot gh w now fits = elim (Option-cases (Quarantine.get t w.slot)) [
    | inl missing ↦ rw (missing, quarantine_slot) (upsert-AtSlot _ fits)
    | inr (old, found) ↦ rw (found, quarantine_slot) (get_mut-AtSlot w.slot _ (λ e. refl))
  ]

-- GitHub never removes the runner in this pass, and no self-heal of it succeeds.
pub record IsRefused (gh : ZombieReadings) (runner_id : ℕ) : Type 0 where
  pub unremoved : (h : List ℕ) → (e : Text) × (gh.remove_runner h runner_id ≡ err e)
  pub unhealed :
      (h : List ℕ) (runner : RunnerInfo)
      → find_runner gh.live_runners runner_id ≡ some runner
      → gh.try_zombie_reclaim h runner ≡ false

module _ (gh : ZombieReadings) (j : ℕ) (held : Bool) where
  record IsHeld (s : Reconciling) : Type 0 where
    kept : has_assignment s.slots j ≡ held
    known : AtSlot j (IsRefused gh) s.quarantine

  release-IsHeld :
      (slot : ℕ) (s : Reconciling) → (slot == j) ≡ false → IsHeld s → IsHeld (release gh slot s).1
  unfolding release
  release-IsHeld slot s other i =
      let same =
        has_assignment-release_slot_for (gh.reads s.removals) (gh.writes s.removals) slot j s.slots
          other in
      elim (Result-cases
        (release_slot_for (gh.reads s.removals) (gh.writes s.removals) slot s.slots).0) [
          | inr (e, failed) ↦
              rw (failed, release) (record { kept = same ∙ i.kept; known = i.known })
          | inl (_, done) ↦
              rw (done, release)
                (record {
                  kept = same ∙ i.kept;
                  known = remove-AtSlot j (IsRefused gh) s.quarantine i.known slot;
                })
        ]

  heal-refused :
      (runner_id : ℕ) (s : Reconciling) → IsRefused gh runner_id → (heal gh runner_id s).0 ≡ false
  unfolding heal
  heal-refused runner_id s r = elim (Option-cases (find_runner gh.live_runners runner_id)) [
    | inl missing ↦ rw missing (ground arith)
    | inr (runner, found) ↦ rw found (ground (arith, r.unhealed s.removals runner found))
  ]

  heal-keeps :
      (runner_id : ℕ) (s : Reconciling)
      → ((heal gh runner_id s).1.slots ≡ s.slots)
        × ((heal gh runner_id s).1.quarantine ≡ s.quarantine)
  unfolding heal
  heal-keeps runner_id s = (ground arith, ground arith)

  heal-IsHeld : (runner_id : ℕ) (s : Reconciling) → IsHeld s → IsHeld (heal gh runner_id s).1
  heal-IsHeld runner_id s i =
      let (file, table) = heal-keeps runner_id s in
      record { kept = rw file (i.kept); known = rw table (i.known) }

  abbrev quarantined_after : Wedged → Reconciling → Reconciling
  quarantined_after w s = record s {
    quarantine = quarantine_slot gh w (gh.unix_now_secs s.removals) s.quarantine;
  }

  locked-IsHeld :
      (w : Wedged) (s : Reconciling)
      → (w.slot ≡ j → IsRefused gh w.runner_id)
      → IsHeld s
      → IsHeld (locked gh w s).1
  unfolding locked
  locked-IsHeld w s fits i =
      let i' = heal-IsHeld w.runner_id s i in
      let s' : Reconciling = (heal gh w.runner_id s).1 in
      let q : IsHeld (quarantined_after w s') = record {
        kept = i'.kept;
        known =
            quarantine_slot-AtSlot j (IsRefused gh) s'.quarantine i'.known gh w
              (gh.unix_now_secs s'.removals) fits;
      } in
      elim (Bool-cases (heal gh w.runner_id s).0) [
        | inr failed ↦ rw failed q
        | inl healed ↦ elim (Bool-cases (w.slot == j)) [
          | inr other ↦ rw healed (release-IsHeld w.slot s' other i')
          | inl same ↦ absurd (cc (heal-refused w.runner_id s (fits ((==_iff w.slot j).0 same))))
        ]
      ]

  reconcile_slot-IsHeld :
      (w : Wedged) (s : Reconciling)
      → (w.slot ≡ j → IsRefused gh w.runner_id)
      → IsHeld s
      → IsHeld (reconcile_slot gh w s).1
  unfolding reconcile_slot
  reconcile_slot-IsHeld w s fits i =
      let s' : Reconciling = record s { removals = w.runner_id ∷ s.removals } in
      let i' : IsHeld s' = record { kept = i.kept; known = i.known } in
      elim (Bool-cases (is_quarantined s.quarantine w.slot)) [
        | inl old ↦ rw old i
        | inr new ↦ elim (Result-cases (gh.remove_runner s.removals w.runner_id)) [
          | inr (e, refused) ↦ elim (Bool-cases (is_runner_busy_lock_error e)) [
            | inl busy ↦ rw new (rw refused (rw busy (locked-IsHeld w s' fits i')))
            | inr other ↦ rw new (rw refused (rw other i'))
          ]
          | inl (_, removed) ↦ elim (Bool-cases (w.slot == j)) [
            | inr other ↦ rw new (rw removed (release-IsHeld w.slot s' other i'))
            | inl same ↦
                let (e, refused) = (fits ((==_iff w.slot j).0 same)).unremoved s.removals in
                absurd (cc)
          ]
        ]
      ]

  recover_entry-IsHeld :
      (slot : ℕ) (entry : QuarantineEntry) (s : Reconciling)
      → (slot ≡ j → IsRefused gh entry.runner_id)
      → IsHeld s
      → IsHeld (recover_entry gh slot entry s).1
  unfolding recover_entry
  recover_entry-IsHeld slot entry s fits i =
      let s' : Reconciling = record s { removals = entry.runner_id ∷ s.removals } in
      let i' : IsHeld s' = record { kept = i.kept; known = i.known } in
      let touched =
        get_mut-AtSlot j (IsRefused gh) s.quarantine i.known slot
          (λ e. record e { last_attempt_epoch_secs = gh.unix_now_secs s'.removals }) (λ e. refl) in
      elim (Bool-cases (recoverable gh (find_runner gh.live_runners entry.runner_id))) [
        | inr stuck ↦ rw stuck i
        | inl free ↦ elim (Result-cases (gh.remove_runner s.removals entry.runner_id)) [
          | inr (e, refused) ↦ elim (Bool-cases (is_runner_busy_lock_error e)) [
            | inl busy ↦ rw free (rw refused (rw busy (record { kept = i.kept; known = touched })))
            | inr other ↦ rw free (rw refused (rw other i'))
          ]
          | inl (_, removed) ↦ elim (Bool-cases (slot == j)) [
            | inr other ↦ rw free (rw removed (release-IsHeld slot s' other i'))
            | inl same ↦
                let (e, refused) = (fits ((==_iff slot j).0 same)).unremoved s.removals in
                absurd (cc)
          ]
        ]
      ]

  recover_slot-IsHeld : (slot : ℕ) (s : Reconciling) → IsHeld s → IsHeld (recover_slot gh slot s).1
  unfolding recover_slot
  recover_slot-IsHeld slot s i = elim (Option-cases (Quarantine.get s.quarantine slot)) [
    | inl missing ↦ rw (missing, recover_slot) i
    | inr (entry, found) ↦
        rw (found, recover_slot)
          (recover_entry-IsHeld slot entry s (λ at_j. i.known entry (rw (← at_j) found)) i)
  ]

-- A slot is freed only with its registration: where GitHub removes none of the runners that the slot file
-- and the table have for a slot, and no self-heal of them succeeds, the slot stays assigned as it was,
-- whatever happens to the other slots, and also if the pass ends with an error.
pub reconcile-held :
    (gh : ZombieReadings) (j : ℕ) (file : SlotAssignments) (quarantine : QuarantineTable)
    → ((names : List Text)
        → gh.local_container_names ≡ some names
        → AllIn (λ w. w.slot ≡ j → IsRefused gh w.runner_id) (fresh_slots gh names))
    → AtSlot j (IsRefused gh) quarantine
    → has_assignment (reconcile_offline_busy_zombies gh file quarantine).1.slots j
      ≡ has_assignment file j
reconcile-held gh j file quarantine refused known =
    (reconcile-inv gh (IsHeld gh j (has_assignment file j))
      (λ w. w.slot ≡ j → IsRefused gh w.runner_id)
      (reconcile_slot-IsHeld gh j (has_assignment file j))
      (recover_slot-IsHeld gh j (has_assignment file j)) file quarantine refused
      (record { kept = refl; known = known })).kept
