-- ===== src/Stale/Zombies/Tables.antt =====
-- The table that `reconcile_offline_busy_zombies` (src/docker_backend.rs) leaves.
use ez_gh_actions.Base.{
  ℕ, ◌≤◌, ◌≡◌, refl, inl, inr, some, List, [], ◌∷◌, arith, u32_max, u64_max, Text, Bool-cases,
  Option-cases,
}
use ez_gh_actions.Base.Decimal.{parse_uint, parse_uint-le}
use ez_gh_actions.Base.Results.{Result-cases}
use ez_gh_actions.BtreeMap.{BtreeMap}
use ez_gh_actions.BtreeMap.Slots.{contains}
use ez_gh_actions.Github.{RunnerInfo}
use ez_gh_actions.Quarantine.{QuarantineEntry, QuarantineTable, is_quarantined, excluded_slots}
use ez_gh_actions.Quarantine
use ez_gh_actions.Quarantine.Table.{Built, upserted, removed, changed, contains-excluded_slots}
use ez_gh_actions.Pool.Slots.{SlotAssignments, release_slot_for}
use ez_gh_actions.Stale.{find_runner}
use ez_gh_actions.Stale.Zombies.{
  Wedged, wedged, offline_busy_owned_missing_container_slots, is_runner_busy_lock_error,
  ZombieReadings, Reconciling, release, heal, locked, quarantine_slot, reconcile_slot, recoverable,
  recover_entry, recover_slot, reconcile_offline_busy_zombies,
}
use ez_gh_actions.Stale.Zombies.Loop.{AllIn, reconcile-inv}

-- a slot that the file names is a `u32`
abbrev IsU32 : Wedged → Type 0
IsU32 w = w.slot ≤ u32_max

wedged-IsU32 :
    (live_runners : List RunnerInfo) (prefix : Text) (names : List Text) (key id : Text)
    (w : Wedged)
    → wedged live_runners prefix names key id ≡ some w
    → IsU32 w
unfolding wedged
wedged-IsU32 live_runners prefix names key id w h = elim (Option-cases (parse_uint u32_max key)) [
  | inl e ↦ absurd (ground (arith, e, h))
  | inr (slot, e) ↦
      let le = parse_uint-le u32_max key slot e in
      elim (Option-cases (parse_uint u64_max id)) [
        | inl e' ↦ absurd (ground (arith, e, e', h))
        | inr (rid, e') ↦
            let same : w.slot ≡ slot = ground (arith, e, e', h) in omega (arith, le, same)
      ]
]

fresh_slots-IsU32 :
    (live_runners : List RunnerInfo) (prefix : Text) (names : List Text) (entries : BtreeMap Text)
    → AllIn IsU32 (offline_busy_owned_missing_container_slots entries live_runners prefix names)
unfolding offline_busy_owned_missing_container_slots
fresh_slots-IsU32 live_runners prefix names [] = tt
fresh_slots-IsU32 live_runners prefix names ((key, id) ∷ entries) =
    let rest = fresh_slots-IsU32 live_runners prefix names entries in
    elim (Option-cases (wedged live_runners prefix names key id)) [
      | inl e ↦ rw (e, offline_busy_owned_missing_container_slots) rest
      | inr (w, e) ↦
          rw (e, offline_busy_owned_missing_container_slots)
            (wedged-IsU32 live_runners prefix names key id w e, rest)
    ]

module _ (gh : ZombieReadings) where
  abbrev HasBuilt : Reconciling → Type 0
  HasBuilt s = Built s.quarantine

  release-Built : (slot : ℕ) (s : Reconciling) → HasBuilt s → HasBuilt (release gh slot s).1
  unfolding release
  release-Built slot s b =
      elim (Result-cases
        (release_slot_for (gh.reads s.removals) (gh.writes s.removals) slot s.slots).0) [
          | inr (e, failed) ↦ rw (failed, release) b
          | inl (_, done) ↦ rw (done, release) (removed slot b)
        ]

  quarantine_slot-Built :
      (w : Wedged) (now : ℕ) (t : QuarantineTable)
      → IsU32 w
      → Built t
      → Built (quarantine_slot gh w now t)
  unfolding quarantine_slot
  quarantine_slot-Built w now t le b = elim (Option-cases (Quarantine.get t w.slot)) [
    | inl missing ↦ rw (missing, quarantine_slot) (upserted _ b le)
    | inr (old, found) ↦ rw (found, quarantine_slot) (changed _ w.slot b (λ e. refl))
  ]

  heal-table : (id : ℕ) (s : Reconciling) → (heal gh id s).1.quarantine ≡ s.quarantine
  unfolding heal
  heal-table id s = ground arith

  locked-Built : (w : Wedged) (s : Reconciling) → IsU32 w → HasBuilt s → HasBuilt (locked gh w s).1
  unfolding locked
  locked-Built w s le b =
      let s' : Reconciling = (heal gh w.runner_id s).1 in
      let b' : HasBuilt s' = rw (heal-table w.runner_id s) b in
      elim (Bool-cases (heal gh w.runner_id s).0) [
        | inl healed ↦ rw healed (release-Built w.slot s' b')
        | inr failed ↦
            rw failed (quarantine_slot-Built w (gh.unix_now_secs s'.removals) s'.quarantine le b')
      ]

  reconcile_slot-Built :
      (w : Wedged) (s : Reconciling) → IsU32 w → HasBuilt s → HasBuilt (reconcile_slot gh w s).1
  unfolding reconcile_slot
  reconcile_slot-Built w s le b =
      let s' : Reconciling = record s { removals = w.runner_id ∷ s.removals } in
      elim (Bool-cases (is_quarantined s.quarantine w.slot)) [
        | inl old ↦ rw old b
        | inr new ↦ elim (Result-cases (gh.remove_runner s.removals w.runner_id)) [
          | inl (_, gone) ↦ rw new (rw gone (release-Built w.slot s' b))
          | inr (e, refused) ↦ elim (Bool-cases (is_runner_busy_lock_error e)) [
            | inl busy ↦ rw new (rw refused (rw busy (locked-Built w s' le b)))
            | inr other ↦ rw new (rw refused (rw other b))
          ]
        ]
      ]

  recover_entry-Built :
      (slot : ℕ) (entry : QuarantineEntry) (s : Reconciling)
      → HasBuilt s
      → HasBuilt (recover_entry gh slot entry s).1
  unfolding recover_entry
  recover_entry-Built slot entry s b =
      let s' : Reconciling = record s { removals = entry.runner_id ∷ s.removals } in
      elim (Bool-cases (recoverable gh (find_runner gh.live_runners entry.runner_id))) [
        | inr stuck ↦ rw stuck b
        | inl free ↦ elim (Result-cases (gh.remove_runner s.removals entry.runner_id)) [
          | inl (_, gone) ↦ rw free (rw gone (release-Built slot s' b))
          | inr (e, refused) ↦ elim (Bool-cases (is_runner_busy_lock_error e)) [
            | inl busy ↦ rw free (rw refused (rw busy (changed _ slot b (λ e. refl))))
            | inr other ↦ rw free (rw refused (rw other b))
          ]
        ]
      ]

  recover_slot-Built :
      (slot : ℕ) (s : Reconciling) → HasBuilt s → HasBuilt (recover_slot gh slot s).1
  unfolding recover_slot
  recover_slot-Built slot s b = elim (Option-cases (Quarantine.get s.quarantine slot)) [
    | inl missing ↦ rw (missing, recover_slot) b
    | inr (entry, found) ↦ rw (found, recover_slot) (recover_entry-Built slot entry s b)
  ]

-- The pass changes a table that the daemon built only by the table's own operations; so after it too,
-- the slots kept from the allocator are exactly the quarantined ones.
reconcile-Built :
    (gh : ZombieReadings) (file : SlotAssignments) (quarantine : QuarantineTable) (slot : ℕ)
    → Built quarantine
    → Built (reconcile_offline_busy_zombies gh file quarantine).1.quarantine
      × (contains
            (excluded_slots (reconcile_offline_busy_zombies gh file quarantine).1.quarantine)
            slot
          ≡ is_quarantined (reconcile_offline_busy_zombies gh file quarantine).1.quarantine slot)
reconcile-Built gh file quarantine slot b =
    let built =
      reconcile-inv gh (HasBuilt gh) IsU32 (reconcile_slot-Built gh) (recover_slot-Built gh) file
        quarantine
        (λ names _.
          fresh_slots-IsU32 gh.live_runners gh.runner_prefix names gh.assignments.assignments)
        b in
    (built, (contains-excluded_slots slot built).0)
