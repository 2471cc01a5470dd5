-- ===== src/Pool/Drain/Live.antt =====
-- What a shutdown's drain (src/docker_backend.rs) leaves alone.
use ez_gh_actions.Base.{
  ℕ, ◌+◌, ◌≡◌, refl, inl, inr, Bool, true, false, not, some, List, [], ◌∷◌, arith, ◌==◌, ==_iff,
  all, u32_max, Text, text_eq, Bool-cases, Option-cases,
}
use ez_gh_actions.Base.Decimal.{parse_uint}
use ez_gh_actions.BtreeMap.{BtreeMap, AllEntries}
use ez_gh_actions.Pool.Memory.{has}
use ez_gh_actions.Pool.Released.{runner_name_for}
use ez_gh_actions.Pool.Slots.{SlotAssignments, has_assignment}
use ez_gh_actions.Pool.Slots.Allocation.{has_assignment-release_slot_for}
use ez_gh_actions.Pool.Drain.{
  no_drain, Exit, Drain, Entry, not_a_slot, unclear, live, reservation, orphan, registration, entry,
  drain_reservation, drain_orphan, drain_entry, drain_from, drain_inflight_registrations_inner,
}

-- whether an entry's step may change what stands for slot `j`
abbrev touches : ℕ → Entry → Bool
touches j not_a_slot = false
touches j unclear = false
touches j live = false
touches j (reservation slot) = slot == j
touches j (orphan slot runner_id) = slot == j

module _ (j : ℕ) (held : Bool) where
  -- slot `j` is assigned as it was, and no removal was asked for it
  record IsSpared (s : Drain) : Type 0 where
    kept : has_assignment s.slots j ≡ held
    uncalled : all (λ call. not (call.0 == j)) s.calls ≡ true

  drain_entry-IsSpared :
      (exit : Exit) (k : ℕ) (e : Entry) (s : Drain)
      → touches j e ≡ false
      → IsSpared s
      → IsSpared (drain_entry exit k e s)
  unfolding drain_entry drain_reservation drain_orphan
  drain_entry-IsSpared exit k not_a_slot s away i = i
  drain_entry-IsSpared exit k unclear s away i = record { kept = i.kept; uncalled = i.uncalled }
  drain_entry-IsSpared exit k live s away i = record { kept = i.kept; uncalled = i.uncalled }
  drain_entry-IsSpared exit k (reservation slot) s away i =
      let same =
        has_assignment-release_slot_for (exit.reads k) (exit.writes k) slot j s.slots away in
      record { kept = ground (arith, i.kept, same); uncalled = ground (arith, i.uncalled) }
  drain_entry-IsSpared exit k (orphan slot runner_id) s away i =
      let same =
        has_assignment-release_slot_for (exit.reads k) (exit.writes k) slot j s.slots away in
      record { kept = ground (arith, i.kept, same); uncalled = ground (arith, i.uncalled, away) }

module _ (exit : Exit) (j : ℕ)
    (running : (names : List Text)
      → exit.container_names ≡ some names
      → has names (runner_name_for exit.name_prefix j) ≡ true) where
  registration-spared : (slot : ℕ) (id : Text) → touches j (registration exit slot id) ≡ false
  unfolding registration
  registration-spared slot id = elim (Option-cases exit.container_names) [
    | inl unlisted ↦ ground (arith, unlisted)
    | inr (names, listed) ↦ elim (Bool-cases (slot == j)) [
      | inr other ↦ ground (arith, other, listed)
      | inl same ↦
          let at_j : slot ≡ j = (==_iff slot j).0 same in
          rw at_j (ground (arith, listed, running names listed))
    ]
  ]

  entry-spared :
      (key id : Text)
      → (parse_uint u32_max key ≡ some j → text_eq id [] ≡ false)
      → touches j (entry exit key id) ≡ false
  unfolding entry
  entry-spared key id registered = elim (Option-cases (parse_uint u32_max key)) [
    | inl e ↦ ground (arith, e)
    | inr (slot, e) ↦ ground (arith, e, registered, ==_iff slot j, registration-spared slot id)
  ]

  drain_from-IsSpared :
      (held : Bool) (entries : BtreeMap Text) (k : ℕ) (s : Drain)
      → AllEntries (λ key id. parse_uint u32_max key ≡ some j → text_eq id [] ≡ false) entries
      → IsSpared j held s
      → IsSpared j held (drain_from exit entries k s)
  unfolding drain_from
  drain_from-IsSpared held [] k s registered i = i
  drain_from-IsSpared held ((key, id) ∷ entries) k s (first, others) i =
      drain_from-IsSpared held entries (k + 1) (drain_entry exit k (entry exit key id) s) others
        (drain_entry-IsSpared j held exit k (entry exit key id) s (entry-spared key id first) i)

-- A runner whose container may be there survives the shutdown: where the slot's entry holds a
-- registration, and its container is listed or the containers could not be listed at all, GitHub is not
-- asked to remove its runner, and the slot stays assigned.
pub drain-live :
    (exit : Exit) (j : ℕ) (readable : Bool) (slots : SlotAssignments)
    → ((names : List Text)
        → exit.container_names ≡ some names
        → has names (runner_name_for exit.name_prefix j) ≡ true)
    → AllEntries
        (λ key id. parse_uint u32_max key ≡ some j → text_eq id [] ≡ false)
        slots.assignments
    → (has_assignment (drain_inflight_registrations_inner exit readable slots).slots j
        ≡ has_assignment slots j)
      × (all
            (λ call. not (call.0 == j))
            (drain_inflight_registrations_inner exit readable slots).calls
          ≡ true)
unfolding drain_inflight_registrations_inner
drain-live exit j true slots running registered =
    let i =
      drain_from-IsSpared exit j running (has_assignment slots j) slots.assignments 0
        (record { summary = no_drain; slots = slots; calls = [] }) registered
        (record { kept = refl; uncalled = refl }) in
    (i.kept, i.uncalled)
drain-live exit j false slots running registered = (refl, refl)
