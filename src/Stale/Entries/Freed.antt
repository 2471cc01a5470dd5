-- ===== src/Stale/Entries/Freed.antt =====
-- What the pass over the slot file (src/docker_backend.rs) frees, where nothing fails.
use ez_gh_actions.Base.{
  ℕ, ◌+◌, ◌≡◌, refl, ◌∙◌, true, false, List, [], ◌∷◌, arith, ◌==◌, if◌then◌else◌, length,
  length-append, ◌++◌, Text,
}
use ez_gh_actions.Base.Decimal.{text_eq-to_string}
use ez_gh_actions.Base.Results.{ok}
use ez_gh_actions.BtreeMap.{BtreeMap, get-remove}
use ez_gh_actions.BtreeMap.Slots.{contains}
use ez_gh_actions.Pool.Slots.{SlotAssignments, has_assignment, release_slot_for}
use ez_gh_actions.Stale.Entries.{
  Observed, Verdict, skipped, kept, grace_skipped, reclaim, judge, Pass, settle, release_from,
  release_stale_slots_from_with_containers_and_activity_for,
}

-- the slot that a verdict frees
abbrev pub freed_by : Verdict → List ℕ
freed_by skipped = []
freed_by kept = []
freed_by (grace_skipped slot) = []
freed_by (reclaim slot rid last reason) = slot ∷ []

-- the slots of the entries that are to be reclaimed, from the `k`-th on
unfoldable pub freed : Observed → BtreeMap Text → ℕ → List ℕ
freed o [] k = []
freed o ((key, id) ∷ entries) k = freed_by (judge o k key id) ++ freed o entries (k + 1)

module _ (o : Observed) (reads : (k : ℕ) → o.reads k ≡ true)
    (writes : (k : ℕ) → o.writes k ≡ true) where
  release_slot_for-ok :
      (slot k : ℕ) (self : SlotAssignments)
      → (release_slot_for (o.reads k) (o.writes k) slot self).0 ≡ ok tt
  unfolding release_slot_for
  release_slot_for-ok slot k self = rw (reads k, writes k) refl

  release_slot_for-frees :
      (slot j k : ℕ) (self : SlotAssignments)
      → has_assignment (release_slot_for (o.reads k) (o.writes k) slot self).1 j
        ≡ (if slot == j then false else has_assignment self j)
  unfolding release_slot_for has_assignment
  release_slot_for-frees slot j k self =
      rw (reads k, writes k) (rw get-remove (rw text_eq-to_string (ground arith)))

  settle-freed :
      (j k : ℕ) (v : Verdict) (s : Pass)
      → (s' : Pass) × ((settle o k v s).0 ≡ ok s')
        × (has_assignment s'.slots j
            ≡ (if contains (freed_by v) j then false else has_assignment s.slots j))
        × (s'.reclaimed ≡ s.reclaimed + length (freed_by v))
        × ((settle o k v s).1 ≡ s'.slots)
  unfolding settle
  settle-freed j k skipped s = (s, refl, refl, omega arith, refl)
  settle-freed j k kept s = (s, refl, refl, omega arith, refl)
  settle-freed j k (grace_skipped slot) s = (_, refl, refl, omega arith, refl)
  settle-freed j k (reclaim slot rid last reason) s = (
    record {
      slots = (release_slot_for (o.reads k) (o.writes k) slot s.slots).1;
      reclaimed = s.reclaimed + 1;
      records =
          record {
            slot = slot;
            runner_id = rid;
            last_run_id = last;
            in_grace = false;
            reason = reason;
          }
          ∷ s.records;
    },
    rw (release_slot_for-ok slot k s.slots, settle) refl,
    release_slot_for-frees slot j k s.slots ∙ ground arith,
    omega arith,
    rw (release_slot_for-ok slot k s.slots, settle) refl,
  )

  release_from-freed :
      (j : ℕ) (entries : BtreeMap Text) (k : ℕ) (s : Pass)
      → (s' : Pass) × ((release_from o entries k s).0 ≡ ok s')
        × (has_assignment s'.slots j
            ≡ (if contains (freed o entries k) j then false else has_assignment s.slots j))
        × (s'.reclaimed ≡ s.reclaimed + length (freed o entries k))
        × ((release_from o entries k s).1 ≡ s'.slots)
  unfolding release_from freed
  release_from-freed j [] k s = (s, refl, refl, omega arith, refl)
  release_from-freed j ((key, id) ∷ entries) k s =
      let (s', done, assigned, count, same) = settle-freed j k (judge o k key id) s in
      let (s'', done', assigned', count', same') = release_from-freed j entries (k + 1) s' in
      (
        s'',
        rw (done, release_from) done',
        assigned' ∙ rw assigned (ground arith),
        omega (
          arith,
          count,
          count',
          length-append (freed_by (judge o k key id)) (freed o entries (k + 1)),
        ),
        rw (done, release_from) same',
      )

-- Where the slot file can be read and written throughout, the pass succeeds, counts exactly the entries
-- that are to be reclaimed, frees exactly their slots, and leaves all others as they were.
pub release_stale_slots-freed :
    (o : Observed) (j : ℕ) (slots : SlotAssignments)
    → ((k : ℕ) → o.reads k ≡ true)
    → ((k : ℕ) → o.writes k ≡ true)
    → (s : Pass) × ((release_stale_slots_from_with_containers_and_activity_for o slots).0 ≡ ok s)
      × (has_assignment s.slots j ≡ (
          if contains (freed o o.assignments.assignments 0) j
          then false
          else has_assignment slots j))
      × (s.reclaimed ≡ length (freed o o.assignments.assignments 0))
      × ((release_stale_slots_from_with_containers_and_activity_for o slots).1 ≡ s.slots)
unfolding release_stale_slots_from_with_containers_and_activity_for
release_stale_slots-freed o j slots reads writes =
    let (s, done, assigned, count, same) =
      release_from-freed o reads writes j o.assignments.assignments 0
        (record { slots = slots; reclaimed = 0; records = [] }) in
    (s, done, assigned, omega (arith, count), same)
