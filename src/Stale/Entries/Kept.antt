-- ===== src/Stale/Entries/Kept.antt =====
-- Which slots the pass over the slot file (src/docker_backend.rs) keeps, and which it frees.
use ez_gh_actions.Base.{
  ℕ, ◌+◌, ◌≡◌, refl, ◌∙◌, inl, inr, false, [], ◌∷◌, arith, u32_max, some, Text,
}
use ez_gh_actions.Base.Decimal.{parse_uint}
use ez_gh_actions.Base.Results.{ok, Result-cases}
use ez_gh_actions.BtreeMap.{BtreeMap, AllEntries, weaken-AllEntries}
use ez_gh_actions.Pool.Slots.{SlotAssignments, has_assignment}
use ez_gh_actions.Pool.Slots.Allocation.{has_assignment-release_slot_for}
use ez_gh_actions.Stale.Entries.{
  Observed, Verdict, skipped, kept, grace_skipped, reclaim, judge, Pass, settle, release_from,
  release_stale_slots_from_with_containers_and_activity_for,
  release_stale_slots_from_with_containers_for,
}
use ez_gh_actions.Stale.Entries.Verdicts.{
  reclaims, IsShielded, IsAtWork, with_grace, judge-shielded, judge-IsAtWork,
}

module _ (o : Observed) where
  settle-kept :
      (j k : ℕ) (v : Verdict) (s : Pass)
      → reclaims j v ≡ false
      → has_assignment (settle o k v s).1 j ≡ has_assignment s.slots j
  unfolding settle
  settle-kept j k skipped s away = refl
  settle-kept j k kept s away = refl
  settle-kept j k (grace_skipped slot) s away = refl
  settle-kept j k (reclaim slot rid last reason) s away =
      ground (arith, away, has_assignment-release_slot_for (o.reads k) (o.writes k) slot j s.slots)

  -- a pass that goes on has the slot file that stands on disk
  settle-slots :
      (k : ℕ) (v : Verdict) (s s' : Pass)
      → (settle o k v s).0 ≡ ok s'
      → s'.slots ≡ (settle o k v s).1
  unfolding settle
  settle-slots k skipped s s' e = ground arith
  settle-slots k kept s s' e = ground arith
  settle-slots k (grace_skipped slot) s s' e = ground arith
  settle-slots k (reclaim slot rid last reason) s s' e = ground arith

  release_from-kept :
      (j : ℕ) (entries : BtreeMap Text) (k : ℕ) (s : Pass)
      → AllEntries (λ key id. (k : ℕ) → reclaims j (judge o k key id) ≡ false) entries
      → has_assignment (release_from o entries k s).1 j ≡ has_assignment s.slots j
  unfolding release_from
  release_from-kept j [] k s a = refl
  release_from-kept j ((key, id) ∷ entries) k s (first, a) =
      let here = settle-kept j k (judge o k key id) s (first k) in
      elim (Result-cases (settle o k (judge o k key id) s).0) [
        | inr (e, failed) ↦ rw (failed, release_from) here
        | inl (s', done) ↦
            let same = settle-slots k (judge o k key id) s s' done in
            rw (done, release_from) (release_from-kept j entries (k + 1) s' a ∙ rw same here)
      ]

weaken-shielded :
    (o : Observed) (j : ℕ) (entries : BtreeMap Text)
    → AllEntries (IsShielded o j) entries
    → AllEntries (λ key id. (k : ℕ) → reclaims j (judge (with_grace o) k key id) ≡ false) entries
weaken-shielded o j entries =
    weaken-AllEntries (IsShielded o j)
      (λ key id. (k : ℕ) → reclaims j (judge (with_grace o) k key id) ≡ false) entries
      (λ key id shield k. judge-shielded o j k key id shield)

at_work-kept :
    (o : Observed) (j : ℕ) (entries : BtreeMap Text)
    → AllEntries (λ key id. parse_uint u32_max key ≡ some j → IsAtWork o j key id) entries
    → AllEntries (λ key id. (k : ℕ) → reclaims j (judge (with_grace o) k key id) ≡ false) entries
at_work-kept o j entries =
    weaken-AllEntries (λ key id. parse_uint u32_max key ≡ some j → IsAtWork o j key id)
      (λ key id. (k : ℕ) → reclaims j (judge (with_grace o) k key id) ≡ false) entries
      (λ key id at_work k. judge-IsAtWork o j k key id at_work)

-- A slot is kept where each of its entries is at work.
pub release_stale_slots-IsAtWork :
    (o : Observed) (j : ℕ) (slots : SlotAssignments)
    → AllEntries
        (λ key id. parse_uint u32_max key ≡ some j → IsAtWork o j key id)
        o.assignments.assignments
    → has_assignment (release_stale_slots_from_with_containers_for o slots).1 j
      ≡ has_assignment slots j
unfolding release_stale_slots_from_with_containers_for
    release_stale_slots_from_with_containers_and_activity_for
release_stale_slots-IsAtWork o j slots at_work =
    release_from-kept (with_grace o) j o.assignments.assignments 0
      (record { slots = slots; reclaimed = 0; records = [] })
      (at_work-kept o j o.assignments.assignments at_work)

-- A slot is kept where each of its entries is fresh or active. Fresh: in its grace window all
-- through the pass, with no started container. Active: a registration whose container is listed and
-- on every probe busy or not known to be idle. The live runner with the recorded id, if there is one, must
-- bear the slot's name.
pub release_stale_slots-shielded :
    (o : Observed) (j : ℕ) (slots : SlotAssignments)
    → AllEntries (IsShielded o j) o.assignments.assignments
    → has_assignment (release_stale_slots_from_with_containers_for o slots).1 j
      ≡ has_assignment slots j
unfolding release_stale_slots_from_with_containers_for
    release_stale_slots_from_with_containers_and_activity_for
release_stale_slots-shielded o j slots shields =
    release_from-kept (with_grace o) j o.assignments.assignments 0
      (record { slots = slots; reclaimed = 0; records = [] })
      (weaken-shielded o j o.assignments.assignments shields)

release_from-slots :
    (o : Observed) (entries : BtreeMap Text) (k : ℕ) (s s' : Pass)
    → (release_from o entries k s).0 ≡ ok s'
    → s'.slots ≡ (release_from o entries k s).1
unfolding release_from
release_from-slots o [] k s s' e = ground arith
release_from-slots o ((key, id) ∷ entries) k s s' e =
    elim (Result-cases (settle o k (judge o k key id) s).0) [
      | inr (_, failed) ↦ absurd (ground (arith, failed, e))
      | inl (next, done) ↦
          let e' : (release_from o entries (k + 1) next).0 ≡ ok s' = ground (arith, done, e) in
          rw (done, release_from) (release_from-slots o entries (k + 1) next s' e')
    ]

-- A pass that succeeds returns the slot file as it stands.
pub release_stale_slots-slots :
    (o : Observed) (slots : SlotAssignments) (s : Pass)
    → (release_stale_slots_from_with_containers_for o slots).0 ≡ ok s
    → s.slots ≡ (release_stale_slots_from_with_containers_for o slots).1
unfolding release_stale_slots_from_with_containers_for
    release_stale_slots_from_with_containers_and_activity_for
release_stale_slots-slots o slots s e =
    release_from-slots (with_grace o) o.assignments.assignments 0
      (record { slots = slots; reclaimed = 0; records = [] }) s e
