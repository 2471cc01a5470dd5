-- ===== src/Pool/Slots/Allocation.antt =====
-- What `next_slot_excluding` of src/docker_backend.rs allocates, and what a release frees.
use ez_gh_actions.Base.{
  ℕ, zero, suc, ◌+◌, ◌≤◌, ◌<◌, ◌≡◌, refl, ◌⊎◌, inl, inr, Bool, true, false, ◌||◌, none, some, List,
  arith, ◌==◌, ==_iff, Bool-cases, Option-cases,
}
use ez_gh_actions.Base.Decimal.{to_string, text_eq-to_string}
use ez_gh_actions.Base.Results.{ok}
use ez_gh_actions.BtreeMap
use ez_gh_actions.BtreeMap.{get-insert, get-remove}
use ez_gh_actions.Pool.Slots.{
  SlotAssignments, has_assignment, is_free, first_free, reserve, next_slot_excluding,
  release_slot_for,
}

module _ (excluded quarantined : List ℕ) (self : SlotAssignments) where
  -- the first slot of the range that is free
  first_free-some :
      (left slot s : ℕ)
      → first_free excluded quarantined self left slot ≡ some s
      → (slot ≤ s)
        × (s < slot + left)
        × (is_free excluded quarantined self s ≡ true)
        × ((j : ℕ) → slot ≤ j → j < s → is_free excluded quarantined self j ≡ false)
  unfolding first_free
  first_free-some zero slot s h = absurd (cc)
  first_free-some (suc left) slot s h = elim (Bool-cases (is_free excluded quarantined self slot)) [
    | inl e ↦
        let same : slot ≡ s = ground arith in
        (omega arith, omega arith, rw (← same) e, λ j le lt. absurd (omega arith))
    | inr e ↦
        let (low, high, free, before) = first_free-some left (slot + 1) s (ground arith) in
        (
          omega arith,
          omega arith,
          free,
          λ j le lt. elim (Bool-cases (slot == j)) [
            | inl q ↦ rw (← (==_iff slot j).0 q) e
            | inr q ↦ before j (ground arith) lt
          ],
        )
  ]

  first_free-none :
      (left slot : ℕ)
      → first_free excluded quarantined self left slot ≡ none
      → (j : ℕ) → slot ≤ j
      → j < slot + left
      → is_free excluded quarantined self j ≡ false
  unfolding first_free
  first_free-none zero slot h j le lt = absurd (omega arith)
  first_free-none (suc left) slot h j le lt =
      elim (Bool-cases (is_free excluded quarantined self slot)) [
        | inl e ↦ absurd (ground arith)
        | inr e ↦ elim (Bool-cases (slot == j)) [
          | inl q ↦ rw (← (==_iff slot j).0 q) e
          | inr q ↦ first_free-none left (slot + 1) (ground arith) j (ground arith) (omega arith)
        ]
      ]

-- An allocated slot is in range, and neither excluded, quarantined nor assigned.
pub next_slot_excluding-some :
    (count : ℕ) (excluded quarantined : List ℕ) (now : ℕ) (reads writes : Bool)
    (self : SlotAssignments) (s : ℕ)
    → (next_slot_excluding count excluded quarantined now reads writes self).0 ≡ ok (some s)
    → (1 ≤ s) × (s ≤ count) × (is_free excluded quarantined self s ≡ true)
unfolding next_slot_excluding
next_slot_excluding-some count excluded quarantined now reads writes self s h =
    elim (Option-cases (first_free excluded quarantined self count 1)) [
      | inl e ↦ absurd (ground (arith, e, h))
      | inr (r, e) ↦
          let (low, high, free, _) = first_free-some excluded quarantined self count 1 r e in
          let same : r ≡ s = ground (arith, e, h) in rw (← same) (low, omega arith, free)
    ]

has_assignment-reserve :
    (slot now j : ℕ) (self : SlotAssignments)
    → has_assignment (reserve slot now self) j ≡ (slot == j || has_assignment self j)
unfolding has_assignment reserve
has_assignment-reserve slot now j self = rw get-insert (rw text_eq-to_string (ground arith))

-- `next_slot_excluding` returns the least slot of 1..=count that is neither excluded, nor
-- quarantined, nor assigned, and reserves it and no other; it returns none only if there is no
-- such slot.
pub next_slot_excluding_lem :
    (count : ℕ) (excluded quarantined : List ℕ) (now : ℕ) (self : SlotAssignments)
    → 0 < count
    → let (result, self') = next_slot_excluding count excluded quarantined now true true self in
      (result ≡ ok none
        × self' ≡ self
        × ((j : ℕ) → 1 ≤ j → j ≤ count → is_free excluded quarantined self j ≡ false))
      ⊎ ((s : ℕ) × (result ≡ ok (some s))
          × (1 ≤ s)
          × (s ≤ count)
          × (is_free excluded quarantined self s ≡ true)
          × ((j : ℕ) → 1 ≤ j → j < s → is_free excluded quarantined self j ≡ false)
          × ((j : ℕ) → has_assignment self' j ≡ (s == j || has_assignment self j)))
unfolding next_slot_excluding
next_slot_excluding_lem count excluded quarantined now self pos =
    let nonzero : (count == 0) ≡ false = ground arith in
    elim (Option-cases (first_free excluded quarantined self count 1)) [
      | inl e ↦ rw nonzero (
          rw (e, next_slot_excluding)
            (inl (
              refl,
              refl,
              λ j low high. first_free-none excluded quarantined self count 1 e j low (omega arith),
            )))
      | inr (s, e) ↦
          let (low, high, free, before) = first_free-some excluded quarantined self count 1 s e in
          rw nonzero (
            rw (e, next_slot_excluding)
              (inr (
                s,
                refl,
                low,
                omega arith,
                free,
                before,
                λ j. has_assignment-reserve s now j self,
              )))
    ]

-- A release, whatever its result, leaves every other slot assigned as it was.
pub has_assignment-release_slot_for :
    (reads writes : Bool) (slot j : ℕ) (self : SlotAssignments)
    → (slot == j) ≡ false
    → has_assignment (release_slot_for reads writes slot self).1 j ≡ has_assignment self j
unfolding release_slot_for has_assignment
has_assignment-release_slot_for reads writes slot j self other = ground (
  arith,
  other,
  get-remove (to_string slot) (to_string j) self.assignments,
  text_eq-to_string slot j,
)
