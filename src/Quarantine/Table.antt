-- ===== src/Quarantine/Table.antt =====
-- The operations of src/quarantine.rs on the table, and the exclusions that the allocator reads.
use ez_gh_actions.Base.{
  ℕ, ◌≤◌, ◌≡◌, refl, sym, ap, ◌∙◌, true, Option, none, some, [], ◌∷◌, arith, is_some, is_some_and,
  u32_max, Option-cases, inl, inr, map, Text,
}
use ez_gh_actions.Base.Decimal.{to_string, to_string-injective, text_eq-to_string}
use ez_gh_actions.BtreeMap
use ez_gh_actions.BtreeMap.{
  BtreeMap, AllEntries, IsSorted, get-insert, get-remove, insert-AllEntries, remove-AllEntries,
  get-AllEntries, get-AllAbove,
}
use ez_gh_actions.BtreeMap.Slots.{
  IsSlotMap, nil-IsSlotMap, insert-IsSlotMap, remove-IsSlotMap, contains, contains-slots_where,
}
use ez_gh_actions.Quarantine.{
  QuarantineEntry, QuarantineTable, empty, is_quarantined, slots, upsert, remove, get_mut,
  excluded_slots,
}

-- an entry stands under the text of its own slot, a `u32`
abbrev pub IsKeyed : Text → QuarantineEntry → Type 0
IsKeyed key entry = (key ≡ to_string entry.slot) × (entry.slot ≤ u32_max)

pub record IsConsistent (t : QuarantineTable) : Type 0 where
  pub slots : IsSlotMap t.entries
  pub keyed : AllEntries IsKeyed t.entries

-- What the daemon does to a table: `get_mut` is used to change an entry and not its slot.
pub data Built : QuarantineTable → Type 0 where
  new : Built empty
  upserted :
      {t : QuarantineTable} (e : QuarantineEntry) → Built t → e.slot ≤ u32_max → Built (upsert e t)
  removed : {t : QuarantineTable} (slot : ℕ) → Built t → Built (remove slot t).0
  changed :
      {t : QuarantineTable} (f : QuarantineEntry → QuarantineEntry) (slot : ℕ)
      → Built t
      → ((e : QuarantineEntry) → (f e).slot ≡ e.slot)
      → Built (get_mut f slot t)

upsert-IsConsistent :
    (e : QuarantineEntry) (t : QuarantineTable)
    → e.slot ≤ u32_max
    → IsConsistent t
    → IsConsistent (upsert e t)
unfolding upsert
upsert-IsConsistent e t le c = record {
  slots = insert-IsSlotMap e.slot e t.entries le c.slots;
  keyed = insert-AllEntries IsKeyed (to_string e.slot) e t.entries (refl, le) c.keyed;
}

remove-IsConsistent :
    (slot : ℕ) (t : QuarantineTable) → IsConsistent t → IsConsistent (remove slot t).0
unfolding remove
remove-IsConsistent slot t c = record {
  slots = remove-IsSlotMap slot t.entries c.slots;
  keyed = remove-AllEntries IsKeyed (to_string slot) t.entries c.keyed;
}

module _ (f : QuarantineEntry → QuarantineEntry) (slot : ℕ) (t : QuarantineTable) where
  get_mut-none : BtreeMap.get (to_string slot) t.entries ≡ none → get_mut f slot t ≡ t
  unfolding get_mut
  get_mut-none e = rw (e, get_mut)

  get_mut-some :
      (entry : QuarantineEntry)
      → BtreeMap.get (to_string slot) t.entries ≡ some entry
      → get_mut f slot t
        ≡ (record { entries = BtreeMap.insert (to_string slot) (f entry) t.entries })
  unfolding get_mut
  get_mut-some entry e = rw (e, get_mut)

get_mut-IsConsistent :
    (f : QuarantineEntry → QuarantineEntry) (slot : ℕ) (t : QuarantineTable)
    → ((e : QuarantineEntry) → (f e).slot ≡ e.slot)
    → IsConsistent t
    → IsConsistent (get_mut f slot t)
get_mut-IsConsistent f slot t keeps c =
    elim (Option-cases (BtreeMap.get (to_string slot) t.entries)) [
      | inl e ↦ rw (get_mut-none f slot t e) c
      | inr (entry, e) ↦
          let (key, le) = get-AllEntries IsKeyed (to_string slot) t.entries entry c.keyed e in
          let same : slot ≡ entry.slot = to_string-injective slot entry.slot key in
          rw (get_mut-some f slot t entry e) (record {
            slots = insert-IsSlotMap slot (f entry) t.entries (rw same le) c.slots;
            keyed =
                insert-AllEntries IsKeyed (to_string slot) (f entry) t.entries
                  (key ∙ ap to_string (sym (keeps entry)), rw (keeps entry) le) c.keyed;
          })
    ]

-- Every table that the daemon builds keeps each entry under the text of its own slot, once.
Built-IsConsistent : {t : QuarantineTable} → Built t → IsConsistent t
Built-IsConsistent new = record { slots = nil-IsSlotMap; keyed = tt }
Built-IsConsistent (upserted {t} e b le) = upsert-IsConsistent e t le (Built-IsConsistent b)
Built-IsConsistent (removed {t} slot b) = remove-IsConsistent slot t (Built-IsConsistent b)
Built-IsConsistent (changed {t} f slot b keeps) =
    get_mut-IsConsistent f slot t keeps (Built-IsConsistent b)

contains-slots_entries :
    (slot : ℕ) (m : BtreeMap QuarantineEntry)
    → IsSorted m
    → AllEntries IsKeyed m
    → contains (map (λ e. e.slot) (BtreeMap.values m)) slot
      ≡ is_some (BtreeMap.get (to_string slot) m)
unfolding BtreeMap.values BtreeMap.get
contains-slots_entries slot [] s k = refl
contains-slots_entries slot ((key, e) ∷ m) s ((q, le), k) =
    rw q (rw (text_eq-to_string e.slot slot) (ground (arith, contains-slots_entries slot m s.1 k)))

is_some_and-true : (o : Option QuarantineEntry) → is_some_and o (λ _. true) ≡ is_some o
is_some_and-true none = refl
is_some_and-true (some e) = refl

-- In a table that the daemon built, the slots kept from the allocator and the slots that the
-- reconcile pass walks are both exactly the quarantined ones.
pub contains-excluded_slots :
    {t : QuarantineTable} (slot : ℕ)
    → Built t
    → (contains (excluded_slots t) slot ≡ is_quarantined t slot)
      × (contains (slots t) slot ≡ is_quarantined t slot)
unfolding excluded_slots is_quarantined slots
contains-excluded_slots {t} slot b =
    let c = Built-IsConsistent b in
    (
      contains-slots_where (λ _. true) slot t.entries c.slots
          ∙ is_some_and-true (BtreeMap.get (to_string slot) t.entries),
      contains-slots_entries slot t.entries c.slots.sorted c.keyed,
    )
