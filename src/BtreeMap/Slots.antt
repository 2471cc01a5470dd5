-- ===== src/BtreeMap/Slots.antt =====
-- Maps whose keys are the decimal texts of slot numbers, as the daemon's state files hold them.
use ez_gh_actions.Base.{
  ℕ, ◌≤◌, ◌≡◌, refl, Bool, true, none, some, List, [], ◌∷◌, arith, ◌==◌, ==_iff, if◌then◌else◌,
  is_some, is_some_and, u32_max, Bool-cases, inl, inr, any, all, length, retain, Text,
}
use ez_gh_actions.Base.Decimal.{to_string, parse_uint, parse_uint-to_string, text_eq-to_string}
use ez_gh_actions.BtreeMap.{
  BtreeMap, IsSorted, AllKeys, get-AllAbove, insert-AllEntries, remove-AllEntries,
  map_values-AllEntries, insert-IsSorted, remove-IsSorted, map_values-IsSorted, get, insert, remove,
  map_values, values, keys,
}

-- a key that the code itself writes
abbrev pub IsSlotKey : Text → Type 0
IsSlotKey key = (slot : ℕ) × (key ≡ to_string slot) × (slot ≤ u32_max)

pub record IsSlotMap {ℓ} {V : Type ℓ} (m : BtreeMap V) : Type 0 where
  pub sorted : IsSorted m
  pub keyed : AllKeys IsSlotKey m

-- `HashSet::contains`
abbrev pub contains : List ℕ → ℕ → Bool
contains slots slot = any (λ s. s == slot) slots

module _ {ℓ} {V : Type ℓ} where
  pub nil-IsSlotMap : IsSlotMap {V = V} []
  nil-IsSlotMap = record { sorted = tt; keyed = tt }

  pub insert-IsSlotMap :
      (slot : ℕ) (v : V) (m : BtreeMap V)
      → slot ≤ u32_max
      → IsSlotMap m
      → IsSlotMap (insert (to_string slot) v m)
  insert-IsSlotMap slot v m le w = record {
    sorted = insert-IsSorted (to_string slot) v m w.sorted;
    keyed = insert-AllEntries (λ k _. IsSlotKey k) (to_string slot) v m (slot, refl, le) w.keyed;
  }

  pub remove-IsSlotMap :
      (slot : ℕ) (m : BtreeMap V) → IsSlotMap m → IsSlotMap (remove (to_string slot) m)
  remove-IsSlotMap slot m w = record {
    sorted = remove-IsSorted (to_string slot) m w.sorted;
    keyed = remove-AllEntries (λ k _. IsSlotKey k) (to_string slot) m w.keyed;
  }

  pub map_values-IsSlotMap : (f : V → V) (m : BtreeMap V) → IsSlotMap m → IsSlotMap (map_values f m)
  map_values-IsSlotMap f m w = record {
    sorted = map_values-IsSorted f m w.sorted;
    keyed =
        map_values-AllEntries (λ k _. IsSlotKey k) (λ k _. IsSlotKey k) f m (λ k v h. h) w.keyed;
  }

  -- the slots of the entries that pass a test, by the keys that parse as a `u32`
  unfoldable pub slots_where : (V → Bool) → BtreeMap V → List ℕ
  slots_where p [] = []
  slots_where p ((key, v) ∷ m) =
      let rest = slots_where p m in
      if p v
      then (elim (parse_uint u32_max key) [ none ↦ rest | some slot ↦ slot ∷ rest ])
      else rest

  contains-entries :
      (p : V → Bool) (slot : ℕ) (m : BtreeMap V)
      → IsSorted m
      → AllKeys IsSlotKey m
      → contains (slots_where p m) slot ≡ is_some_and (get (to_string slot) m) p
  unfolding slots_where get
  contains-entries p slot [] s k = refl
  contains-entries p slot ((key, v) ∷ m) s ((here, e, le), k) =
      let rest : contains (slots_where p m) slot ≡ is_some_and (get (to_string slot) m) p =
        contains-entries p slot m s.1 k in
      rw e (
        rw (parse_uint-to_string u32_max here le) (
          rw (text_eq-to_string here slot) (elim (Bool-cases (here == slot)) [
            | inl q ↦
                let absent : get (to_string slot) m ≡ none =
                  rw (← (==_iff here slot).0 q) (rw (← e) (get-AllAbove key m s.0)) in
                ground (arith, absent)
            | inr q ↦ ground arith
          ])))

  -- A slot is listed exactly if its entry passes the test.
  pub contains-slots_where :
      (p : V → Bool) (slot : ℕ) (m : BtreeMap V)
      → IsSlotMap m
      → contains (slots_where p m) slot ≡ is_some_and (get (to_string slot) m) p
  contains-slots_where p slot m w = contains-entries p slot m w.sorted w.keyed

  pub length-slots_where :
      (p : V → Bool) (m : BtreeMap V)
      → AllKeys IsSlotKey m
      → length (slots_where p m) ≡ length (retain p (values m))
  unfolding slots_where values
  length-slots_where p [] k = refl
  length-slots_where p ((key, v) ∷ m) ((here, e, le), k) =
      rw e (rw (parse_uint-to_string u32_max here le) (ground (arith, length-slots_where p m k)))

  -- Every key parses as a `u32`.
  pub AllKeys-parse :
      (m : BtreeMap V)
      → AllKeys IsSlotKey m
      → all (λ key. is_some (parse_uint u32_max key)) (keys m) ≡ true
  unfolding keys
  AllKeys-parse [] k = refl
  AllKeys-parse ((key, v) ∷ m) ((slot, e, le), k) =
      rw e (rw (parse_uint-to_string u32_max slot le) (AllKeys-parse m k))
