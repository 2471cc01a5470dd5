-- ===== src/BtreeMap.antt =====
-- `BTreeMap<String, V>` of the standard library: entries in the order of their keys.
pub mod Slots
use ez_gh_actions.Base.{
  Bool-cases, inl, inr, ℕ, suc, ◌+◌, ◌≤◌, ◌≡◌, refl, ap, Bool, true, false, Option, none, some,
  List, [], ◌∷◌, arith, Text, map, text_eq, text_eq_iff, text_eq_refl, if◌then◌else◌, length, ◌≢◌,
  retain, is_some, map_option, ◌&&◌,
}
use ez_gh_actions.Base.Texts.{text_lt, text_lt_irrefl, text_lt_trans, text_lt_total}

abbrev pub BtreeMap {ℓ} : Type ℓ → Type ℓ
BtreeMap V = List (Text × V)

module _ {ℓ} {V : Type ℓ} where
  unfoldable pub get : Text → BtreeMap V → Option V
  get k [] = none
  get k ((j, v) ∷ m) = if text_eq j k then some v else get k m

  unfoldable pub insert : Text → V → BtreeMap V → BtreeMap V
  insert k v [] = (k, v) ∷ []
  insert k v ((j, w) ∷ m) =
      if text_eq j k
      then (j, v) ∷ m
      else if text_lt k j
      then (k, v) ∷ (j, w) ∷ m
      else (j, w) ∷ insert k v m

  unfoldable pub remove : Text → BtreeMap V → BtreeMap V
  remove k [] = []
  remove k ((j, v) ∷ m) = if text_eq j k then remove k m else (j, v) ∷ remove k m

  unfoldable pub values : BtreeMap V → List V
  values [] = []
  values ((j, v) ∷ m) = v ∷ values m

  unfoldable pub keys : BtreeMap V → List Text
  keys [] = []
  keys ((j, v) ∷ m) = j ∷ keys m

  -- a loop over `values_mut()` that applies `f` to every value
  unfoldable pub map_values : (V → V) → BtreeMap V → BtreeMap V
  map_values f [] = []
  map_values f ((j, v) ∷ m) = (j, f v) ∷ map_values f m

  pub get-insert :
      (k j : Text) (v : V) (m : BtreeMap V)
      → get j (insert k v m) ≡ (if text_eq k j then some v else get j m)
  unfolding get insert
  get-insert k j v [] = refl
  get-insert k j v ((i, w) ∷ m) =
      ground (arith, get-insert k j v m, text_eq_iff i k, text_eq_iff i j, text_eq_iff k j)

  pub get-remove :
      (k j : Text) (m : BtreeMap V) → get j (remove k m) ≡ (if text_eq k j then none else get j m)
  unfolding get remove
  get-remove k j [] = ground arith
  get-remove k j ((i, w) ∷ m) =
      ground (arith, get-remove k j m, text_eq_iff i k, text_eq_iff i j, text_eq_iff k j)

  pub get-map_values :
      (f : V → V) (j : Text) (m : BtreeMap V) → get j (map_values f m) ≡ map_option f (get j m)
  unfolding get map_values
  get-map_values f j [] = refl
  get-map_values f j ((i, w) ∷ m) = ground (arith, get-map_values f j m)

  -- keys strictly ascending, which the map maintains
  abbrev pub AllAbove : Text → BtreeMap V → Type 0
  AllAbove k [] = Unit
  AllAbove k ((j, v) ∷ m) = (text_lt k j ≡ true) × AllAbove k m

  abbrev pub IsSorted : BtreeMap V → Type 0
  IsSorted [] = Unit
  IsSorted ((j, v) ∷ m) = AllAbove j m × IsSorted m

  AllAbove-trans : (i k : Text) (m : BtreeMap V) → text_lt i k ≡ true → AllAbove k m → AllAbove i m
  AllAbove-trans i k [] h a = tt
  AllAbove-trans i k ((j, v) ∷ m) h a = (text_lt_trans i k j h a.0, AllAbove-trans i k m h a.1)

  AllAbove-insert :
      (i k : Text) (v : V) (m : BtreeMap V)
      → text_lt i k ≡ true
      → AllAbove i m
      → AllAbove i (insert k v m)
  unfolding insert
  AllAbove-insert i k v [] h a = (h, tt)
  AllAbove-insert i k v ((j, w) ∷ m) h a = ground (arith, AllAbove-insert i k v m)

  pub insert-IsSorted : (k : Text) (v : V) (m : BtreeMap V) → IsSorted m → IsSorted (insert k v m)
  unfolding insert
  insert-IsSorted k v [] s = (tt, tt)
  insert-IsSorted k v ((j, w) ∷ m) s = ground (
    arith,
    insert-IsSorted k v m,
    text_lt_total j k,
    AllAbove-insert j k v m,
    AllAbove-trans k j m,
  )

  AllAbove-remove : (i k : Text) (m : BtreeMap V) → AllAbove i m → AllAbove i (remove k m)
  unfolding remove
  AllAbove-remove i k [] a = tt
  AllAbove-remove i k ((j, w) ∷ m) a = ground (arith, AllAbove-remove i k m)

  pub remove-IsSorted : (k : Text) (m : BtreeMap V) → IsSorted m → IsSorted (remove k m)
  unfolding remove
  remove-IsSorted k [] s = tt
  remove-IsSorted k ((j, w) ∷ m) s = ground (arith, remove-IsSorted k m, AllAbove-remove j k m)

  AllAbove-map_values :
      (f : V → V) (i : Text) (m : BtreeMap V) → AllAbove i m → AllAbove i (map_values f m)
  unfolding map_values
  AllAbove-map_values f i [] a = tt
  AllAbove-map_values f i ((j, w) ∷ m) a = (a.0, AllAbove-map_values f i m a.1)

  pub map_values-IsSorted : (f : V → V) (m : BtreeMap V) → IsSorted m → IsSorted (map_values f m)
  unfolding map_values
  map_values-IsSorted f [] s = tt
  map_values-IsSorted f ((j, w) ∷ m) s =
      (AllAbove-map_values f j m s.0, map_values-IsSorted f m s.1)

  pub get-AllAbove : (k : Text) (m : BtreeMap V) → AllAbove k m → get k m ≡ none
  unfolding get
  get-AllAbove k [] a = refl
  get-AllAbove k ((j, w) ∷ m) a =
      ground (arith, get-AllAbove k m, text_eq_iff j k, text_lt_irrefl k)

  -- a predicate that holds of every entry
  abbrev pub AllEntries : (Text → V → Type 0) → BtreeMap V → Type 0
  AllEntries P [] = Unit
  AllEntries P ((j, v) ∷ m) = P j v × AllEntries P m

  pub insert-AllEntries :
      (P : Text → V → Type 0) (k : Text) (v : V) (m : BtreeMap V)
      → P k v
      → AllEntries P m
      → AllEntries P (insert k v m)
  unfolding insert
  insert-AllEntries P k v [] h a = (h, tt)
  insert-AllEntries P k v ((j, w) ∷ m) h a = elim (Bool-cases (text_eq j k)) [
    | inl e ↦ let same : j ≡ k = (text_eq_iff j k).0 e in rw e ((rw same h), a.1)
    | inr e ↦ elim (Bool-cases (text_lt k j)) [
      | inl f ↦ rw e (rw f (h, a))
      | inr f ↦ rw e (rw f (a.0, insert-AllEntries P k v m h a.1))
    ]
  ]

  pub remove-AllEntries :
      (P : Text → V → Type 0) (k : Text) (m : BtreeMap V)
      → AllEntries P m
      → AllEntries P (remove k m)
  unfolding remove
  remove-AllEntries P k [] a = tt
  remove-AllEntries P k ((j, w) ∷ m) a = elim (Bool-cases (text_eq j k)) [
    | inl e ↦ rw e (remove-AllEntries P k m a.1)
    | inr e ↦ rw e (a.0, remove-AllEntries P k m a.1)
  ]

  pub map_values-AllEntries :
      (P Q : Text → V → Type 0) (f : V → V) (m : BtreeMap V)
      → ((k : Text) (v : V) → P k v → Q k (f v))
      → AllEntries P m
      → AllEntries Q (map_values f m)
  unfolding map_values
  map_values-AllEntries P Q f [] h a = tt
  map_values-AllEntries P Q f ((j, w) ∷ m) h a = (h j w a.0, map_values-AllEntries P Q f m h a.1)

  pub weaken-AllEntries :
      (P Q : Text → V → Type 0) (m : BtreeMap V)
      → ((k : Text) (v : V) → P k v → Q k v)
      → AllEntries P m
      → AllEntries Q m
  weaken-AllEntries P Q [] h a = tt
  weaken-AllEntries P Q ((j, w) ∷ m) h a = (h j w a.0, weaken-AllEntries P Q m h a.1)

  pub get-AllEntries :
      (P : Text → V → Type 0) (k : Text) (m : BtreeMap V) (v : V)
      → AllEntries P m
      → get k m ≡ some v
      → P k v
  unfolding get
  get-AllEntries P k [] v a e = absurd (cc)
  get-AllEntries P k ((j, w) ∷ m) v a e = elim (Bool-cases (text_eq j k)) [
    | inl f ↦
        let key : j ≡ k = (text_eq_iff j k).0 f in
        let same : w ≡ v = ground arith in rw (← key) (rw (← same) a.0)
    | inr f ↦ get-AllEntries P k m v a.1 (ground arith)
  ]

  abbrev pub AllValues : (V → Type 0) → BtreeMap V → Type 0
  AllValues P = AllEntries (λ _ v. P v)

  abbrev pub AllKeys : (Text → Type 0) → BtreeMap V → Type 0
  AllKeys P = AllEntries (λ k _. P k)
