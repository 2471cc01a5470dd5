-- ===== src/Quarantine/Lookup.antt =====
-- What the operations of src/quarantine.rs leave at a slot.
use ez_gh_actions.Base.{
  ℕ, ◌≡◌, refl, none, some, arith, ◌==◌, ==_iff, if◌then◌else◌, map_option, Bool-cases,
  Option-cases, inl, inr,
}
use ez_gh_actions.Base.Decimal.{to_string, text_eq-to_string}
use ez_gh_actions.BtreeMap
use ez_gh_actions.BtreeMap.{get-insert, get-remove}
use ez_gh_actions.Quarantine.{QuarantineEntry, QuarantineTable, get, upsert, remove, get_mut}

module _ (slot j : ℕ) (t : QuarantineTable) where
  pub get-upsert :
      (e : QuarantineEntry) → get (upsert e t) j ≡ (if e.slot == j then some e else get t j)
  unfolding get upsert
  get-upsert e =
      ground
        (arith, get-insert (to_string e.slot) (to_string j) e t.entries, text_eq-to_string e.slot j)

  pub get-removed : get (remove slot t).0 j ≡ (if slot == j then none else get t j)
  unfolding get remove
  get-removed =
      ground (arith, get-remove (to_string slot) (to_string j) t.entries, text_eq-to_string slot j)

  pub get-get_mut :
      (f : QuarantineEntry → QuarantineEntry)
      → get (get_mut f slot t) j ≡ (if slot == j then map_option f (get t j) else get t j)
  unfolding get get_mut
  get-get_mut f = elim (Option-cases (BtreeMap.get (to_string slot) t.entries)) [
    | inl e ↦ elim (Bool-cases (slot == j)) [
      | inr other ↦ rw (e, get_mut) (ground (arith, other))
      | inl same ↦
          let at_j : slot ≡ j = (==_iff slot j).0 same in
          rw (e, get_mut) (rw same (rw (← at_j) (rw e refl)))
    ]
    | inr (entry, e) ↦ elim (Bool-cases (slot == j)) [
      | inr other ↦ rw (e, get_mut) (rw get-insert (rw text_eq-to_string (ground (arith, other))))
      | inl same ↦
          let at_j : slot ≡ j = (==_iff slot j).0 same in
          rw (e, get_mut) (rw get-insert (rw text_eq-to_string (rw same (rw (← at_j) (rw e refl)))))
    ]
  ]
