-- ===== src/Backend/Policy.antt =====
-- What `select` (src/backend.rs) guarantees of the backend it chooses.
use ez_gh_actions.Base.{
  ◌≡◌, refl, inl, inr, Bool, true, false, not, ◌&&◌, List, [], ◌∷◌, ◌++◌, arith, all, Bool-cases,
}
use mathlib.Core.List.{append_assoc}
use ez_gh_actions.Backend.{
  Backend, IsolationLevel, weaker, isolation, implemented, Platform, candidates, Selection, chosen,
  policy_blocked, nothing, select_from, select,
}

-- A selection among candidates: what was chosen stands in the list behind the skipped ones, ezgha
-- drives it, and it meets the policy; a blocked one is driven but does not meet it; and nothing is
-- selected only where no candidate is driven.
abbrev pub Obeys : Bool → IsolationLevel → List Backend → Selection → Type 0
Obeys daemon_in_vm minimum cands (chosen b skipped) =
    (rest : List Backend) × (cands ≡ skipped ++ b ∷ rest)
    × (implemented b ≡ true)
    × (weaker (isolation b daemon_in_vm) minimum ≡ false)
    × (all (λ c. not (implemented c)) skipped ≡ true)
Obeys daemon_in_vm minimum cands (policy_blocked b required) =
    (required ≡ minimum)
    × (implemented b ≡ true)
    × (weaker (isolation b daemon_in_vm) minimum ≡ true)
Obeys daemon_in_vm minimum cands nothing = all (λ c. not (implemented c)) cands ≡ true

all-append : (p : Backend → Bool) (xs ys : List Backend) → all p (xs ++ ys) ≡ (all p xs && all p ys)
all-append p [] ys = refl
all-append p (x ∷ xs) ys = ground (arith, all-append p xs ys)

select_from-Obeys :
    (daemon_in_vm : Bool) (minimum : IsolationLevel) (skipped cands : List Backend)
    → all (λ c. not (implemented c)) skipped ≡ true
    → Obeys daemon_in_vm minimum (skipped ++ cands) (select_from daemon_in_vm minimum skipped cands)
unfolding select_from
select_from-Obeys daemon_in_vm minimum skipped [] none_driven =
    ground (arith, none_driven, all-append (λ c. not (implemented c)) skipped [])
select_from-Obeys daemon_in_vm minimum skipped (backend ∷ cands) none_driven =
    elim (Bool-cases (implemented backend)) [
      | inr undriven ↦
          let longer : all (λ c. not (implemented c)) (skipped ++ backend ∷ []) ≡ true = ground (
            arith,
            undriven,
            none_driven,
            all-append (λ c. not (implemented c)) skipped (backend ∷ []),
          ) in
          rw undriven (
            rw (← append_assoc skipped (backend ∷ []) cands)
              (select_from-Obeys daemon_in_vm minimum (skipped ++ backend ∷ []) cands longer))
      | inl driven ↦ elim (Bool-cases (weaker (isolation backend daemon_in_vm) minimum)) [
        | inl weak ↦ rw driven (rw weak (refl, driven, weak))
        | inr strong ↦ rw driven (rw strong (cands, refl, driven, strong, none_driven))
      ]
    ]

-- A selection obeys the policy: the chosen backend is a candidate of the host that ezgha drives and that
-- isolates at least as the policy demands, every stronger candidate is one that ezgha does not
-- drive, and nothing is chosen where the first driven candidate is too weak or there is none.
pub select-Obeys :
    (plat : Platform) (minimum : IsolationLevel)
    → Obeys plat.daemon_in_vm minimum (candidates plat) (select plat minimum)
unfolding select
select-Obeys plat minimum = select_from-Obeys plat.daemon_in_vm minimum [] (candidates plat) refl
