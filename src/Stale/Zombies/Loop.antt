-- ===== src/Stale/Zombies/Loop.antt =====
-- Induction over the loops of `reconcile_offline_busy_zombies` (src/docker_backend.rs).
use ez_gh_actions.Base.{ℕ, ◌≡◌, inl, inr, some, List, [], ◌∷◌, Text, Option-cases}
use ez_gh_actions.Base.Results.{Result, Result-cases}
use ez_gh_actions.Quarantine.{QuarantineTable, slots}
use ez_gh_actions.Pool.Slots.{SlotAssignments, SlotError}
use ez_gh_actions.Stale.Zombies.{
  Wedged, offline_busy_owned_missing_container_slots, ZombieReadings, Reconciling, unreconciled,
  reconcile_slot, recover_slot, each, recover, reconcile_listed, reconcile_offline_busy_zombies,
}

abbrev pub AllIn : {A : Type 0} → (A → Type 0) → List A → Type 0
AllIn Q [] = Unit
AllIn Q (x ∷ xs) = Q x × AllIn Q xs

pub AllIn-all : {A : Type 0} (Q : A → Type 0) → ((x : A) → Q x) → (xs : List A) → AllIn Q xs
AllIn-all Q all [] = tt
AllIn-all Q all (x ∷ xs) = (all x, AllIn-all Q all xs)

abbrev pub fresh_slots : ZombieReadings → List Text → List Wedged
fresh_slots gh names =
    offline_busy_owned_missing_container_slots gh.assignments.assignments gh.live_runners
      gh.runner_prefix names

module _ (gh : ZombieReadings) (P : Reconciling → Type 0) where
  pub each-inv :
      {A : Type 0} (Q : A → Type 0) (step : A → Reconciling → Result SlotError Unit × Reconciling)
      → ((x : A) (s : Reconciling) → Q x → P s → P (step x s).1)
      → (xs : List A) (s : Reconciling) → AllIn Q xs
      → P s
      → P (each gh step xs s).1
  unfolding each
  each-inv Q step keep [] s a h = h
  each-inv Q step keep (x ∷ xs) s (first, a) h = elim (Result-cases (step x s).0) [
    | inr (e, failed) ↦ rw (failed, each) (keep x s first h)
    | inl (_, done) ↦ rw (done, each) (each-inv Q step keep xs (step x s).1 a (keep x s first h))
  ]

  module _ (Q : Wedged → Type 0)
      (fresh : (w : Wedged) (s : Reconciling) → Q w → P s → P (reconcile_slot gh w s).1)
      (recovered : (slot : ℕ) (s : Reconciling) → P s → P (recover_slot gh slot s).1) where
    recover-inv : (s : Reconciling) → P s → P (recover gh s).1
    unfolding recover
    recover-inv s h =
        each-inv (λ (slot : ℕ). Unit) (recover_slot gh) (λ slot s _. recovered slot s)
          (slots s.quarantine) s (AllIn-all (λ (slot : ℕ). Unit) (λ _. tt) (slots s.quarantine)) h

    reconcile_listed-inv :
        (names : List Text) (s : Reconciling)
        → AllIn Q (fresh_slots gh names)
        → P s
        → P (reconcile_listed gh names s).1
    unfolding reconcile_listed
    reconcile_listed-inv names s all h =
        let first = each-inv Q (reconcile_slot gh) fresh (fresh_slots gh names) s all h in
        elim (Result-cases (each gh (reconcile_slot gh) (fresh_slots gh names) s).0) [
          | inr (e, failed) ↦ rw (failed, reconcile_listed) first
          | inl (_, done) ↦
              rw (done, reconcile_listed)
                (recover-inv (each gh (reconcile_slot gh) (fresh_slots gh names) s).1 first)
        ]

    -- An invariant of the two kinds of steps is one of the pass.
    pub reconcile-inv :
        (file : SlotAssignments) (quarantine : QuarantineTable)
        → ((names : List Text)
            → gh.local_container_names ≡ some names
            → AllIn Q (fresh_slots gh names))
        → P (unreconciled file quarantine)
        → P (reconcile_offline_busy_zombies gh file quarantine).1
    unfolding reconcile_offline_busy_zombies
    reconcile-inv file quarantine all h = elim (Option-cases gh.local_container_names) [
      | inl unlisted ↦ rw (unlisted, reconcile_offline_busy_zombies) h
      | inr (names, listed) ↦
          rw (listed, reconcile_offline_busy_zombies)
            (reconcile_listed-inv names (unreconciled file quarantine) (all names listed) h)
    ]
