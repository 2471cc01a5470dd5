-- ===== src/Stale/Orphans/Idle.antt =====
-- Which registrations `release_stale_slots` (src/docker_backend.rs) asks GitHub to remove after the slots.
use ez_gh_actions.Base.{
  ℕ, ◌+◌, ◌≡◌, ◌⊎◌, refl, inl, inr, true, false, List, [], ◌∷◌, arith, if◌then◌else◌, Text, text,
  starts_with, Bool-cases,
}
use ez_gh_actions.Github.{RunnerInfo, eq_ignore_ascii_case}
use ez_gh_actions.Stale.Orphans.{
  OrphanReadings, is_dead, in_propagation, reapable_from, Removing, Reaped, reap, reap_all,
  is_orphan, sweep_runner, sweep,
}
use ez_gh_actions.Stale.Zombies.Loop.{AllIn}

-- an element of a list
abbrev pub In : {A : Type 0} → A → List A → Type 0
In x [] = ⊥
In x (y ∷ ys) = (x ≡ y) ⊎ In x ys

-- the id is that of a listed runner under the prefix, offline and idle
pub record IsIdle (live_runners : List RunnerInfo) (prefix : Text) (id : ℕ) : Type 0 where
  pub runner : RunnerInfo
  pub listed : In runner live_runners
  pub same : runner.id ≡ id
  pub owned : starts_with prefix runner.name ≡ true
  pub offline : eq_ignore_ascii_case runner.status (text "offline") ≡ true
  pub idle : runner.busy ≡ false

module _ (live_runners : List RunnerInfo) (prefix : Text) where
  dead-IsIdle :
      (names : List Text) (r : RunnerInfo)
      → In r live_runners
      → is_dead prefix names r ≡ true
      → IsIdle live_runners prefix r.id
  unfolding is_dead
  dead-IsIdle names r here dead = record {
    runner = r;
    listed = here;
    same = refl;
    owned = ground (arith, dead);
    offline = ground (arith, dead);
    idle = ground (arith, dead);
  }

  orphan-IsIdle :
      (owned reaped : List ℕ) (r : RunnerInfo)
      → In r live_runners
      → is_orphan prefix owned reaped r ≡ true
      → IsIdle live_runners prefix r.id
  unfolding is_orphan
  orphan-IsIdle owned reaped r here orphan = record {
    runner = r;
    listed = here;
    same = refl;
    owned = ground (arith, orphan);
    offline = ground (arith, orphan);
    idle = ground (arith, orphan);
  }

  -- the runners of the loop are listed
  pub reapable_from-IsIdle :
      (o : OrphanReadings) (names : List Text) (runners : List RunnerInfo) (k : ℕ)
      → AllIn (λ r. In r live_runners) runners
      → AllIn (λ pair. IsIdle live_runners prefix pair.0) (reapable_from o prefix names runners k)
  unfolding reapable_from
  reapable_from-IsIdle o names [] k a = tt
  reapable_from-IsIdle o names (r ∷ runners) k (here, a) =
      let rest = reapable_from-IsIdle o names runners (k + 1) a in
      elim (Bool-cases (is_dead prefix names r)) [
        | inr alive ↦ rw alive rest
        | inl dead ↦ elim (Bool-cases (in_propagation o k prefix r)) [
          | inl fresh ↦ rw (dead, fresh) rest
          | inr late ↦ rw (dead, late) (dead-IsIdle names r here dead, rest)
        ]
      ]

  module _ (gh : Removing) where
    reap-removals : (id : ℕ) (s : Reaped) → (reap gh live_runners id s).removals ≡ id ∷ s.removals
    unfolding reap
    reap-removals id s = ground arith

    pub reap_all-IsIdle :
        (pairs : List (ℕ × Text)) (s : Reaped)
        → AllIn (λ pair. IsIdle live_runners prefix pair.0) pairs
        → AllIn (IsIdle live_runners prefix) s.removals
        → AllIn (IsIdle live_runners prefix) (reap_all gh live_runners pairs s).removals
    unfolding reap_all
    reap_all-IsIdle [] s p a = a
    reap_all-IsIdle ((id, name) ∷ pairs) s (first, p) a =
        reap_all-IsIdle pairs (reap gh live_runners id s) p (rw (reap-removals id s) (first, a))

    sweep_runner-removals :
        (owned reaped : List ℕ) (r : RunnerInfo) (s : ℕ × List ℕ)
        → (sweep_runner gh prefix owned reaped r s).1
          ≡ (if is_orphan prefix owned reaped r then r.id ∷ s.1 else s.1)
    unfolding sweep_runner
    sweep_runner-removals owned reaped r s = ground arith

    sweep_runner-IsIdle :
        (owned reaped : List ℕ) (r : RunnerInfo) (s : ℕ × List ℕ)
        → In r live_runners
        → AllIn (IsIdle live_runners prefix) s.1
        → AllIn (IsIdle live_runners prefix) (sweep_runner gh prefix owned reaped r s).1
    sweep_runner-IsIdle owned reaped r s here a =
        rw (sweep_runner-removals owned reaped r s)
          (elim (Bool-cases (is_orphan prefix owned reaped r)) [
            | inr kept ↦ rw kept a
            | inl orphan ↦ rw orphan (orphan-IsIdle owned reaped r here orphan, a)
          ])

    pub sweep-IsIdle :
        (owned reaped : List ℕ) (runners : List RunnerInfo) (s : ℕ × List ℕ)
        → AllIn (λ r. In r live_runners) runners
        → AllIn (IsIdle live_runners prefix) s.1
        → AllIn (IsIdle live_runners prefix) (sweep gh prefix owned reaped runners s).1
    unfolding sweep
    sweep-IsIdle owned reaped [] s here a = a
    sweep-IsIdle owned reaped (r ∷ runners) s (first, here) a =
        sweep-IsIdle owned reaped runners (sweep_runner gh prefix owned reaped r s) here
          (sweep_runner-IsIdle owned reaped r s first a)

-- each element of a list is in it, and in a longer list
pub In-all : {A : Type 0} (xs ys : List A) → ((x : A) → In x xs → In x ys) → AllIn (λ x. In x ys) xs
In-all [] ys sub = tt
In-all (x ∷ xs) ys sub = (sub x (inl refl), In-all xs ys (λ y h. sub y (inr h)))
