-- ===== src/Stale/Zombies/Budget.antt =====
-- The budget of self-heals in a tick of src/docker_backend.rs.
use ez_gh_actions.Base.{ℕ, ◌≤◌, arith, length, ◌∷◌}
use ez_gh_actions.Quarantine.{QuarantineTable}
use ez_gh_actions.Pool.Slots.{SlotAssignments}
use ez_gh_actions.Stale.Zombies.{
  Wedged, ZombieReadings, Reconciling, release, heal, locked, reconcile_slot, recover_entry,
  recover_slot, reconcile_offline_busy_zombies,
}
use ez_gh_actions.Stale.Zombies.Loop.{AllIn-all, fresh_slots, reconcile-inv}

module _ (gh : ZombieReadings) where
  record IsBudgeted (s : Reconciling) : Type 0 where
    counted : length s.heals ≤ s.attempts_this_tick
    capped : s.attempts_this_tick ≤ gh.max_attempts_per_tick

  release-IsBudgeted :
      (slot : ℕ) (s : Reconciling) → IsBudgeted s → IsBudgeted (release gh slot s).1
  unfolding release
  release-IsBudgeted slot s b = ground arith

  heal-IsBudgeted : (id : ℕ) (s : Reconciling) → IsBudgeted s → IsBudgeted (heal gh id s).1
  unfolding heal
  heal-IsBudgeted id s b = ground arith

  locked-IsBudgeted : (w : Wedged) (s : Reconciling) → IsBudgeted s → IsBudgeted (locked gh w s).1
  unfolding locked
  locked-IsBudgeted w s b =
      let b' = heal-IsBudgeted w.runner_id s b in
      ground (arith, b', release-IsBudgeted w.slot (heal gh w.runner_id s).1 b')

  reconcile_slot-IsBudgeted :
      (w : Wedged) (s : Reconciling) → IsBudgeted s → IsBudgeted (reconcile_slot gh w s).1
  unfolding reconcile_slot
  reconcile_slot-IsBudgeted w s b =
      let s' : Reconciling = record s { removals = w.runner_id ∷ s.removals } in
      let b' : IsBudgeted s' = record { counted = b.counted; capped = b.capped } in
      ground (arith, b', release-IsBudgeted w.slot s' b', locked-IsBudgeted w s' b')

  recover_slot-IsBudgeted :
      (slot : ℕ) (s : Reconciling) → IsBudgeted s → IsBudgeted (recover_slot gh slot s).1
  unfolding recover_slot recover_entry release
  recover_slot-IsBudgeted slot s b = ground arith

-- A tick asks for no more self-heals than its budget.
heals_bounded :
    (gh : ZombieReadings) (file : SlotAssignments) (quarantine : QuarantineTable)
    → length (reconcile_offline_busy_zombies gh file quarantine).1.heals ≤ gh.max_attempts_per_tick
heals_bounded gh file quarantine =
    let b =
      reconcile-inv gh (IsBudgeted gh) (λ (w : Wedged). Unit)
        (λ w s _. reconcile_slot-IsBudgeted gh w s) (recover_slot-IsBudgeted gh) file quarantine
        (λ names _. AllIn-all (λ (w : Wedged). Unit) (λ _. tt) (fresh_slots gh names))
        (record { counted = omega arith; capped = omega arith }) in
    omega (arith, b.counted, b.capped)
