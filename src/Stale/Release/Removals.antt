-- ===== src/Stale/Release/Removals.antt =====
-- Which registrations a whole reconciliation of src/docker_backend.rs asks GitHub to remove beside its slots.
use ez_gh_actions.Base.{
  ℕ, ◌≡◌, inl, inr, List, [], ◌∷◌, ◌++◌, Text, text_eq, Bool-cases, Option-cases,
}
use ez_gh_actions.Base.Results.{ok, Result-cases}
use ez_gh_actions.Github.{RunnerInfo}
use ez_gh_actions.Pool.Slots.{SlotAssignments}
use ez_gh_actions.Stale.Entries.{release_stale_slots_from_with_containers_for}
use ez_gh_actions.Stale.Zombies.{reconcile_offline_busy_zombies}
use ez_gh_actions.Stale.Zombies.Loop.{AllIn}
use ez_gh_actions.Stale.Orphans.{
  OrphanReadings, owned_ids, offline_not_busy_owned_missing_container_registrations_for,
}
use ez_gh_actions.Stale.Orphans.Idle.{
  IsIdle, reapable_from-IsIdle, reap_all-IsIdle, sweep-IsIdle, In-all,
}
use ez_gh_actions.Stale.Release.{
  TickReadings, local_names, observed, zombies, orphans, remove_dead, sweep_orphans, finish_release,
  loaded_quarantine, after_pass, release_listed, release_stale_slots,
}

registrations-IsIdle :
    (o : OrphanReadings) (names : List Text)
    → AllIn
        (λ pair. IsIdle o.live_runners (o.runner_prefix ++ (b'-' ∷ [])) pair.0)
        (offline_not_busy_owned_missing_container_registrations_for o names)
unfolding offline_not_busy_owned_missing_container_registrations_for
registrations-IsIdle o names = elim (Bool-cases (text_eq o.runner_prefix [])) [
  | inl bare ↦ rw bare tt
  | inr given ↦ rw given (
      reapable_from-IsIdle o.live_runners (o.runner_prefix ++ (b'-' ∷ [])) o names o.live_runners 0
        (In-all o.live_runners o.live_runners (λ x h. h)))
]

module _ (r : TickReadings) (file : SlotAssignments) (live_runners : List RunnerInfo) where
  abbrev AllIdle : List ℕ → Type 0
  AllIdle = AllIn (IsIdle live_runners (r.name_prefix ++ (b'-' ∷ [])))

  remove_dead-AllIdle : AllIdle (remove_dead r file live_runners).removals
  unfolding remove_dead
  remove_dead-AllIdle = elim (Option-cases (local_names r)) [
    | inl unlisted ↦ rw (unlisted, remove_dead) tt
    | inr (names, listed) ↦
        rw (listed, remove_dead)
          (reap_all-IsIdle live_runners (r.name_prefix ++ (b'-' ∷ [])) r.removing
            (offline_not_busy_owned_missing_container_registrations_for
              (orphans r file live_runners) names)
            (record { reclaimed = 0; reaped_ids = []; removals = [] })
            (registrations-IsIdle (orphans r file live_runners) names) tt)
  ]

  sweep_orphans-AllIdle : AllIdle (sweep_orphans r file live_runners).1
  unfolding sweep_orphans
  sweep_orphans-AllIdle =
      sweep-IsIdle live_runners (r.name_prefix ++ (b'-' ∷ [])) r.removing
        (owned_ids file.assignments) (remove_dead r file live_runners).reaped_ids live_runners
        (0, (remove_dead r file live_runners).removals)
        (In-all live_runners live_runners (λ x h. h)) remove_dead-AllIdle

  release_listed-AllIdle : AllIdle (release_listed r file live_runners).1.orphan_removals
  unfolding release_listed after_pass finish_release
  release_listed-AllIdle =
      elim (Result-cases
        (release_stale_slots_from_with_containers_for (observed r file live_runners) file).0) [
          | inr (e, failed) ↦ rw (failed, release_listed) tt
          | inl (pass, done) ↦
              elim (Result-cases
                (reconcile_offline_busy_zombies (zombies r file live_runners) pass.slots
                  (loaded_quarantine r)).0) [
                    | inr (e, failed) ↦ rw (done, release_listed) (rw (failed, after_pass) tt)
                    | inl (_, done') ↦
                        rw (done, release_listed) (rw (done', after_pass) sweep_orphans-AllIdle)
                  ]
        ]

-- Beside the wedged runners, a reconciliation asks GitHub to remove only runners that it lists under the
-- daemon's own prefix as offline and not busy.
pub release_stale_slots-removals :
    (r : TickReadings) (file : SlotAssignments) (live_runners : List RunnerInfo)
    → r.live_runners ≡ ok live_runners
    → AllIn
        (IsIdle live_runners (r.name_prefix ++ (b'-' ∷ [])))
        (release_stale_slots r file).1.orphan_removals
unfolding release_stale_slots
release_stale_slots-removals r file live_runners reached = elim (Bool-cases r.readable) [
  | inr unreadable ↦ rw (reached, release_stale_slots) (rw unreadable tt)
  | inl readable ↦
      rw (reached, release_stale_slots) (simp readable (release_listed-AllIdle r file live_runners))
]
