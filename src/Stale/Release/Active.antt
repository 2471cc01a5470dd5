-- ===== src/Stale/Release/Active.antt =====
-- What a whole reconciliation of src/docker_backend.rs leaves alone.
use ez_gh_actions.Base.{
  ℕ, ◌≡◌, ◌≢◌, refl, ◌∙◌, inl, inr, true, none, some, List, [], ◌∷◌, arith, u32_max, u64_max, Text,
  Bool-cases, Option-cases,
}
use ez_gh_actions.Base.Decimal.{parse_uint}
use ez_gh_actions.Base.Results.{ok, Result-cases}
use ez_gh_actions.BtreeMap.{BtreeMap, AllEntries}
use ez_gh_actions.Github.{RunnerInfo}
use ez_gh_actions.Quarantine
use ez_gh_actions.Pool.Memory.{has}
use ez_gh_actions.Pool.Released.{runner_name_for}
use ez_gh_actions.Pool.Slots.{SlotAssignments, has_assignment}
use ez_gh_actions.Stale.Entries.{release_stale_slots_from_with_containers_for}
use ez_gh_actions.Stale.Entries.Verdicts.{IsAtWork}
use ez_gh_actions.Stale.Entries.Kept.{release_stale_slots-IsAtWork, release_stale_slots-slots}
use ez_gh_actions.Stale.Zombies.{
  Wedged, wedged, offline_busy_owned_missing_container_slots, reconcile_offline_busy_zombies,
}
use ez_gh_actions.Stale.Zombies.Loop.{AllIn}
use ez_gh_actions.Stale.Zombies.Held.{IsRefused, reconcile-held}
use ez_gh_actions.Stale.Release.{
  TickReadings, local_names, observed, zombies, finish_release, loaded_quarantine, after_pass,
  release_listed, release_stale_slots,
}

-- a slot whose container is listed is not taken for wedged
wedged-other :
    (live_runners : List RunnerInfo) (prefix : Text) (names : List Text) (key id : Text)
    (w : Wedged) (j : ℕ)
    → has names (runner_name_for prefix j) ≡ true
    → wedged live_runners prefix names key id ≡ some w
    → w.slot ≢ j
unfolding wedged
wedged-other live_runners prefix names key id w j present h same =
    elim (Option-cases (parse_uint u32_max key)) [
      | inl e ↦ ground (arith, e, h)
      | inr (slot, e) ↦ elim (Option-cases (parse_uint u64_max id)) [
        | inl e' ↦ ground (arith, e, e', h)
        | inr (rid, e') ↦ elim (Bool-cases (has names (runner_name_for prefix slot))) [
          | inl running ↦ ground (arith, e, e', h, running)
          | inr gone ↦
              let at : slot ≡ w.slot = ground (arith, e, e', h, gone) in
              let at_j : slot ≡ j = at ∙ same in
              let running : has names (runner_name_for prefix slot) ≡ true = rw at_j present in cc
        ]
      ]
    ]

AllIn-wedged :
    (R : ℕ → Type 0) (live_runners : List RunnerInfo) (prefix : Text) (names : List Text) (j : ℕ)
    (entries : BtreeMap Text)
    → has names (runner_name_for prefix j) ≡ true
    → AllIn
        (λ w. w.slot ≡ j → R w.runner_id)
        (offline_busy_owned_missing_container_slots entries live_runners prefix names)
unfolding offline_busy_owned_missing_container_slots
AllIn-wedged R live_runners prefix names j [] present = tt
AllIn-wedged R live_runners prefix names j ((key, id) ∷ entries) present =
    let rest = AllIn-wedged R live_runners prefix names j entries present in
    elim (Option-cases (wedged live_runners prefix names key id)) [
      | inl e ↦ rw (e, offline_busy_owned_missing_container_slots) rest
      | inr (w, e) ↦
          rw (e, offline_busy_owned_missing_container_slots)
            (
              λ same. absurd (wedged-other live_runners prefix names key id w j present e same),
              rest,
            )
    ]

module _ (r : TickReadings) (file : SlotAssignments) (live_runners : List RunnerInfo) (j : ℕ)
    (present : (names : List Text)
      → local_names r ≡ some names
      → has names (runner_name_for r.name_prefix j) ≡ true)
    (unquarantined : Quarantine.get (loaded_quarantine r) j ≡ none) where
  pass-active :
      (slots : SlotAssignments)
      → has_assignment
          (reconcile_offline_busy_zombies
            (zombies r file live_runners)
            slots
            (loaded_quarantine r)).1.slots
          j
        ≡ has_assignment slots j
  pass-active slots =
      reconcile-held (zombies r file live_runners) j slots (loaded_quarantine r)
        (λ names listed.
          AllIn-wedged (IsRefused (zombies r file live_runners)) live_runners r.name_prefix names j
            file.assignments (present names listed))
        (λ e found. absurd (cc))

  -- the slot's entries are at work
  module _
      (at_work : AllEntries
        (λ key id.
          parse_uint u32_max key ≡ some j → IsAtWork (observed r file live_runners) j key id)
        file.assignments) where
    entries-active :
        has_assignment
          (release_stale_slots_from_with_containers_for (observed r file live_runners) file).1
          j
        ≡ has_assignment file j
    entries-active = release_stale_slots-IsAtWork (observed r file live_runners) j file at_work

    release_listed-active :
        has_assignment (release_listed r file live_runners).1.slots j ≡ has_assignment file j
    unfolding release_listed after_pass finish_release
    release_listed-active =
        elim (Result-cases
          (release_stale_slots_from_with_containers_for (observed r file live_runners) file).0) [
            | inr (e, failed) ↦ rw (failed, release_listed) entries-active
            | inl (pass, done) ↦
                let slots =
                  release_stale_slots-slots (observed r file live_runners) file pass done in
                let kept = pass-active pass.slots ∙ rw slots entries-active in
                elim (Result-cases
                  (reconcile_offline_busy_zombies (zombies r file live_runners) pass.slots
                    (loaded_quarantine r)).0) [
                      | inr (e, failed) ↦ rw (done, release_listed) (rw (failed, after_pass) kept)
                      | inl (_, done') ↦ rw (done, release_listed) (rw (done', after_pass) kept)
                    ]
          ]

-- A runner at work survives the whole reconciliation, with any answers to the removals, and also where a
-- step fails. The conditions, where GitHub lists its runners: the slot has no entry in the quarantine; a live
-- runner with the recorded id bears the slot's name; where the containers could be listed, the slot's is among
-- them and on every probe busy or not known to be idle; where docker fails to list them, GitHub still lists the
-- recorded runner. Then the slot stays assigned as it was.
pub release_stale_slots-active :
    (r : TickReadings) (file : SlotAssignments) (j : ℕ)
    → ((names : List Text)
        → local_names r ≡ some names
        → has names (runner_name_for r.name_prefix j) ≡ true)
    → Quarantine.get (loaded_quarantine r) j ≡ none
    → ((live_runners : List RunnerInfo)
        → r.live_runners ≡ ok live_runners
        → AllEntries
            (λ key id.
              parse_uint u32_max key ≡ some j → IsAtWork (observed r file live_runners) j key id)
            file.assignments)
    → has_assignment (release_stale_slots r file).1.slots j ≡ has_assignment file j
unfolding release_stale_slots
release_stale_slots-active r file j present unquarantined at_work =
    elim (Result-cases r.live_runners) [
      | inr (e, unreachable) ↦ rw (unreachable, release_stale_slots) refl
      | inl (live_runners, reached) ↦ elim (Bool-cases r.readable) [
        | inr unreadable ↦ rw (reached, release_stale_slots) (rw unreadable refl)
        | inl readable ↦
            rw (reached, release_stale_slots)
              (simp readable (
                release_listed-active r file live_runners j present unquarantined
                  (at_work live_runners reached)))
      ]
    ]
