-- ===== src/Stale/Scenarios.antt =====
-- Tests and instances for the reconciliation of src/docker_backend.rs.
use ez_gh_actions.Base.{
  ℕ, ◌≡◌, refl, inl, Bool, true, false, ◌==◌, none, some, List, [], ◌∷◌, length, if◌then◌else◌,
  u64_max, Text, text, text_eq, arith,
}
use ez_gh_actions.Base.Texts.{contains_text}
use ez_gh_actions.Base.Decimal.{to_string, parse_uint}
use ez_gh_actions.Base.Results.{Result, ok, err}
use ez_gh_actions.BtreeMap
use ez_gh_actions.BtreeMap.Slots.{contains}
use ez_gh_actions.Github.{RunnerInfo, eq_ignore_ascii_case}
use ez_gh_actions.Quarantine.{
  QuarantineTable, is_quarantined, excluded_slots, upsert, remove, get_mut, slots,
}
use ez_gh_actions.Quarantine
use ez_gh_actions.Pool.Memory.{has}
use ez_gh_actions.Pool.Released.{runner_name_for}
use ez_gh_actions.Pool.Slots.{
  SlotAssignments, has_assignment, slot_in_grace_window, empty_id_reservation_in_grace_window,
  release_slot_for,
}
use ez_gh_actions.Stale.{
  busy, started_container_activity_if_in_grace_with_state,
  retain_started_activity_after_grace_probe, started_container_activity_for_current_assignment,
  live_runners_last_run_id, find_runner,
}
use ez_gh_actions.Stale.Entries.{
  Observed, Pass, judge_empty, judge_activity, judge_missing, judge_live, judge_registered, judge,
  settle, release_from, release_stale_slots_from_with_containers_and_activity_for,
  release_stale_slots_from_with_containers_for,
}
use ez_gh_actions.Stale.Entries.Verdicts.{IsAtWork}
use ez_gh_actions.Stale.Entries.Kept.{release_stale_slots-shielded}
use ez_gh_actions.Stale.Entries.Freed.{freed, release_stale_slots-freed}
use ez_gh_actions.Stale.Zombies.{
  is_runner_busy_lock_error, wedged, offline_busy_owned_missing_container_slots, ZombieReadings,
  release, heal, quarantine_slot, locked, reconcile_slot, recoverable, recover_entry, recover_slot,
  each, recover, reconcile_listed, reconcile_offline_busy_zombies,
}
use ez_gh_actions.Stale.Zombies.Held.{IsRefused, reconcile-held}
use ez_gh_actions.Stale.Orphans.{
  is_dead, in_propagation, reapable_from,
  offline_not_busy_owned_missing_container_registrations_for, reap, reap_all, owned_ids, is_orphan,
  sweep_runner, sweep,
}
use ez_gh_actions.Stale.Release.{
  Lookups, TickReadings, remove_dead, sweep_orphans, finish_release, after_pass, observed, zombies,
  release_listed, release_stale_slots, local_names,
}
use ez_gh_actions.Stale.Zombies.Loop.{AllIn}
use ez_gh_actions.Stale.Orphans.Idle.{IsIdle}
use ez_gh_actions.Stale.Release.Active.{release_stale_slots-active}
use ez_gh_actions.Stale.Release.Removals.{release_stale_slots-removals}

-- what a reconciliation computes with
stale_code : Unit {0}
unfolding BtreeMap.get BtreeMap.insert BtreeMap.remove BtreeMap.values to_string parse_uint text_eq
    contains_text eq_ignore_ascii_case runner_name_for has_assignment slot_in_grace_window
    empty_id_reservation_in_grace_window release_slot_for
    started_container_activity_if_in_grace_with_state retain_started_activity_after_grace_probe
    started_container_activity_for_current_assignment live_runners_last_run_id judge_empty
    judge_activity judge_missing judge_live judge_registered judge settle release_from
    release_stale_slots_from_with_containers_and_activity_for
    release_stale_slots_from_with_containers_for is_runner_busy_lock_error wedged
    offline_busy_owned_missing_container_slots release heal quarantine_slot locked reconcile_slot
    recoverable recover_entry recover_slot each recover reconcile_listed
    reconcile_offline_busy_zombies is_dead in_propagation reapable_from
    offline_not_busy_owned_missing_container_registrations_for reap reap_all owned_ids is_orphan
    sweep_runner sweep remove_dead sweep_orphans finish_release after_pass release_listed
    release_stale_slots Quarantine.get is_quarantined upsert remove get_mut slots
stale_code = tt

abbrev runner : ℕ → Text → Text → Bool → RunnerInfo
runner id name status working = record {
  id = id;
  name = name;
  status = status;
  busy = working;
  run_id = none;
}

-- slot 1 runs, slot 2 is reserved since 100, slot 3 is wedged, slot 4 is lost
abbrev file : SlotAssignments
file = record {
  assignments =
      (text "1", text "71") ∷ (text "2", []) ∷ (text "3", text "73") ∷ (text "4", text "74") ∷ [];
  registered_at = (text "2", 100) ∷ [];
  container_started_at = (text "1", 90) ∷ [];
}

abbrev live : List RunnerInfo
live =
    runner 71 (text "ez-1") (text "online") true
    ∷ runner 73 (text "ez-3") (text "offline") true
    ∷ runner 99 (text "ez-9") (text "offline") false
    ∷ []

abbrev steady : ℕ → Lookups
steady now = record {
  activity_probe = λ k name. busy;
  clock = λ k. now;
  reads = λ k. true;
  writes = λ k. true;
}

-- GitHub refuses runner 73 for its job, and removes any other
abbrev removes : List ℕ → ℕ → Result Text Unit
removes h id = if id == 73 then err (text "Runner is currently running a job") else ok tt

abbrev tick : ℕ → TickReadings
tick now = record {
  name_prefix = text "ez";
  live_runners = ok live;
  readable = true;
  managed_containers = ok (text "ez-1" ∷ []);
  entries = steady now;
  quarantine = ok Quarantine.empty;
  remove_zombie = removes;
  reclaim_zombie = λ h r. false;
  unix_now_secs = λ h. now;
  zombie_reads = λ h. true;
  zombie_writes = λ h. true;
  saves_quarantine = true;
  registrations = steady now;
  removing = record { remove_runner = removes; heal = λ h r. false };
}

-- the slots that are assigned after a tick, among the first four, with the result and the removals
abbrev after : TickReadings → List Bool × Bool × List ℕ × List ℕ
after r =
    let (result, s) = release_stale_slots r file in
    (
      has_assignment s.slots 1
          ∷ has_assignment s.slots 2
          ∷ has_assignment s.slots 3
          ∷ has_assignment s.slots 4
          ∷ [],
      elim s.saved [ none ↦ false | some t ↦ is_quarantined t 3 ],
      s.zombie_removals,
      s.orphan_removals,
    )

ticks :
    (after (tick 130) ≡ (true ∷ true ∷ true ∷ false ∷ [], true, 73 ∷ [], 99 ∷ []))
    × (after (tick 160) ≡ (true ∷ false ∷ true ∷ false ∷ [], true, 73 ∷ [], 99 ∷ []))
    × ((release_stale_slots (tick 160) file).0 ≡ ok 3)
    × (after (record (tick 160) { live_runners = err (text "502") })
        ≡ (true ∷ true ∷ true ∷ true ∷ [], false, [], []))
unfolding stale_code
ticks = (refl, refl, refl, refl)

abbrev gh : ZombieReadings
gh = zombies (tick 160) file live

-- slot 1's container is at work
slot1-IsNamed :
    (rid : ℕ) (r : RunnerInfo)
    → parse_uint u64_max (text "71") ≡ some rid
    → find_runner live rid ≡ some r
    → text_eq r.name (runner_name_for (text "ez") 1) ≡ true
unfolding stale_code
slot1-IsNamed rid r p q =
    let id : 71 ≡ rid = cc in
    let found : find_runner live 71 ≡ some r = rw (← id) at q in
    let same : runner 71 (text "ez-1") (text "online") true ≡ r = cc in rw (← same) refl

slot1-present :
    (names : List Text)
    → local_names (tick 160) ≡ some names
    → has names (runner_name_for (text "ez") 1) ≡ true
unfolding stale_code
slot1-present names listed =
    let same : text "ez-1" ∷ [] ≡ names = ground (arith, listed) in rw (← same) refl

slot1-IsAtWork : IsAtWork (observed (tick 160) file live) 1 (text "1") (text "71")
unfolding stale_code
slot1-IsAtWork = record {
  registered = refl;
  working = λ names listed. (slot1-present names listed, λ k. inl refl);
  known = λ unlisted. absurd (cc unlisted);
  named = slot1-IsNamed;
}

release_stale_slots-active_example :
    has_assignment (release_stale_slots (tick 160) file).1.slots 1 ≡ has_assignment file 1
unfolding stale_code
release_stale_slots-active_example =
    release_stale_slots-active (tick 160) file 1 slot1-present refl (λ l e.
      let same : live ≡ l = cc in
      rw (← same)
        (λ p. slot1-IsAtWork, (λ p. absurd (cc), (λ p. absurd (cc), (λ p. absurd (cc), tt)))))

release_stale_slots-removals_example :
    AllIn (IsIdle live (text "ez-")) (release_stale_slots (tick 160) file).1.orphan_removals
release_stale_slots-removals_example = release_stale_slots-removals (tick 160) file live refl

-- slot 2 is in its grace window
release_stale_slots-shielded_example :
    has_assignment
      (release_stale_slots_from_with_containers_for (observed (tick 130) file live) file).1
      2
    ≡ has_assignment file 2
unfolding stale_code
release_stale_slots-shielded_example =
    release_stale_slots-shielded (observed (tick 130) file live) 2 file (
      λ p. absurd (cc),
      (
        λ p.
            inl
              (record { in_grace = λ k. refl; unstarted = refl; named = λ rid r p q. absurd (cc) }),
        (λ p. absurd (cc), (λ p. absurd (cc), tt)),
      ),
    )

abbrev past : Observed
past = observed (tick 160) file live

release_stale_slots-freed_example :
    (s : Pass) × ((release_stale_slots_from_with_containers_and_activity_for past file).0 ≡ ok s)
    × (has_assignment s.slots 4
        ≡ (if contains (freed past file.assignments 0) 4 then false else has_assignment file 4))
    × (s.reclaimed ≡ length (freed past file.assignments 0))
    × ((release_stale_slots_from_with_containers_and_activity_for past file).1 ≡ s.slots)
release_stale_slots-freed_example = release_stale_slots-freed past 4 file (λ k. refl) (λ k. refl)

runner73-IsRefused : IsRefused gh 73
runner73-IsRefused = record {
  unremoved = λ h. (text "Runner is currently running a job", refl);
  unhealed = λ h r found. refl;
}

reconcile-held_example :
    has_assignment (reconcile_offline_busy_zombies gh file Quarantine.empty).1.slots 3
    ≡ has_assignment file 3
unfolding stale_code
reconcile-held_example =
    reconcile-held gh 3 file Quarantine.empty
      (λ names e.
        let same : text "ez-1" ∷ [] ≡ names = cc in rw (← same) (λ p. runner73-IsRefused, tt))
      (λ e found. absurd (cc))
