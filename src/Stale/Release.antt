-- ===== src/Stale/Release.antt =====
-- `release_stale_slots` (src/docker_backend.rs): one reconciliation of the slot file, the quarantine and
-- the registrations.
pub mod Active
pub mod Removals
use ez_gh_actions.Base.{
  ℕ, ◌+◌, Bool, true, false, not, Option, none, some, List, [], ◌∷◌, ◌++◌, if◌then◌else◌, Text,
}
use ez_gh_actions.Base.Results.{Result, ok, err}
use ez_gh_actions.Github.{RunnerInfo}
use ez_gh_actions.Quarantine.{QuarantineTable}
use ez_gh_actions.Quarantine
use ez_gh_actions.Pool.Slots.{SlotAssignments, SlotError, slot_in_grace_window}
use ez_gh_actions.Stale.{Probe}
use ez_gh_actions.Stale.Entries.{Observed, Pass, release_stale_slots_from_with_containers_for}
use ez_gh_actions.Stale.Zombies.{ZombieReadings, Reconciling, reconcile_offline_busy_zombies}
use ez_gh_actions.Stale.Orphans.{
  OrphanReadings, offline_not_busy_owned_missing_container_registrations_for, Removing, Reaped,
  reap_all, owned_ids, sweep,
}

-- `MAX_RECONCILE_ATTEMPTS_PER_TICK_DEFAULT`
abbrev pub max_reconcile_attempts_per_tick : ℕ
max_reconcile_attempts_per_tick = 1

-- what a lookup of the world gives, by the number of the entry or of the runner that it is for
pub record Lookups : Type 0 where
  pub activity_probe : Probe
  pub clock : ℕ → ℕ
  pub reads : ℕ → Bool
  pub writes : ℕ → Bool

-- What the reconciliation reads: the listings, what the passes over the entries and over the
-- registrations look up, and what the calls of the zombies' pass and of the removals after it give.
pub record TickReadings : Type 0 where
  pub name_prefix : Text
  pub live_runners : Result Text (List RunnerInfo)
  pub readable : Bool
  pub managed_containers : Result Text (List Text)
  pub entries : Lookups
  pub quarantine : Result Quarantine.LoadError QuarantineTable
  pub remove_zombie : List ℕ → ℕ → Result Text Unit
  pub reclaim_zombie : List ℕ → RunnerInfo → Bool
  pub unix_now_secs : List ℕ → ℕ
  pub zombie_reads : List ℕ → Bool
  pub zombie_writes : List ℕ → Bool
  pub saves_quarantine : Bool
  pub registrations : Lookups
  pub removing : Removing

-- what is left: the slot file, the table if it was saved, and the removals, the latest first
pub record Reconciled : Type 0 where
  pub slots : SlotAssignments
  pub saved : Option QuarantineTable
  pub zombie_removals : List ℕ
  pub orphan_removals : List ℕ

pub data ReleaseError : Type 0 where
  unreadable : ReleaseError
  pass_failed : SlotError → ReleaseError

abbrev pub untouched : SlotAssignments → Reconciled
untouched file = record { slots = file; saved = none; zombie_removals = []; orphan_removals = [] }

abbrev pub local_names : TickReadings → Option (List Text)
local_names r = elim r.managed_containers [ ok containers ↦ some containers | err _ ↦ none ]

-- a table that cannot be loaded counts as empty
abbrev pub loaded_quarantine : TickReadings → QuarantineTable
loaded_quarantine r = elim r.quarantine [ ok table ↦ table | err _ ↦ Quarantine.empty ]

module _ (r : TickReadings) (file : SlotAssignments) (live_runners : List RunnerInfo) where
  abbrev pub observed : Observed
  observed = record {
    assignments = file;
    live_runners = live_runners;
    runner_prefix = r.name_prefix;
    local_container_names = local_names r;
    activity_probe = r.entries.activity_probe;
    grace_check = λ k self slot. slot_in_grace_window self slot (r.entries.clock k);
    clock = r.entries.clock;
    reads = r.entries.reads;
    writes = r.entries.writes;
  }

  abbrev pub zombies : ZombieReadings
  zombies = record {
    assignments = file;
    live_runners = live_runners;
    runner_prefix = r.name_prefix;
    local_container_names = local_names r;
    max_attempts_per_tick = max_reconcile_attempts_per_tick;
    remove_runner = r.remove_zombie;
    try_zombie_reclaim = r.reclaim_zombie;
    unix_now_secs = r.unix_now_secs;
    reads = r.zombie_reads;
    writes = r.zombie_writes;
  }

  abbrev pub orphans : OrphanReadings
  orphans = record {
    assignments = file;
    live_runners = live_runners;
    runner_prefix = r.name_prefix;
    activity_probe = r.registrations.activity_probe;
    clock = r.registrations.clock;
  }

  -- the registrations of released slots; none where the containers could not be listed
  unfoldable pub remove_dead : Reaped
  remove_dead =
      let s : Reaped = record { reclaimed = 0; reaped_ids = []; removals = [] } in
      elim (local_names r) [
        | none ↦ s
        | some containers ↦
            reap_all r.removing live_runners
              (offline_not_busy_owned_missing_container_registrations_for orphans containers) s
      ]

  -- the sweep, after `remove_dead`
  unfoldable pub sweep_orphans : ℕ × List ℕ
  sweep_orphans =
      sweep r.removing (r.name_prefix ++ (b'-' ∷ [])) (owned_ids file.assignments)
        remove_dead.reaped_ids live_runners (0, remove_dead.removals)

  unfoldable pub finish_release : Pass → Reconciling → Result ReleaseError ℕ × Reconciled
  finish_release pass zs = (
    ok (pass.reclaimed + zs.reclaimed + remove_dead.reclaimed + sweep_orphans.0),
    record {
      slots = zs.slots;
      saved = if r.saves_quarantine then some zs.quarantine else none;
      zombie_removals = zs.removals;
      orphan_removals = sweep_orphans.1;
    },
  )

  unfoldable pub after_pass : Pass → Result ReleaseError ℕ × Reconciled
  after_pass pass =
      let (result, zs) = reconcile_offline_busy_zombies zombies pass.slots (loaded_quarantine r) in
      elim result [
        | err e ↦
            (err (pass_failed e), record (untouched zs.slots) { zombie_removals = zs.removals })
        | ok _ ↦ finish_release pass zs
      ]

  unfoldable pub release_listed : Result ReleaseError ℕ × Reconciled
  release_listed =
      let (result, slots) = release_stale_slots_from_with_containers_for observed file in
      elim result [ err e ↦ (err (pass_failed e), untouched slots) | ok pass ↦ after_pass pass ]

unfoldable pub release_stale_slots :
    TickReadings → SlotAssignments → Result ReleaseError ℕ × Reconciled
release_stale_slots r file = elim r.live_runners [
  | err _ ↦ (ok 0, untouched file)
  | ok live_runners ↦
      if not r.readable
      then (err unreadable, untouched file)
      else release_listed r file live_runners
]
