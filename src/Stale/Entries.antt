-- ===== src/Stale/Entries.antt =====
-- `release_stale_slots_from_with_containers_and_activity_for` (src/docker_backend.rs): which entries
-- of the slot file a reconciliation releases.
pub mod Verdicts
pub mod Kept
pub mod Freed
use ez_gh_actions.Base.{
  ℕ, zero, suc, ◌+◌, Bool, true, false, not, ◌&&◌, ◌||◌, Option, none, some, List, [], ◌∷◌,
  if◌then◌else◌, unwrap_or, u32_max, u64_max, Text, text, text_eq,
}
use ez_gh_actions.Base.Decimal.{parse_uint}
use ez_gh_actions.Base.Results.{Result, ok, err}
use ez_gh_actions.BtreeMap.{BtreeMap}
use ez_gh_actions.Github.{RunnerInfo, eq_ignore_ascii_case}
use ez_gh_actions.Pool.Memory.{has}
use ez_gh_actions.Pool.Released.{runner_name_for}
use ez_gh_actions.Pool.Slots.{
  SlotAssignments, SlotError, slot_in_grace_window, empty_id_reservation_in_grace_window,
  release_slot_for,
}
use ez_gh_actions.Stale.{
  LocalRunnerActivity, busy, idle, unknown, absent, Probe,
  started_container_activity_if_in_grace_with_state, retain_started_activity_after_grace_probe,
  find_runner, live_runners_last_run_id, ReclaimReason, empty_id_grace_skip, empty_id_reclaim,
  gh_rejected_container_absent, gh_rejected_past_grace, gh_missing_no_local_container,
  docker_ps_failed_past_grace, name_mismatch, offline_idle_no_container,
}

-- What the pass reads: the snapshots, and by the number of the entry the clock, the probes, and
-- whether the slot file can be read and written.
pub record Observed : Type 0 where
  pub assignments : SlotAssignments
  pub live_runners : List RunnerInfo
  pub runner_prefix : Text
  pub local_container_names : Option (List Text)
  pub activity_probe : Probe
  pub grace_check : ℕ → SlotAssignments → Text → Bool
  pub clock : ℕ → ℕ
  pub reads : ℕ → Bool
  pub writes : ℕ → Bool

-- what becomes of an entry; `last_run_id` is that of the reclaim record
pub data Verdict : Type 0 where
  skipped kept : Verdict
  grace_skipped : ℕ → Verdict
  reclaim : ℕ → ℕ → ℕ → ReclaimReason → Verdict

module _ (o : Observed) (k : ℕ) where
  abbrev last_run_id : ℕ → ℕ
  last_run_id rid = unwrap_or (live_runners_last_run_id o.live_runners rid) 0

  abbrev expected_name : ℕ → Text
  expected_name slot = runner_name_for o.runner_prefix slot

  unfoldable pub judge_empty : Text → Text → ℕ → Verdict
  judge_empty key id slot =
      if empty_id_reservation_in_grace_window o.assignments key id (o.clock k)
      then grace_skipped slot
      else reclaim slot 0 0 empty_id_reclaim

  -- the activity, if it is probed for the sake of the grace window
  abbrev started_activity : Text → ℕ → Option LocalRunnerActivity
  started_activity key slot =
      started_container_activity_if_in_grace_with_state o.assignments key
        (o.activity_probe k (expected_name slot)) (o.grace_check k o.assignments key)

  abbrev retained : Text → ℕ → Bool
  retained key slot =
      retain_started_activity_after_grace_probe (o.grace_check k o.assignments key)
        (started_activity key slot)

  unfoldable pub judge_activity : ℕ → ℕ → LocalRunnerActivity → Verdict
  judge_activity slot rid busy = kept
  judge_activity slot rid unknown = kept
  judge_activity slot rid absent = reclaim slot rid (last_run_id rid) gh_rejected_container_absent
  judge_activity slot rid idle = reclaim slot rid (last_run_id rid) gh_rejected_past_grace

  -- GitHub does not list the recorded runner
  unfoldable pub judge_missing : Text → ℕ → ℕ → Verdict
  judge_missing key slot rid = elim o.local_container_names [
    | none ↦
        if slot_in_grace_window o.assignments key (o.clock k)
        then kept
        else reclaim slot rid (last_run_id rid) docker_ps_failed_past_grace
    | some local_names ↦
        if has local_names (expected_name slot)
        then (if retained key slot
            then kept
            else judge_activity slot rid
                (unwrap_or (started_activity key slot) (o.activity_probe k (expected_name slot))))
        else if retained key slot
        then kept
        else reclaim slot rid (last_run_id rid) gh_missing_no_local_container
  ]

  -- GitHub lists the recorded runner
  unfoldable pub judge_live : Text → ℕ → ℕ → RunnerInfo → Verdict
  judge_live key slot rid runner =
      if not (text_eq o.runner_prefix []) && not (text_eq runner.name (expected_name slot))
      then reclaim slot rid (last_run_id rid) name_mismatch
      else elim o.local_container_names [
        | none ↦ kept
        | some local_names ↦
            if eq_ignore_ascii_case runner.status (text "offline")
              && (not runner.busy && not (has local_names (expected_name slot)))
            then (if retained key slot
                then kept
                else reclaim slot rid (last_run_id rid) offline_idle_no_container)
            else kept
      ]

  unfoldable pub judge_registered : Text → Text → ℕ → Verdict
  judge_registered key id slot = elim (parse_uint u64_max id) [
    | none ↦ kept
    | some rid ↦ elim (find_runner o.live_runners rid) [
      | none ↦ judge_missing key slot rid
      | some runner ↦ judge_live key slot rid runner
    ]
  ]

  unfoldable pub judge : Text → Text → Verdict
  judge key id = elim (parse_uint u32_max key) [
    | none ↦ skipped
    | some slot ↦ if text_eq id [] then judge_empty key id slot else judge_registered key id slot
  ]

-- a record of the reclaim ring, without its clocks
pub record ReclaimRecord : Type 0 where
  pub slot : ℕ
  pub runner_id : ℕ
  pub last_run_id : ℕ
  pub in_grace : Bool
  pub reason : ReclaimReason

-- the slot file, the count, and the records, the latest first
pub record Pass : Type 0 where
  pub slots : SlotAssignments
  pub reclaimed : ℕ
  pub records : List ReclaimRecord

unfoldable pub settle : Observed → ℕ → Verdict → Pass → Result SlotError Pass × SlotAssignments
settle o k skipped s = (ok s, s.slots)
settle o k kept s = (ok s, s.slots)
settle o k (grace_skipped slot) s = (
  ok (record s {
    records =
        record {
          slot = slot;
          runner_id = 0;
          last_run_id = 0;
          in_grace = true;
          reason = empty_id_grace_skip;
        }
        ∷ s.records;
  }),
  s.slots,
)
settle o k (reclaim slot rid last reason) s =
    let (result, slots) = release_slot_for (o.reads k) (o.writes k) slot s.slots in
    elim result [
      | err e ↦ (err e, slots)
      | ok _ ↦ (
        ok (record {
          slots = slots;
          reclaimed = s.reclaimed + 1;
          records =
              record {
                slot = slot;
                runner_id = rid;
                last_run_id = last;
                in_grace = false;
                reason = reason;
              }
              ∷ s.records;
        }),
        slots,
      )
    ]

-- the loop over the entries as they were read, from the `k`-th on; an error ends it
unfoldable pub release_from :
    Observed → BtreeMap Text → ℕ → Pass → Result SlotError Pass × SlotAssignments
release_from o [] k s = (ok s, s.slots)
release_from o ((key, id) ∷ entries) k s =
    let (result, slots) = settle o k (judge o k key id) s in
    elim result [ err e ↦ (err e, slots) | ok s' ↦ release_from o entries (k + 1) s' ]

-- `slots` is the slot file, of which `assignments` is the snapshot
unfoldable pub release_stale_slots_from_with_containers_and_activity_for :
    Observed → SlotAssignments → Result SlotError Pass × SlotAssignments
release_stale_slots_from_with_containers_and_activity_for o slots =
    release_from o o.assignments.assignments 0
      (record { slots = slots; reclaimed = 0; records = [] })

-- the production entry: the grace window is read against the clock
unfoldable pub release_stale_slots_from_with_containers_for :
    Observed → SlotAssignments → Result SlotError Pass × SlotAssignments
release_stale_slots_from_with_containers_for o slots =
    release_stale_slots_from_with_containers_and_activity_for
      (record o { grace_check = λ k self slot. slot_in_grace_window self slot (o.clock k) }) slots
