-- ===== src/Stale.antt =====
-- The reconciliation of the slot file with GitHub and with the containers (src/docker_backend.rs).
pub mod Entries
pub mod Zombies
pub mod Orphans
pub mod Release
mod Scenarios
use ez_gh_actions.Base.{
  ℕ, Bool, true, false, not, ◌&&◌, ◌||◌, Option, none, some, List, [], ◌∷◌, is_some, if◌then◌else◌,
  find, Text, text_eq, ◌==◌,
}
use ez_gh_actions.Base.Decimal.{to_string}
use ez_gh_actions.BtreeMap
use ez_gh_actions.Github.{RunnerInfo}
use ez_gh_actions.Pool.Slots.{SlotAssignments}

pub data LocalRunnerActivity : Type 0 where
  busy idle unknown absent : LocalRunnerActivity

-- what a probe answers by the number of the entry and the name of the container
abbrev pub Probe : Type 0
Probe = ℕ → Text → LocalRunnerActivity

-- the probe is made only for a started container of an assigned slot in its grace window
unfoldable pub started_container_activity_if_in_grace_with_state :
    SlotAssignments → Text → LocalRunnerActivity → Bool → Option LocalRunnerActivity
started_container_activity_if_in_grace_with_state self slot activity in_grace =
    elim (BtreeMap.get slot self.assignments) [
      | none ↦ none
      | some current ↦
          if text_eq current []
            || (not (is_some (BtreeMap.get slot self.container_started_at)) || not in_grace)
          then none
          else some activity
    ]

unfoldable pub retain_started_activity_after_grace_probe : Bool → Option LocalRunnerActivity → Bool
retain_started_activity_after_grace_probe in_grace_before_probe none = in_grace_before_probe
retain_started_activity_after_grace_probe in_grace_before_probe (some busy) = true
retain_started_activity_after_grace_probe in_grace_before_probe (some unknown) = true
retain_started_activity_after_grace_probe in_grace_before_probe (some idle) = in_grace_before_probe
retain_started_activity_after_grace_probe in_grace_before_probe (some absent) = false

-- the probe is made only for a started container of the slot's present assignment
unfoldable pub started_container_activity_for_current_assignment :
    SlotAssignments → Text → ℕ → LocalRunnerActivity → Option LocalRunnerActivity
started_container_activity_for_current_assignment self slot runner_id activity =
    elim (BtreeMap.get slot self.assignments) [
      | none ↦ none
      | some current ↦
          if text_eq current []
            || (not (text_eq current (to_string runner_id))
                || not (is_some (BtreeMap.get slot self.container_started_at)))
          then none
          else some activity
    ]

-- `live_runners.iter().find(|r| r.id == runner_id)`
abbrev pub find_runner : List RunnerInfo → ℕ → Option RunnerInfo
find_runner live_runners runner_id = find (λ r. r.id == runner_id) live_runners

unfoldable pub live_runners_last_run_id : List RunnerInfo → ℕ → Option ℕ
live_runners_last_run_id live_runners runner_id = elim (find_runner live_runners runner_id) [
  | none ↦ none
  | some r ↦ r.run_id
]

-- why a slot's entry was released or kept, as the ring of reclaim records has it
pub data ReclaimReason : Type 0 where
  empty_id_grace_skip empty_id_reclaim gh_rejected_container_absent : ReclaimReason
  gh_rejected_past_grace gh_missing_no_local_container : ReclaimReason
  docker_ps_failed_past_grace name_mismatch offline_idle_no_container path4_grace_skip :
      ReclaimReason
