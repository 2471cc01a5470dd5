-- ===== src/Stale/Orphans.antt =====
-- Registrations that no slot needs (src/docker_backend.rs): those that `release_stale_slots` removes after
-- the slots, and the self-heal by the reaper.
pub mod Idle
use ez_gh_actions.Base.{
  ℕ, zero, suc, ◌+◌, Bool, true, false, not, ◌&&◌, ◌||◌, Option, none, some, List, [], ◌∷◌, ◌++◌,
  ◌==◌, if◌then◌else◌, any, is_some_and, unwrap_or, map_option, u64_max, Text, text, text_eq,
  strip_prefix, starts_with,
}
use ez_gh_actions.Base.Decimal.{parse_uint}
use ez_gh_actions.Base.Results.{Result, ok, err}
use ez_gh_actions.BtreeMap.{BtreeMap, values}
use ez_gh_actions.BtreeMap.Slots.{contains}
use ez_gh_actions.Github.{RunnerInfo, WorkflowRun, WorkflowJob, eq_ignore_ascii_case}
use ez_gh_actions.Reaper.{ReaperApi, ReaperExecution, ReaperExecutionStatus, Call, completed}
use ez_gh_actions.Reaper.Execute.{execute_reaper_plan_with_api}
use ez_gh_actions.Reaper.Plan.{Limits, plan_reaper_actions}
use ez_gh_actions.Pool.Memory.{has}
use ez_gh_actions.Pool.Slots.{SlotAssignments, slot_in_grace_window}
use ez_gh_actions.Stale.{
  Probe, started_container_activity_for_current_assignment,
  retain_started_activity_after_grace_probe, find_runner,
}
use ez_gh_actions.Stale.Zombies.{is_runner_busy_lock_error}

abbrev pub RepoRuns : Type 0
RepoRuns = List (Text × List (WorkflowRun × List WorkflowJob))

unfoldable pub reclaim_zombie_locked_runner_with_api :
    RunnerInfo
    → RepoRuns
    → List Text
    → List Text
    → ℕ
    → ℕ
    → ReaperApi
    → List Call
    → Option (ReaperExecution × List Call)
reclaim_zombie_locked_runner_with_api runner repo_runs allowed_prefixes required_labels now
      poll_attempts api h =
    let limits : Limits = record {
      allowed_prefixes = allowed_prefixes;
      required_labels = required_labels;
      min_age_seconds = 0;
      now_unix = now;
    } in
    elim (plan_reaper_actions limits repo_runs (runner ∷ [])) [
      | [] ↦ none
      | plan ∷ _ ↦ some (execute_reaper_plan_with_api api plan poll_attempts h)
    ]

abbrev pub zombie_reclaim_poll_attempts : ℕ
zombie_reclaim_poll_attempts = 3

abbrev is_completed : ReaperExecutionStatus → Bool
is_completed completed = true
is_completed _ = false

-- the repositories are those that are configured; `repo_runs` is `none` where they cannot be listed
unfoldable pub reclaim_zombie_locked_runner :
    List Text → Option RepoRuns → Text → List Text → ℕ → ReaperApi → RunnerInfo → Bool × List Call
reclaim_zombie_locked_runner [] repo_runs name_prefix labels now api runner = (false, [])
reclaim_zombie_locked_runner (repo ∷ repos) none name_prefix labels now api runner = (false, [])
reclaim_zombie_locked_runner (repo ∷ repos) (some repo_runs) name_prefix labels now api runner =
    elim (reclaim_zombie_locked_runner_with_api runner repo_runs (name_prefix ∷ []) labels now
      zombie_reclaim_poll_attempts api []) [
        | none ↦ (false, [])
        | some (execution, calls) ↦ (is_completed execution.status, calls)
      ]

-- What the lookup reads; the probes and the clock go by the number of the runner.
pub record OrphanReadings : Type 0 where
  pub assignments : SlotAssignments
  pub live_runners : List RunnerInfo
  pub runner_prefix : Text
  pub activity_probe : Probe
  pub clock : ℕ → ℕ

-- the slot's text in a name under the prefix
abbrev pub slot_text : Text → Text → Text
slot_text prefix name = unwrap_or (strip_prefix prefix name) []

-- a registration under the prefix, offline, idle, and with no container of its name
unfoldable pub is_dead : Text → List Text → RunnerInfo → Bool
is_dead prefix local_container_names runner =
    starts_with prefix runner.name
    && (eq_ignore_ascii_case runner.status (text "offline")
        && (not runner.busy && not (has local_container_names runner.name)))

unfoldable pub in_propagation : OrphanReadings → ℕ → Text → RunnerInfo → Bool
in_propagation o k prefix runner =
    let slot = slot_text prefix runner.name in
    retain_started_activity_after_grace_probe (slot_in_grace_window o.assignments slot (o.clock k))
      (started_container_activity_for_current_assignment o.assignments slot runner.id
        (o.activity_probe k runner.name))

-- the loop over the live runners, from the `k`-th on
unfoldable pub reapable_from :
    OrphanReadings → Text → List Text → List RunnerInfo → ℕ → List (ℕ × Text)
reapable_from o prefix local_container_names [] k = []
reapable_from o prefix local_container_names (runner ∷ runners) k =
    let rest = reapable_from o prefix local_container_names runners (k + 1) in
    if is_dead prefix local_container_names runner && not (in_propagation o k prefix runner)
    then (runner.id, runner.name) ∷ rest
    else rest

unfoldable pub offline_not_busy_owned_missing_container_registrations_for :
    OrphanReadings → List Text → List (ℕ × Text)
offline_not_busy_owned_missing_container_registrations_for o local_container_names =
    if text_eq o.runner_prefix []
    then []
    else reapable_from o (o.runner_prefix ++ (b'-' ∷ [])) local_container_names o.live_runners 0

-- what the removals of this part are: by the calls so far, whether GitHub removes a runner and
-- whether its self-heal succeeds
pub record Removing : Type 0 where
  pub remove_runner : List ℕ → ℕ → Result Text Unit
  pub heal : List ℕ → RunnerInfo → Bool

-- the count, the ids that are gone, and the removals that were asked for, the latest first
pub record Reaped : Type 0 where
  pub reclaimed : ℕ
  pub reaped_ids : List ℕ
  pub removals : List ℕ

abbrev count_reaped : ℕ → Reaped → Reaped
count_reaped runner_id s = record s {
  reclaimed = s.reclaimed + 1;
  reaped_ids = runner_id ∷ s.reaped_ids;
}

unfoldable pub reap : Removing → List RunnerInfo → ℕ → Reaped → Reaped
reap gh live_runners runner_id s =
    let s' = record s { removals = runner_id ∷ s.removals } in
    elim (gh.remove_runner s.removals runner_id) [
      | ok _ ↦ count_reaped runner_id s'
      | err e ↦
          if is_runner_busy_lock_error e
            && is_some_and (find_runner live_runners runner_id) (gh.heal s'.removals)
          then count_reaped runner_id s'
          else s'
    ]

unfoldable pub reap_all : Removing → List RunnerInfo → List (ℕ × Text) → Reaped → Reaped
reap_all gh live_runners [] s = s
reap_all gh live_runners ((runner_id, _) ∷ rest) s =
    reap_all gh live_runners rest (reap gh live_runners runner_id s)

-- `owned_ids`: the ids that parse
unfoldable pub owned_ids : BtreeMap Text → List ℕ
owned_ids [] = []
owned_ids ((key, id) ∷ entries) =
    let rest = owned_ids entries in
    elim (parse_uint u64_max id) [ none ↦ rest | some rid ↦ rid ∷ rest ]

unfoldable pub is_orphan : Text → List ℕ → List ℕ → RunnerInfo → Bool
is_orphan prefix owned reaped r =
    starts_with prefix r.name
    && (not (contains owned r.id)
        && (not (contains reaped r.id)
            && (eq_ignore_ascii_case r.status (text "offline") && not r.busy)))

-- one runner of the forward sweep, with the orphans removed so far and the removals asked for
unfoldable pub sweep_runner :
    Removing → Text → List ℕ → List ℕ → RunnerInfo → ℕ × List ℕ → ℕ × List ℕ
sweep_runner gh prefix owned reaped r s =
    if is_orphan prefix owned reaped r
    then (elim (gh.remove_runner s.1 r.id) [
      | ok _ ↦ (s.0 + 1, r.id ∷ s.1)
      | err _ ↦ (s.0, r.id ∷ s.1)
    ])
    else s

unfoldable pub sweep : Removing → Text → List ℕ → List ℕ → List RunnerInfo → ℕ × List ℕ → ℕ × List ℕ
sweep gh prefix owned reaped [] s = s
sweep gh prefix owned reaped (r ∷ runners) s =
    sweep gh prefix owned reaped runners (sweep_runner gh prefix owned reaped r s)
