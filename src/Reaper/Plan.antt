-- ===== src/Reaper/Plan.antt =====
-- `plan_reaper_actions` (src/reaper.rs): which jobs are taken for phantoms.
pub mod Justified
mod Scenarios
use ez_gh_actions.Base.{
  ℕ, ◌-◌, Bool, true, false, not, ◌&&◌, ◌||◌, Option, none, some, List, [], ◌∷◌, ◌++◌, ◌==◌, ltb,
  if◌then◌else◌, is_some_and, any, all, find, Text, text, text_eq, strip_prefix, starts_with,
}
use ez_gh_actions.Base.Integers.{ℤ, pos, negsuc}
use ez_gh_actions.Github.{RunnerInfo, WorkflowRun, WorkflowJob}
use ez_gh_actions.Timestamp.{parse_github_timestamp_secs}
use ez_gh_actions.Reaper.{ReaperPlan, in_progress}
use ez_gh_actions.Reaper.Execute.{cancel_action, delete_action}

unfoldable pub runner_name_allowed : Text → List Text → Bool
runner_name_allowed name allowed_prefixes =
    any (λ prefix. is_some_and (strip_prefix prefix name) (λ rest. starts_with (text "-") rest))
      allowed_prefixes

unfoldable pub job_matches_runner : WorkflowJob → RunnerInfo → Bool
job_matches_runner job runner =
    if is_some_and job.runner_id (λ id. id == runner.id)
    then true
    else is_some_and job.runner_name (λ name. text_eq name runner.name)

unfoldable pub has_required_labels : WorkflowJob → List Text → Bool
has_required_labels job required_labels =
    all (λ required. any (λ label. text_eq label required) job.labels) required_labels

pub record Limits : Type 0 where
  pub allowed_prefixes : List Text
  pub required_labels : List Text
  pub min_age_seconds : ℕ
  pub now_unix : ℕ

-- `job.started_at`, or else `run.run_started_at`
abbrev started : WorkflowRun → WorkflowJob → Option Text
started run job = elim job.started_at [ some at ↦ some at | none ↦ run.run_started_at ]

-- the age of a job whose start can be parsed and is not before the epoch
unfoldable pub age_of : Limits → WorkflowRun → WorkflowJob → Option ℕ
age_of limits run job = elim (started run job) [
  | none ↦ none
  | some at ↦ elim (parse_github_timestamp_secs at) [
    | none ↦ none
    | some (negsuc _) ↦ none
    | some (pos seconds) ↦ some (limits.now_unix - seconds)
  ]
]

-- the plan without its sequence of requests
abbrev bare : RunnerInfo → Text → WorkflowRun → WorkflowJob → ℕ → ReaperPlan
bare runner repo run job age = record {
  runner_id = runner.id;
  runner_name = runner.name;
  repo = repo;
  run_id = run.id;
  run_url = run.html_url;
  job_id = job.id;
  job_url = job.html_url;
  age_seconds = age;
  sequence = [];
}

unfoldable pub make_plan : RunnerInfo → Text → WorkflowRun → WorkflowJob → ℕ → ReaperPlan
make_plan runner repo run job age =
    let plan = bare runner repo run job age in
    record plan {
      sequence =
          cancel_action plan
          ∷ text "poll correlated job until it is no longer in_progress"
          ∷ delete_action plan
          ∷ [];
    }

unfoldable pub plan_job : Limits → RunnerInfo → Text → WorkflowRun → WorkflowJob → List ReaperPlan
plan_job limits runner repo run job =
    if not (text_eq job.status in_progress) || not (has_required_labels job limits.required_labels)
    then []
    else elim (age_of limits run job) [
      | none ↦ []
      | some age ↦
          if ltb age limits.min_age_seconds then [] else make_plan runner repo run job age ∷ []
    ]

unfoldable pub plan_run :
    Limits → RunnerInfo → Text → WorkflowRun → List WorkflowJob → List ReaperPlan
plan_run limits runner repo run jobs =
    if not (text_eq run.status in_progress)
    then []
    else elim (find (λ job. job_matches_runner job runner) jobs) [
      | none ↦ []
      | some job ↦ plan_job limits runner repo run job
    ]

unfoldable pub plan_runs :
    Limits → RunnerInfo → Text → List (WorkflowRun × List WorkflowJob) → List ReaperPlan
plan_runs limits runner repo [] = []
plan_runs limits runner repo ((run, jobs) ∷ runs) =
    plan_run limits runner repo run jobs ++ plan_runs limits runner repo runs

unfoldable pub plan_repos :
    Limits → RunnerInfo → List (Text × List (WorkflowRun × List WorkflowJob)) → List ReaperPlan
plan_repos limits runner [] = []
plan_repos limits runner ((repo, runs) ∷ repos) =
    plan_runs limits runner repo runs ++ plan_repos limits runner repos

unfoldable pub plan_reaper_actions :
    Limits → List (Text × List (WorkflowRun × List WorkflowJob)) → List RunnerInfo → List ReaperPlan
plan_reaper_actions limits repo_runs [] = []
plan_reaper_actions limits repo_runs (runner ∷ runners) =
    let rest = plan_reaper_actions limits repo_runs runners in
    if not runner.busy || not (runner_name_allowed runner.name limits.allowed_prefixes)
    then rest
    else plan_repos limits runner repo_runs ++ rest
