-- ===== src/Reaper/Plan/Scenarios.antt =====
-- Tests and an instance for `plan_reaper_actions` (src/reaper.rs).
use ez_gh_actions.Base.{
  ◌≡◌, refl, Bool, true, false, none, some, List, [], ◌∷◌, Text, text, text_eq, ends_with,
}
use ez_gh_actions.Base.Decimal.{parse_uint, to_string}
use ez_gh_actions.Github.{RunnerInfo, WorkflowRun, WorkflowJob}
use ez_gh_actions.Timestamp.{
  is_leap_year, max_day, civil_days, days_from_civil, parse_i32, is_well_formed,
  parse_github_timestamp_secs,
}
use ez_gh_actions.Reaper.{ReaperPlan}
use ez_gh_actions.Reaper.Execute.{cancel_action, delete_action}
use ez_gh_actions.Reaper.Plan.{
  runner_name_allowed, job_matches_runner, has_required_labels, Limits, age_of, make_plan, plan_job,
  plan_run, plan_runs, plan_repos, plan_reaper_actions,
}
use ez_gh_actions.Reaper.Plan.Justified.{IsJustified, AllPlans, plan_reaper_actions-IsJustified}

abbrev runner : Text → Bool → RunnerInfo
runner name busy = record {
  id = 42;
  name = name;
  status = text "online";
  busy = busy;
  run_id = none;
}

abbrev run : WorkflowRun
run = record {
  id = 1;
  name = text "ci";
  display_title = text "ci";
  event = text "push";
  status = text "in_progress";
  conclusion = none;
  created_at = text "2026-07-07T08:00:00Z";
  run_started_at = some (text "2026-07-07T08:00:00Z");
  updated_at = text "2026-07-07T08:00:00Z";
  html_url = text "u";
  head_branch = none;
  head_sha = text "a";
}

abbrev job : WorkflowJob
job = record {
  id = 2;
  name = text "test";
  status = text "in_progress";
  conclusion = none;
  created_at = text "2026-07-07T08:00:00Z";
  started_at = some (text "2026-07-07T08:00:00Z");
  completed_at = none;
  runner_id = some 42;
  runner_name = none;
  runner_group_id = none;
  runner_group_name = none;
  labels = text "linux" ∷ text "ez" ∷ [];
  html_url = none;
}

-- two hours after the job's start
abbrev limits : Limits
limits = record {
  allowed_prefixes = text "ez" ∷ [];
  required_labels = text "ez" ∷ [];
  min_age_seconds = 3600;
  now_unix = 1783418400;
}

abbrev repo_runs : List (Text × List (WorkflowRun × List WorkflowJob))
repo_runs = (text "o/r", (run, job ∷ []) ∷ []) ∷ []

abbrev expected : ReaperPlan
expected = record {
  runner_id = 42;
  runner_name = text "ez-1";
  repo = text "o/r";
  run_id = 1;
  run_url = text "u";
  job_id = 2;
  job_url = none;
  age_seconds = 7200;
  sequence =
      text "POST repos/o/r/actions/runs/1/cancel"
      ∷ text "poll correlated job until it is no longer in_progress"
      ∷ text "DELETE runner registration 42"
      ∷ [];
}

plans :
    (plan_reaper_actions limits repo_runs (runner (text "ez-1") true ∷ []) ≡ expected ∷ [])
    × (plan_reaper_actions limits repo_runs (runner (text "ez-1") false ∷ []) ≡ [])
    × (plan_reaper_actions limits repo_runs (runner (text "ez1") true ∷ []) ≡ [])
    × (plan_reaper_actions
          (record limits { min_age_seconds = 7201 })
          repo_runs
          (runner (text "ez-1") true ∷ [])
        ≡ [])
unfolding runner_name_allowed job_matches_runner has_required_labels age_of make_plan plan_job
    plan_run plan_runs plan_repos plan_reaper_actions parse_github_timestamp_secs parse_i32
    parse_uint is_well_formed days_from_civil civil_days max_day is_leap_year ends_with text_eq
    to_string cancel_action delete_action
plans = (refl, refl, refl, refl)

plan_reaper_actions-IsJustified_example :
    AllPlans
      (IsJustified limits repo_runs (runner (text "ez-1") true ∷ []))
      (plan_reaper_actions limits repo_runs (runner (text "ez-1") true ∷ []))
plan_reaper_actions-IsJustified_example =
    plan_reaper_actions-IsJustified limits repo_runs (runner (text "ez-1") true ∷ [])
