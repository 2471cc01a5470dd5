-- ===== src/Reaper/Scenarios.antt =====
-- Tests and instances for src/reaper.rs: the fake of its tests, as an answer to the calls so far.
use ez_gh_actions.Base.{
  ℕ, ◌≤◌, ◌≡◌, refl, true, none, some, List, [], ◌∷◌, Text, text, text_eq, length, if◌then◌else◌,
  leb,
}
use ez_gh_actions.Base.Results.{ok}
use ez_gh_actions.Github.{WorkflowJob}
use ez_gh_actions.Reaper.{
  ReaperPlan, ReaperApi, Call, cancel_workflow_run, list_workflow_jobs, remove_runner, completed,
  poll_timed_out, new, push_step, set_status, job_matches_plan, judge_job, judge_poll, poll_loop,
  poll_until_job_terminal,
}
use ez_gh_actions.Reaper.Execute.{
  delete_runner, skip_delete, after_force, force, after_cancel, execute_reaper_plan_with_api,
  execute_from, execute_reaper_plans_with_api,
}
use ez_gh_actions.Reaper.Safety.{terminal_seen, deletes, deletion_guarded}
use ez_gh_actions.Reaper.Batch.{batch_deletes_once}

reaper_code : Unit {0}
unfolding new push_step set_status job_matches_plan judge_job judge_poll poll_loop
    poll_until_job_terminal delete_runner skip_delete after_force force after_cancel
    execute_reaper_plan_with_api execute_from execute_reaper_plans_with_api text_eq
reaper_code = tt

abbrev job : Text → WorkflowJob
job status = record {
  id = 2;
  name = text "test";
  status = status;
  conclusion = none;
  created_at = text "2026-07-07T08:00:00Z";
  started_at = some (text "2026-07-07T08:00:00Z");
  completed_at = none;
  runner_id = some 42;
  runner_name = some (text "ez-runner-c-1");
  runner_group_id = some 1;
  runner_group_name = some (text "Default");
  labels = text "self-hosted" ∷ [];
  html_url = none;
}

abbrev plan : ReaperPlan
plan = record {
  runner_id = 42;
  runner_name = text "ez-runner-c-1";
  repo = text "o/r";
  run_id = 1;
  run_url = text "u";
  job_id = 2;
  job_url = none;
  age_seconds = 7200;
  sequence = [];
}

-- the job stays in progress for the first `n` calls
abbrev api : ℕ → ReaperApi
api n = record {
  cancel = λ h repo run. ok tt;
  force_cancel = λ h repo run. ok tt;
  list_jobs = λ h repo run.
      ok (job (if leb (length h) n then text "in_progress" else text "completed") ∷ []);
  remove = λ h id. ok tt;
}

completes :
    ((execute_reaper_plan_with_api (api 1) plan 3 []).0.status ≡ completed)
    × ((execute_reaper_plan_with_api (api 1) plan 3 []).1
        ≡ remove_runner 42
          ∷ list_workflow_jobs (text "o/r") 1
          ∷ list_workflow_jobs (text "o/r") 1
          ∷ cancel_workflow_run (text "o/r") 1
          ∷ [])
unfolding reaper_code
completes = (refl, refl)

times_out : (execute_reaper_plan_with_api (api 99) plan 3 []).0.status ≡ poll_timed_out
unfolding reaper_code
times_out = refl

deletion_guarded_example :
    (before : List Call) × ((execute_reaper_plan_with_api (api 1) plan 3 []).1
      ≡ remove_runner 42 ∷ before)
    × (terminal_seen (api 1) plan before ≡ true)
    × ((execute_reaper_plan_with_api (api 1) plan 3 []).0.status ≡ completed
        → (api 1).remove before 42 ≡ ok tt)
unfolding reaper_code
deletion_guarded_example = (deletion_guarded (api 1) plan 3 []).0 refl

batch_deletes_once_example :
    (deletes 42 (execute_reaper_plans_with_api (api 1) (plan ∷ plan ∷ []) 3 []).1 ≤ 1)
    × (length (execute_reaper_plans_with_api (api 1) (plan ∷ plan ∷ []) 3 []).0 ≡ 2)
batch_deletes_once_example = batch_deletes_once (api 1) (plan ∷ plan ∷ []) 3 42 []
