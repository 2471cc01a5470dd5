-- ===== src/Reaper.antt =====
-- The reaper of phantom jobs (src/reaper.rs): plans, and their execution against GitHub.
pub mod Execute
pub mod Safety
pub mod Batch
pub mod Plan
mod Scenarios
use ez_gh_actions.Base.{
  ℕ, zero, suc, ◌+◌, ◌-◌, Bool, true, false, not, ◌&&◌, ◌||◌, Option, none, some, List, [], ◌∷◌,
  ◌++◌, ◌==◌, if◌then◌else◌, is_some_and, any, all, find, Text, text, text_eq,
}
use ez_gh_actions.Base.Decimal.{to_string}
use ez_gh_actions.Base.Results.{Result, ok, err}
use ez_gh_actions.Github.{WorkflowJob}

pub record ReaperPlan : Type 0 where
  pub runner_id : ℕ
  pub runner_name : Text
  pub repo : Text
  pub run_id : ℕ
  pub run_url : Text
  pub job_id : ℕ
  pub job_url : Option Text
  pub age_seconds : ℕ
  pub sequence : List Text

-- a call of the trait `ReaperApi`
pub data Call : Type 0 where
  cancel_workflow_run force_cancel_workflow_run list_workflow_jobs : Text → ℕ → Call
  remove_runner : ℕ → Call

-- `ReaperApi`: any implementation, which answers by all the calls before, the latest first.
pub record ReaperApi : Type 0 where
  pub cancel : List Call → Text → ℕ → Result Text Unit
  pub force_cancel : List Call → Text → ℕ → Result Text Unit
  pub list_jobs : List Call → Text → ℕ → Result Text (List WorkflowJob)
  pub remove : List Call → ℕ → Result Text Unit

pub data ReaperExecutionStatus : Type 0 where
  completed invalid_poll_limit duplicate_runner_plan cancel_failed : ReaperExecutionStatus
  force_cancel_failed job_lookup_failed job_missing : ReaperExecutionStatus
  job_correlation_changed poll_timed_out delete_failed : ReaperExecutionStatus

pub data ReaperStepStatus : Type 0 where
  succeeded failed skipped : ReaperStepStatus

pub record ReaperStepResult : Type 0 where
  pub action : Text
  pub status : ReaperStepStatus
  pub detail : Text

pub record ReaperExecution : Type 0 where
  pub runner_id : ℕ
  pub runner_name : Text
  pub repo : Text
  pub run_id : ℕ
  pub job_id : ℕ
  pub status : ReaperExecutionStatus
  pub steps : List ReaperStepResult

unfoldable pub new : ReaperPlan → ReaperExecution
new plan = record {
  runner_id = plan.runner_id;
  runner_name = plan.runner_name;
  repo = plan.repo;
  run_id = plan.run_id;
  job_id = plan.job_id;
  status = poll_timed_out;
  steps = [];
}

unfoldable pub push_step : Text → ReaperStepStatus → Text → ReaperExecution → ReaperExecution
push_step action status detail self = record self {
  steps = self.steps ++ record { action = action; status = status; detail = detail } ∷ [];
}

unfoldable pub set_status : ReaperExecutionStatus → ReaperExecution → ReaperExecution
set_status status self = record self { status = status }

unfoldable pub job_matches_plan : WorkflowJob → ReaperPlan → Bool
job_matches_plan job plan =
    if is_some_and job.runner_id (λ id. id == plan.runner_id)
    then true
    else is_some_and job.runner_name (λ name. text_eq name plan.runner_name)

abbrev pub in_progress : Text
in_progress = text "in_progress"

pub data PollOutcome : Type 0 where
  terminal still_in_progress poll_failed : PollOutcome

unfoldable pub poll_action : ReaperPlan → Text → Text
poll_action plan phase =
    text "poll after "
    ++ (phase
        ++ (text ": run "
            ++ (to_string plan.run_id
                ++ (text " job " ++ (to_string plan.job_id ++ text " until not in_progress")))))

unfoldable pub attempt_detail : ℕ → Text → Text
attempt_detail attempt detail = text "attempt " ++ (to_string attempt ++ (text ": " ++ detail))

-- one poll's answer: the outcome that ends the loop, or none
unfoldable pub judge_job :
    ReaperPlan → Text → ℕ → WorkflowJob → ReaperExecution → Option (PollOutcome × ReaperExecution)
judge_job plan phase attempt job exec =
    if not (job_matches_plan job plan)
    then some (
      poll_failed,
      push_step (poll_action plan phase) failed
          (attempt_detail attempt (text "correlated job no longer belongs to planned runner"))
          (set_status job_correlation_changed exec),
    )
    else if not (text_eq job.status in_progress)
    then some (
      terminal,
      push_step (poll_action plan phase) succeeded
          (attempt_detail attempt (text "job status=" ++ job.status)) exec,
    )
    else none

unfoldable pub judge_poll :
    ReaperPlan
    → Text
    → ℕ
    → Result Text (List WorkflowJob)
    → ReaperExecution
    → Option (PollOutcome × ReaperExecution)
judge_poll plan phase attempt (err e) exec = some (
  poll_failed,
  push_step (poll_action plan phase) failed (attempt_detail attempt e)
      (set_status job_lookup_failed exec),
)
judge_poll plan phase attempt (ok jobs) exec = elim (find (λ job. job.id == plan.job_id) jobs) [
  | none ↦ some (
    poll_failed,
    push_step (poll_action plan phase) failed
        (attempt_detail attempt (text "correlated job missing")) (set_status job_missing exec),
  )
  | some job ↦ judge_job plan phase attempt job exec
]

abbrev pub Polled : Type 0
Polled = PollOutcome × ReaperExecution × List Call

-- the polls left, the number of the next one, and the configured number
unfoldable pub poll_loop :
    ReaperApi → ReaperPlan → Text → ℕ → ℕ → ℕ → ReaperExecution → List Call → Polled
poll_loop api plan phase limit zero attempt exec h = (
  still_in_progress,
  push_step (poll_action plan phase) failed
      (text "job stayed in_progress for " ++ (to_string limit ++ text " poll attempts"))
      (set_status poll_timed_out exec),
  h,
)
poll_loop api plan phase limit (suc left) attempt exec h =
    let h' = list_workflow_jobs plan.repo plan.run_id ∷ h in
    elim (judge_poll plan phase attempt (api.list_jobs h plan.repo plan.run_id) exec) [
      | some (outcome, exec') ↦ (outcome, exec', h')
      | none ↦ poll_loop api plan phase limit left (attempt + 1) exec h'
    ]

unfoldable pub poll_until_job_terminal :
    ReaperApi → ReaperPlan → ReaperExecution → ℕ → Text → List Call → Polled
poll_until_job_terminal api plan exec poll_attempts phase h =
    poll_loop api plan phase poll_attempts poll_attempts 1 exec h
