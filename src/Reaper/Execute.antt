-- ===== src/Reaper/Execute.antt =====
-- `execute_reaper_plan_with_api` and its batch (src/reaper.rs): cancel, poll, force, poll, delete.
use ez_gh_actions.Base.{ℕ, zero, suc, true, false, List, [], ◌∷◌, ◌++◌, ◌==◌, any, Text, text}
use ez_gh_actions.Base.Decimal.{to_string}
use ez_gh_actions.Base.Results.{ok, err}
use ez_gh_actions.Reaper.{
  ReaperPlan, Call, cancel_workflow_run, force_cancel_workflow_run, remove_runner, ReaperApi,
  completed, invalid_poll_limit, duplicate_runner_plan, cancel_failed, force_cancel_failed,
  poll_timed_out, delete_failed, succeeded, failed, skipped, ReaperExecution, new, push_step,
  set_status, terminal, still_in_progress, poll_failed, Polled, poll_until_job_terminal,
}

unfoldable pub cancel_action : ReaperPlan → Text
cancel_action plan =
    text "POST repos/"
    ++ (plan.repo ++ (text "/actions/runs/" ++ (to_string plan.run_id ++ text "/cancel")))

unfoldable pub force_action : ReaperPlan → Text
force_action plan =
    text "POST repos/"
    ++ (plan.repo ++ (text "/actions/runs/" ++ (to_string plan.run_id ++ text "/force-cancel")))

unfoldable pub delete_action : ReaperPlan → Text
delete_action plan = text "DELETE runner registration " ++ to_string plan.runner_id

-- the deletion that ends a plan whose job is terminal
unfoldable pub delete_runner :
    ReaperApi → ReaperPlan → ReaperExecution → List Call → ReaperExecution × List Call
delete_runner api plan exec h = (
  elim (api.remove h plan.runner_id) [
    | err e ↦ push_step (delete_action plan) failed e (set_status delete_failed exec)
    | ok _ ↦
        push_step (delete_action plan) succeeded (text "runner registration removed")
          (set_status completed exec)
  ],
  remove_runner plan.runner_id ∷ h,
)

unfoldable pub skip_delete : ReaperPlan → Text → ReaperExecution → ReaperExecution
skip_delete plan detail exec = push_step (delete_action plan) skipped detail exec

-- after the polls that follow the forced cancel
unfoldable pub after_force : ReaperApi → ReaperPlan → Polled → ReaperExecution × List Call
after_force api plan (terminal, exec, h) = delete_runner api plan exec h
after_force api plan (still_in_progress, exec, h) =
    (skip_delete plan (text "job still in_progress") (set_status poll_timed_out exec), h)
after_force api plan (poll_failed, exec, h) =
    (skip_delete plan (text "post-force-cancel polling failed") exec, h)

unfoldable pub force :
    ReaperApi → ReaperPlan → ℕ → ReaperExecution → List Call → ReaperExecution × List Call
force api plan poll_attempts exec h =
    let h' = force_cancel_workflow_run plan.repo plan.run_id ∷ h in
    elim (api.force_cancel h plan.repo plan.run_id) [
      | err e ↦ (
        skip_delete plan (text "force-cancel failed")
            (push_step (force_action plan) failed e (set_status force_cancel_failed exec)),
        h',
      )
      | ok _ ↦ after_force api plan (
          poll_until_job_terminal api plan
            (push_step (force_action plan) succeeded (text "force-cancel accepted") exec)
            poll_attempts (text "force-cancel") h')
    ]

-- after the polls that follow the cancel
unfoldable pub after_cancel : ReaperApi → ReaperPlan → ℕ → Polled → ReaperExecution × List Call
after_cancel api plan poll_attempts (terminal, exec, h) = delete_runner api plan exec h
after_cancel api plan poll_attempts (still_in_progress, exec, h) =
    force api plan poll_attempts exec h
after_cancel api plan poll_attempts (poll_failed, exec, h) =
    (skip_delete plan (text "post-cancel polling failed") exec, h)

unfoldable pub execute_reaper_plan_with_api :
    ReaperApi → ReaperPlan → ℕ → List Call → ReaperExecution × List Call
execute_reaper_plan_with_api api plan zero h = (
  push_step (text "validate poll attempts") failed (text "poll_attempts must be greater than zero")
      (set_status invalid_poll_limit (new plan)),
  h,
)
execute_reaper_plan_with_api api plan (suc n) h =
    let h' = cancel_workflow_run plan.repo plan.run_id ∷ h in
    elim (api.cancel h plan.repo plan.run_id) [
      | err e ↦ (
        skip_delete plan (text "cancel failed")
            (push_step (cancel_action plan) failed e (set_status cancel_failed (new plan))),
        h',
      )
      | ok _ ↦ after_cancel api plan (suc n) (
          poll_until_job_terminal api plan
            (push_step (cancel_action plan) succeeded (text "cancel accepted") (new plan)) (suc n)
            (text "cancel") h')
    ]

abbrev pub duplicate_execution : ReaperPlan → ReaperExecution
duplicate_execution plan =
    push_step (text "validate unique runner plan") failed
      (text "runner already has a reaper plan in this batch")
      (set_status duplicate_runner_plan (new plan))

-- the loop over the plans, with the runner ids seen so far
unfoldable pub execute_from :
    ReaperApi → ℕ → List ℕ → List ReaperPlan → List Call → List ReaperExecution × List Call
execute_from api poll_attempts seen [] h = ([], h)
execute_from api poll_attempts seen (plan ∷ plans) h =
    elim (any (λ id. id == plan.runner_id) seen) [
      | true ↦
          let (rest, h') = execute_from api poll_attempts seen plans h in
          (duplicate_execution plan ∷ rest, h')
      | false ↦
          let (execution, h') = execute_reaper_plan_with_api api plan poll_attempts h in
          let (rest, h'') = execute_from api poll_attempts (plan.runner_id ∷ seen) plans h' in
          (execution ∷ rest, h'')
    ]

unfoldable pub execute_reaper_plans_with_api :
    ReaperApi → List ReaperPlan → ℕ → List Call → List ReaperExecution × List Call
execute_reaper_plans_with_api api plans poll_attempts h = execute_from api poll_attempts [] plans h
