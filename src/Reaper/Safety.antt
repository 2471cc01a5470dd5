-- ===== src/Reaper/Safety.antt =====
-- When the reaper of src/reaper.rs deletes a runner, and how often it calls GitHub.
use ez_gh_actions.Base.{
  ℕ, zero, suc, ◌+◌, ◌*◌, ◌≤◌, ◌≡◌, refl, inl, inr, Bool, true, false, not, ◌&&◌, some, List, [],
  ◌∷◌, arith, ◌==◌, if◌then◌else◌, is_some_and, find, length, Text, text_eq, text_eq_refl, ==_refl,
  Option-cases,
}
use ez_gh_actions.Base.Results.{Result, ok, err, Result-cases}
use ez_gh_actions.Github.{WorkflowJob}
use ez_gh_actions.Reaper.{
  ReaperPlan, Call, cancel_workflow_run, force_cancel_workflow_run, list_workflow_jobs,
  remove_runner, ReaperApi, ReaperExecutionStatus, completed, delete_failed, ReaperExecution,
  job_matches_plan, in_progress, PollOutcome, terminal, still_in_progress, poll_failed, judge_job,
  judge_poll, Polled, poll_loop, poll_until_job_terminal, push_step, set_status,
}
use ez_gh_actions.Reaper.Execute.{
  delete_runner, skip_delete, after_force, force, after_cancel, execute_reaper_plan_with_api,
}

-- the reply shows the planned job, still of the planned runner, and no longer in progress
abbrev pub job_is_terminal : ReaperPlan → Result Text (List WorkflowJob) → Bool
job_is_terminal plan (err e) = false
job_is_terminal plan (ok jobs) =
    is_some_and (find (λ job. job.id == plan.job_id) jobs)
      (λ job. job_matches_plan job plan && not (text_eq job.status in_progress))

-- the latest call asked for the planned run's jobs, and its reply was terminal
abbrev pub terminal_seen : ReaperApi → ReaperPlan → List Call → Bool
terminal_seen api plan (list_workflow_jobs repo run ∷ h) =
    text_eq repo plan.repo
    && (run == plan.run_id && job_is_terminal plan (api.list_jobs h repo run))
terminal_seen api plan _ = false

-- how often a runner's deletion was asked for
abbrev pub deletes : ℕ → List Call → ℕ
deletes id [] = 0
deletes id (remove_runner r ∷ h) = if r == id then suc (deletes id h) else deletes id h
deletes id (_ ∷ h) = deletes id h

-- the statuses with which an execution ends that asked for the deletion
abbrev pub attempted_delete : ReaperExecutionStatus → Bool
attempted_delete completed = true
attempted_delete delete_failed = true
attempted_delete _ = false

judge_job-terminal :
    (plan : ReaperPlan) (phase : Text) (attempt : ℕ) (job : WorkflowJob) (exec : ReaperExecution)
    {o : PollOutcome} {exec' : ReaperExecution}
    → judge_job plan phase attempt job exec ≡ some (o, exec')
    → (o ≡ terminal → (job_matches_plan job plan && not (text_eq job.status in_progress)) ≡ true)
      × (o ≡ poll_failed → attempted_delete exec'.status ≡ false)
unfolding judge_job push_step set_status
judge_job-terminal plan phase attempt job exec h = ground arith

judge_poll-terminal :
    (plan : ReaperPlan) (phase : Text) (attempt : ℕ) (reply : Result Text (List WorkflowJob))
    (exec : ReaperExecution) {o : PollOutcome} {exec' : ReaperExecution}
    → judge_poll plan phase attempt reply exec ≡ some (o, exec')
    → (o ≡ terminal → job_is_terminal plan reply ≡ true)
      × (o ≡ poll_failed → attempted_delete exec'.status ≡ false)
unfolding judge_poll push_step set_status
judge_poll-terminal plan phase attempt (err e) exec h = ground arith
judge_poll-terminal plan phase attempt (ok jobs) exec {o} {exec'} h =
    elim (Option-cases (find (λ job. job.id == plan.job_id) jobs)) [
      | inl e ↦ ground arith
      | inr (job, e) ↦
          ground (arith, judge_job-terminal plan phase attempt job exec {o = o} {exec' = exec'})
    ]

-- what a bounded round of polls leaves behind
record PollPost (api : ReaperApi) (plan : ReaperPlan) (left : ℕ) (h : List Call) (r : Polled)
    : Type 0 where
  bounded : length r.2 ≤ length h + left
  kept : (id : ℕ) → deletes id r.2 ≡ deletes id h
  seen : r.0 ≡ terminal → terminal_seen api plan r.2 ≡ true
  ended : r.0 ≡ poll_failed → attempted_delete r.1.status ≡ false

poll_loop-PollPost :
    (api : ReaperApi) (plan : ReaperPlan) (phase : Text) (limit left attempt : ℕ)
    (exec : ReaperExecution) (h : List Call)
    → PollPost api plan left h (poll_loop api plan phase limit left attempt exec h)
unfolding poll_loop
poll_loop-PollPost api plan phase limit zero attempt exec h = record {
  bounded = omega arith;
  kept = λ id. refl;
  seen = λ e. cc;
  ended = λ e. cc;
}
poll_loop-PollPost api plan phase limit (suc left) attempt exec h =
    let reply = api.list_jobs h plan.repo plan.run_id in
    let h' = list_workflow_jobs plan.repo plan.run_id ∷ h in
    let later : PollPost api plan left h'
        (poll_loop api plan phase limit left (attempt + 1) exec h') =
      poll_loop-PollPost api plan phase limit left (attempt + 1) exec h' in
    elim (Option-cases (judge_poll plan phase attempt reply exec)) [
      | inl e ↦
          rw (e, poll_loop)
            (record {
              bounded = omega (arith, later.bounded);
              kept = later.kept;
              seen = later.seen;
              ended = later.ended;
            })
      | inr ((o, exec'), e) ↦
          let judged = judge_poll-terminal plan phase attempt reply exec e in
          rw (e, poll_loop)
            (record {
              bounded = omega arith;
              kept = λ id. refl;
              seen = λ t. rw (text_eq_refl plan.repo) (rw (==_refl plan.run_id) (judged.0 t));
              ended = judged.1;
            })
    ]

-- what a part of an execution that may end in the deletion leaves behind
record DeletePost (api : ReaperApi) (plan : ReaperPlan) (calls : ℕ) (h : List Call)
    (r : ReaperExecution × List Call) : Type 0 where
  bounded : length r.1 ≤ length h + calls
  counted :
      (id : ℕ)
      → deletes id r.1
        ≡ deletes id h + (if attempted_delete r.0.status && plan.runner_id == id then 1 else 0)
  guarded :
      attempted_delete r.0.status ≡ true
      → (before : List Call) × (r.1 ≡ remove_runner plan.runner_id ∷ before)
        × (terminal_seen api plan before ≡ true)
        × (r.0.status ≡ completed → api.remove before plan.runner_id ≡ ok tt)

delete_runner-DeletePost :
    (api : ReaperApi) (plan : ReaperPlan) (exec : ReaperExecution) (h : List Call)
    → terminal_seen api plan h ≡ true
    → DeletePost api plan 1 h (delete_runner api plan exec h)
unfolding delete_runner push_step set_status
delete_runner-DeletePost api plan exec h seen = elim (Result-cases (api.remove h plan.runner_id)) [
  | inl (u, e) ↦ record {
    bounded = omega arith;
    counted = λ id. ground arith;
    guarded = λ a. (h, refl, seen, λ c. e);
  }
  | inr (x, e) ↦ record {
    bounded = omega arith;
    counted = λ id. ground arith;
    guarded = λ a. (h, refl, seen, λ c. ground arith);
  }
]

-- a part that ends without asking for the deletion
skipped-DeletePost :
    (api : ReaperApi) (plan : ReaperPlan) (calls : ℕ) (h h' : List Call) (exec : ReaperExecution)
    → attempted_delete exec.status ≡ false
    → length h' ≤ length h + calls
    → ((id : ℕ) → deletes id h' ≡ deletes id h)
    → DeletePost api plan calls h (exec, h')
skipped-DeletePost api plan calls h h' exec no_delete le kept = record {
  bounded = le;
  counted = λ id. ground (arith, kept id);
  guarded = λ a. absurd (cc);
}

-- the calls made before such a part
earlier-DeletePost :
    (api : ReaperApi) (plan : ReaperPlan) (calls more : ℕ) (h h' : List Call)
    (r : ReaperExecution × List Call)
    → length h' + calls ≤ length h + more
    → ((id : ℕ) → deletes id h' ≡ deletes id h)
    → DeletePost api plan calls h' r
    → DeletePost api plan more h r
earlier-DeletePost api plan calls more h h' r le kept post = record {
  bounded = omega (arith, post.bounded);
  counted = λ id. omega (arith, post.counted id, kept id);
  guarded = post.guarded;
}

after_force-DeletePost :
    (api : ReaperApi) (plan : ReaperPlan) (left : ℕ) (h : List Call) (r : Polled)
    → PollPost api plan left h r
    → DeletePost api plan (left + 1) h (after_force api plan r)
unfolding after_force skip_delete push_step set_status
after_force-DeletePost api plan left h (terminal, exec, h') p =
    earlier-DeletePost api plan 1 (left + 1) h h' _ (omega (arith, p.bounded)) p.kept
      (delete_runner-DeletePost api plan exec h' (p.seen refl))
after_force-DeletePost api plan left h (still_in_progress, exec, h') p =
    skipped-DeletePost api plan (left + 1) h h' _ refl (omega (arith, p.bounded)) p.kept
after_force-DeletePost api plan left h (poll_failed, exec, h') p =
    skipped-DeletePost api plan (left + 1) h h' _ (p.ended refl) (omega (arith, p.bounded)) p.kept

poll_until_job_terminal-PollPost :
    (api : ReaperApi) (plan : ReaperPlan) (exec : ReaperExecution) (n : ℕ) (phase : Text)
    (h : List Call)
    → PollPost api plan n h (poll_until_job_terminal api plan exec n phase h)
unfolding poll_until_job_terminal
poll_until_job_terminal-PollPost api plan exec n phase h =
    poll_loop-PollPost api plan phase n n 1 exec h

force-DeletePost :
    (api : ReaperApi) (plan : ReaperPlan) (n : ℕ) (exec : ReaperExecution) (h : List Call)
    → DeletePost api plan (n + 2) h (force api plan n exec h)
unfolding force
force-DeletePost api plan n exec h =
    let h' = force_cancel_workflow_run plan.repo plan.run_id ∷ h in
    elim (Result-cases (api.force_cancel h plan.repo plan.run_id)) [
      | inl (u, e) ↦
          rw (e, force)
            (earlier-DeletePost api plan (n + 1) (n + 2) h h' _ (omega arith) (λ id. refl)
              (after_force-DeletePost api plan n h' _
                (poll_until_job_terminal-PollPost api plan _ n _ h')))
      | inr (x, e) ↦
          rw (e, force)
            (skipped-DeletePost api plan (n + 2) h h' _
              (unfold skip_delete push_step set_status in refl) (omega arith) (λ id. refl))
    ]

after_cancel-DeletePost :
    (api : ReaperApi) (plan : ReaperPlan) (n : ℕ) (h : List Call) (r : Polled)
    → PollPost api plan n h r
    → DeletePost api plan (2 * n + 2) h (after_cancel api plan n r)
unfolding after_cancel
after_cancel-DeletePost api plan n h (terminal, exec, h') p =
    earlier-DeletePost api plan 1 (2 * n + 2) h h' _ (omega (arith, p.bounded)) p.kept
      (delete_runner-DeletePost api plan exec h' (p.seen refl))
after_cancel-DeletePost api plan n h (still_in_progress, exec, h') p =
    earlier-DeletePost api plan (n + 2) (2 * n + 2) h h' _ (omega (arith, p.bounded)) p.kept
      (force-DeletePost api plan n exec h')
after_cancel-DeletePost api plan n h (poll_failed, exec, h') p =
    skipped-DeletePost api plan (2 * n + 2) h h' _
      (unfold skip_delete push_step set_status in p.ended refl) (omega (arith, p.bounded)) p.kept

execute-DeletePost :
    (api : ReaperApi) (plan : ReaperPlan) (n : ℕ) (h : List Call)
    → DeletePost api plan (2 * n + 3) h (execute_reaper_plan_with_api api plan n h)
unfolding execute_reaper_plan_with_api
execute-DeletePost api plan zero h =
    skipped-DeletePost api plan 3 h h _ (unfold push_step set_status in refl) (omega arith)
      (λ id. refl)
execute-DeletePost api plan (suc n) h =
    let h' = cancel_workflow_run plan.repo plan.run_id ∷ h in
    elim (Result-cases (api.cancel h plan.repo plan.run_id)) [
      | inl (u, e) ↦
          rw (e, execute_reaper_plan_with_api)
            (earlier-DeletePost api plan (2 * suc n + 2) (2 * suc n + 3) h h' _ (omega arith)
              (λ id. refl)
              (after_cancel-DeletePost api plan (suc n) h' _
                (poll_until_job_terminal-PollPost api plan _ (suc n) _ h')))
      | inr (x, e) ↦
          rw (e, execute_reaper_plan_with_api)
            (skipped-DeletePost api plan (2 * suc n + 3) h h' _
              (unfold skip_delete push_step set_status in refl) (omega arith) (λ id. refl))
    ]

-- Whatever GitHub answers, an execution asks for the deletion only as its last call, directly after
-- a listing that shows the planned job, still the planned runner's, no longer in progress; it ends
-- as completed only if that deletion succeeded.
pub deletion_guarded :
    (api : ReaperApi) (plan : ReaperPlan) (n : ℕ) (h : List Call)
    → let (exec, h') = execute_reaper_plan_with_api api plan n h in
      (attempted_delete exec.status ≡ true
        → (before : List Call) × (h' ≡ remove_runner plan.runner_id ∷ before)
          × (terminal_seen api plan before ≡ true)
          × (exec.status ≡ completed → api.remove before plan.runner_id ≡ ok tt))
      × (attempted_delete exec.status ≡ false → (id : ℕ) → deletes id h' ≡ deletes id h)
deletion_guarded api plan n h =
    let post = execute-DeletePost api plan n h in
    (post.guarded, λ a id. ground (arith, post.counted id))

-- An execution makes at most two rounds of polls and three other calls.
calls_bounded :
    (api : ReaperApi) (plan : ReaperPlan) (n : ℕ) (h : List Call)
    → length (execute_reaper_plan_with_api api plan n h).1 ≤ length h + (2 * n + 3)
calls_bounded api plan n h = (execute-DeletePost api plan n h).bounded

pub deletes-execute :
    (api : ReaperApi) (plan : ReaperPlan) (n id : ℕ) (h : List Call)
    → deletes id (execute_reaper_plan_with_api api plan n h).1
      ≤ deletes id h + (if plan.runner_id == id then 1 else 0)
deletes-execute api plan n id h = ground (arith, (execute-DeletePost api plan n h).counted id)
