-- ===== src/Reaper/Plan/Justified.antt =====
-- The grounds of the plans of `plan_reaper_actions` (src/reaper.rs).
use ez_gh_actions.Base.{
  ◌≤◌, ◌≡◌, refl, inl, inr, true, some, List, [], ◌∷◌, ◌++◌, Memᴰ, ltb, find, find-found, arith,
  Text, text_eq, Bool-cases, Option-cases,
}
use ez_gh_actions.Github.{RunnerInfo, WorkflowRun, WorkflowJob}
use ez_gh_actions.Reaper.{ReaperPlan, job_matches_plan, in_progress}
use ez_gh_actions.Reaper.Plan.{
  runner_name_allowed, job_matches_runner, has_required_labels, Limits, age_of, make_plan, plan_job,
  plan_run, plan_runs, plan_repos, plan_reaper_actions,
}

-- the runs of each repository, with their jobs
abbrev pub RepoRuns : Type 0
RepoRuns = List (Text × List (WorkflowRun × List WorkflowJob))

-- the grounds of a plan: its runner, and the run and the job that hold it, all of them among the inputs
pub record IsJustified (limits : Limits) (repo_runs : RepoRuns) (runners : List RunnerInfo)
    (plan : ReaperPlan) : Type 0 where
  pub runner : RunnerInfo
  pub runs : List (WorkflowRun × List WorkflowJob)
  pub run : WorkflowRun
  pub jobs : List WorkflowJob
  pub job : WorkflowJob
  pub runner_listed : Memᴰ runner runners
  pub repo_listed : Memᴰ (plan.repo, runs) repo_runs
  pub run_listed : Memᴰ (run, jobs) runs
  pub job_listed : Memᴰ job jobs
  pub busy : runner.busy ≡ true
  pub allowed : runner_name_allowed plan.runner_name limits.allowed_prefixes ≡ true
  pub target : (plan.runner_id ≡ runner.id) × (plan.runner_name ≡ runner.name)
  pub matched : job_matches_plan job plan ≡ true
  pub running : text_eq job.status in_progress ≡ true
  pub labelled : has_required_labels job limits.required_labels ≡ true
  pub of_run : (plan.run_id ≡ run.id) × (text_eq run.status in_progress ≡ true)
  pub of_job : (plan.job_id ≡ job.id) × (age_of limits run job ≡ some plan.age_seconds)
  pub old : limits.min_age_seconds ≤ plan.age_seconds

abbrev pub AllPlans : (ReaperPlan → Type 0) → List ReaperPlan → Type 0
AllPlans P [] = Unit
AllPlans P (plan ∷ plans) = P plan × AllPlans P plans

append-AllPlans :
    (P : ReaperPlan → Type 0) (xs ys : List ReaperPlan)
    → AllPlans P xs
    → AllPlans P ys
    → AllPlans P (xs ++ ys)
append-AllPlans P [] ys h k = k
append-AllPlans P (x ∷ xs) ys (first, h) k = (first, append-AllPlans P xs ys h k)

module _ (limits : Limits) (all_repos : RepoRuns) (all_runners : List RunnerInfo)
    (runner : RunnerInfo) (runner_listed : Memᴰ runner all_runners) (busy : runner.busy ≡ true)
    (allowed : runner_name_allowed runner.name limits.allowed_prefixes ≡ true) where
  plan_job-IsJustified :
      (repo : Text) (runs : List (WorkflowRun × List WorkflowJob)) (run : WorkflowRun)
      (jobs : List WorkflowJob) (job : WorkflowJob)
      → Memᴰ (repo, runs) all_repos
      → Memᴰ (run, jobs) runs
      → Memᴰ job jobs
      → text_eq run.status in_progress ≡ true
      → job_matches_runner job runner ≡ true
      → AllPlans (IsJustified limits all_repos all_runners) (plan_job limits runner repo run job)
  unfolding plan_job
  plan_job-IsJustified repo runs run jobs job repo_listed run_listed job_listed run_running
        matched =
      elim (Bool-cases (text_eq job.status in_progress)) [
        | inr idle ↦ rw idle tt
        | inl running ↦ elim (Bool-cases (has_required_labels job limits.required_labels)) [
          | inr lacking ↦ rw (running, lacking) tt
          | inl labelled ↦ elim (Option-cases (age_of limits run job)) [
            | inl unknown ↦ rw (running, labelled) (rw unknown tt)
            | inr (age, known) ↦ elim (Bool-cases (ltb age limits.min_age_seconds)) [
              | inl young ↦ rw (running, labelled) (rw known (rw young tt))
              | inr enough ↦
                  rw (running, labelled)
                    (rw known (
                      rw enough (
                        record {
                          runner = runner;
                          runs = runs;
                          run = run;
                          jobs = jobs;
                          job = job;
                          runner_listed = runner_listed;
                          repo_listed = unfold make_plan in repo_listed;
                          run_listed = run_listed;
                          job_listed = job_listed;
                          busy = busy;
                          allowed = unfold make_plan in allowed;
                          target = unfold make_plan in (refl, refl);
                          matched = unfold make_plan job_matches_plan job_matches_runner in matched;
                          running = running;
                          labelled = labelled;
                          of_run = unfold make_plan in (refl, run_running);
                          of_job = unfold make_plan in (refl, known);
                          old = unfold make_plan in ground (arith, enough);
                        },
                        tt,
                      )))
            ]
          ]
        ]
      ]

  plan_run-IsJustified :
      (repo : Text) (runs : List (WorkflowRun × List WorkflowJob)) (run : WorkflowRun)
      (jobs : List WorkflowJob)
      → Memᴰ (repo, runs) all_repos
      → Memᴰ (run, jobs) runs
      → AllPlans (IsJustified limits all_repos all_runners) (plan_run limits runner repo run jobs)
  unfolding plan_run
  plan_run-IsJustified repo runs run jobs repo_listed run_listed =
      elim (Bool-cases (text_eq run.status in_progress)) [
        | inr idle ↦ rw idle tt
        | inl running ↦ elim (Option-cases (find (λ job. job_matches_runner job runner) jobs)) [
          | inl missing ↦ rw running (rw missing tt)
          | inr (job, found) ↦
              let (job_listed, matched) =
                find-found (λ job. job_matches_runner job runner) jobs job found in
              rw running (
                rw found (
                  plan_job-IsJustified repo runs run jobs job repo_listed run_listed job_listed
                    running matched))
        ]
      ]

  plan_runs-IsJustified :
      (repo : Text) (all_runs runs : List (WorkflowRun × List WorkflowJob))
      → Memᴰ (repo, all_runs) all_repos
      → ((entry : WorkflowRun × List WorkflowJob) → Memᴰ entry runs → Memᴰ entry all_runs)
      → AllPlans (IsJustified limits all_repos all_runners) (plan_runs limits runner repo runs)
  unfolding plan_runs
  plan_runs-IsJustified repo all_runs [] repo_listed within = tt
  plan_runs-IsJustified repo all_runs ((run, jobs) ∷ runs) repo_listed within =
      append-AllPlans (IsJustified limits all_repos all_runners)
        (plan_run limits runner repo run jobs) (plan_runs limits runner repo runs)
        (plan_run-IsJustified repo all_runs run jobs repo_listed
          (within (run, jobs) (Memᴰ.head refl)))
        (plan_runs-IsJustified repo all_runs runs repo_listed
          (λ entry m. within entry (Memᴰ.tail m)))

  plan_repos-IsJustified :
      (repos : RepoRuns)
      → ((entry : Text × List (WorkflowRun × List WorkflowJob))
          → Memᴰ entry repos
          → Memᴰ entry all_repos)
      → AllPlans (IsJustified limits all_repos all_runners) (plan_repos limits runner repos)
  unfolding plan_repos
  plan_repos-IsJustified [] within = tt
  plan_repos-IsJustified ((repo, runs) ∷ repos) within =
      append-AllPlans (IsJustified limits all_repos all_runners) (plan_runs limits runner repo runs)
        (plan_repos limits runner repos)
        (plan_runs-IsJustified repo runs runs (within (repo, runs) (Memᴰ.head refl)) (λ _ m. m))
        (plan_repos-IsJustified repos (λ entry m. within entry (Memᴰ.tail m)))

plan_all-IsJustified :
    (limits : Limits) (repo_runs : RepoRuns) (all_runners runners : List RunnerInfo)
    → ((runner : RunnerInfo) → Memᴰ runner runners → Memᴰ runner all_runners)
    → AllPlans
        (IsJustified limits repo_runs all_runners)
        (plan_reaper_actions limits repo_runs runners)
unfolding plan_reaper_actions
plan_all-IsJustified limits repo_runs all_runners [] within = tt
plan_all-IsJustified limits repo_runs all_runners (runner ∷ runners) within =
    let rest =
      plan_all-IsJustified limits repo_runs all_runners runners (λ r m. within r (Memᴰ.tail m)) in
    elim (Bool-cases runner.busy) [
      | inr idle ↦ rw idle rest
      | inl busy ↦ elim (Bool-cases (runner_name_allowed runner.name limits.allowed_prefixes)) [
        | inr foreign_name ↦ simp (busy, foreign_name) rest
        | inl allowed ↦
            simp (busy, allowed)
              (append-AllPlans (IsJustified limits repo_runs all_runners)
                (plan_repos limits runner repo_runs) (plan_reaper_actions limits repo_runs runners)
                (plan_repos-IsJustified limits repo_runs all_runners runner
                  (within runner (Memᴰ.head refl)) busy allowed repo_runs (λ _ m. m))
                rest)
      ]
    ]

-- Each plan names a busy runner of the given ones under an allowed prefix, and a run in progress of the
-- plan's repository and a job of that run, both as they were given; the job is the runner's, is in progress
-- and bears all the required labels; the plan's age is the job's, and at least the least age.
pub plan_reaper_actions-IsJustified :
    (limits : Limits) (repo_runs : RepoRuns) (runners : List RunnerInfo)
    → AllPlans (IsJustified limits repo_runs runners) (plan_reaper_actions limits repo_runs runners)
plan_reaper_actions-IsJustified limits repo_runs runners =
    plan_all-IsJustified limits repo_runs runners runners (λ _ m. m)
