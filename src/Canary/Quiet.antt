-- ===== src/Canary/Quiet.antt =====
-- What a canary without an alert shows (src/canary.rs: `result_from_run_jobs`, `should_alert`, `run_once`).
use ez_gh_actions.Base.{
  ℕ, ◌≤◌, ◌≡◌, true, false, not, Option, none, some, List, [], ◌∷◌, refl, if◌then◌else◌,
  is_some_and, Text, text, text_eq, arith, inl, inr, Option-cases, ◌++◌, Memᴰ, starts_with, find,
  find-found, sym,
}
use ez_gh_actions.Github.{WorkflowRun, WorkflowJob}
use ez_gh_actions.Canary.{
  CanaryResult, RunJobRunnerCorrelation, correlate_run_job, duration_between, result_from_run_jobs,
  should_alert, status_of, runner_matches_prefix, and_then, first,
}

-- one of the jobs was picked up in time by a runner whose name has the prefix and a dash, and did not fail
pub record IsHealthy (run : WorkflowRun) (jobs : List WorkflowJob) (runner_prefix : Text) (slo : ℕ)
    : Type 0 where
  pub job : WorkflowJob
  pub listed : Memᴰ job jobs
  pub name : Text
  pub picked_up : job.runner_name ≡ some name
  pub own : starts_with (runner_prefix ++ b'-' ∷ []) name ≡ true
  pub seconds : ℕ
  pub measured : duration_between run.created_at job.started_at ≡ some seconds
  pub in_time : seconds ≤ slo
  pub not_failed : is_some_and job.conclusion (λ c. not (text_eq c (text "success"))) ≡ false

-- a correlation is that of a job which a runner with the prefix picked up
record IsOf (jobs : List WorkflowJob) (runner_prefix : Text) (corr : RunJobRunnerCorrelation)
    : Type 0 where
  job : WorkflowJob
  listed : Memᴰ job jobs
  name : Text
  picked_up : job.runner_name ≡ some name
  own : starts_with (runner_prefix ++ b'-' ∷ []) name ≡ true
  started : corr.started_at ≡ job.started_at
  concluded : corr.job_conclusion ≡ job.conclusion

correlated-IsOf :
    (run : WorkflowRun) (jobs : List WorkflowJob) (runner_prefix : Text)
    (corr : RunJobRunnerCorrelation)
    → correlate_run_job run jobs runner_prefix ≡ some corr
    → IsOf jobs runner_prefix corr
unfolding correlate_run_job runner_matches_prefix
correlated-IsOf run jobs runner_prefix corr h =
    let matches = λ (job : WorkflowJob).
      is_some_and job.runner_name (λ name. runner_matches_prefix name runner_prefix) in
    elim (Option-cases (find matches jobs)) [
      | inl missing ↦ absurd (ground (arith, missing, h))
      | inr (job, found) ↦
          let (listed, matched) = find-found matches jobs job found in
          elim (Option-cases job.runner_name) [
            | inl unnamed ↦ absurd (ground (arith, unnamed, matched))
            | inr (name, picked_up) ↦ record {
              job = job;
              listed = listed;
              name = name;
              picked_up = picked_up;
              own = ground (arith, picked_up, matched);
              started = ground (arith, found, h);
              concluded = ground (arith, found, h);
            }
          ]
    ]

abbrev own_name : Option WorkflowJob → Text → Option Text
own_name fallback runner_prefix = and_then fallback (λ (job : WorkflowJob).
    and_then job.runner_name
      (λ name. if runner_matches_prefix name runner_prefix then some name else none))

-- without a correlation the first job was not picked up by the prefix
first-unmatched :
    (run : WorkflowRun) (jobs : List WorkflowJob) (runner_prefix : Text)
    → correlate_run_job run jobs runner_prefix ≡ none
    → own_name (first jobs) runner_prefix ≡ none
unfolding correlate_run_job
first-unmatched run [] runner_prefix h = refl
first-unmatched run (job ∷ jobs) runner_prefix h = elim (Option-cases job.runner_name) [
  | inl e ↦ ground arith
  | inr (name, e) ↦ ground arith
]

module _ (repo workflow nonce : Text) (run : WorkflowRun) (jobs : List WorkflowJob)
    (runner_prefix : Text) (slo : ℕ) where
  abbrev result : CanaryResult
  result = result_from_run_jobs repo workflow nonce run jobs runner_prefix slo

  uncorrelated-alerts :
      correlate_run_job run jobs runner_prefix ≡ none
      → text_eq result.status (text "completed") ≡ true
      → should_alert result ≡ true
  unfolding should_alert result_from_run_jobs duration_between
  uncorrelated-alerts none_found completed =
      ground (arith, first-unmatched run jobs runner_prefix none_found)

  unstarted-alerts :
      (corr : RunJobRunnerCorrelation)
      → correlate_run_job run jobs runner_prefix ≡ some corr
      → duration_between run.created_at corr.started_at ≡ none
      → text_eq result.status (text "completed") ≡ true
      → should_alert result ≡ true
  unfolding should_alert result_from_run_jobs status_of text_eq
  unstarted-alerts corr found unmeasured completed = ground arith

  started-quiet :
      (corr : RunJobRunnerCorrelation) (seconds : ℕ)
      → correlate_run_job run jobs runner_prefix ≡ some corr
      → duration_between run.created_at corr.started_at ≡ some seconds
      → should_alert result ≡ false
      → (seconds ≤ slo)
        × (is_some_and corr.job_conclusion (λ c. not (text_eq c (text "success"))) ≡ false)
  unfolding should_alert result_from_run_jobs
  started-quiet corr seconds found measured quiet = ground arith

  -- A completed canary that gives no alert was picked up within the objective by a runner with the daemon's
  -- prefix, and its job there did not end otherwise than with success.
  pub result-IsHealthy :
      text_eq result.status (text "completed") ≡ true
      → should_alert result ≡ false
      → IsHealthy run jobs runner_prefix slo
  result-IsHealthy completed quiet =
      elim (Option-cases (correlate_run_job run jobs runner_prefix)) [
        | inl none_found ↦ absurd (cc (uncorrelated-alerts none_found completed, quiet))
        | inr (corr, found) ↦
            elim (Option-cases (duration_between run.created_at corr.started_at)) [
              | inl unmeasured ↦
                  absurd (cc (unstarted-alerts corr found unmeasured completed, quiet))
              | inr (seconds, measured) ↦
                  let (in_time, not_failed) = started-quiet corr seconds found measured quiet in
                  let i = correlated-IsOf run jobs runner_prefix corr found in
                  record {
                    job = i.job;
                    listed = i.listed;
                    name = i.name;
                    picked_up = i.picked_up;
                    own = i.own;
                    seconds = seconds;
                    measured = rw (sym i.started) measured;
                    in_time = in_time;
                    not_failed = rw (sym i.concluded) not_failed;
                  }
            ]
      ]
