-- ===== src/Canary.antt =====
-- The canary (src/canary.rs): a dispatched workflow that must be picked up in time. Instants are in nanoseconds.
pub mod Poll
pub mod Quiet
mod Scenarios
use ez_gh_actions.Base.{
  ℕ, ◌-◌, Bool, true, false, not, ◌&&◌, ◌||◌, Option, none, some, List, [], ◌∷◌, ◌++◌,
  if◌then◌else◌, ltb, find, is_some, is_some_and, map_option, unwrap_or, or_else, Text, text,
  text_eq, starts_with,
}
use ez_gh_actions.Base.Texts.{contains_text}
use ez_gh_actions.Timestamp.{parse_github_timestamp_secs}
use ez_gh_actions.Serve.Durations.{from_secs}
use ez_gh_actions.Github.{WorkflowRun, WorkflowJob}
use ez_gh_actions.Monitor.Queue.{age}

pub record CanaryResult : Type 0 where
  pub nonce : Text
  pub repo : Text
  pub workflow : Text
  pub run_id : Option ℕ
  pub job_id : Option ℕ
  pub runner_name : Option Text
  pub status : Text
  pub conclusion : Option Text
  pub queued_at : Option Text
  pub started_at : Option Text
  pub completed_at : Option Text
  pub time_to_start_seconds : Option ℕ
  pub time_to_complete_seconds : Option ℕ
  pub slo_start_seconds : ℕ
  pub slo_breached : Bool
  pub url : Option Text

pub record RunJobRunnerCorrelation : Type 0 where
  pub run_id : ℕ
  pub job_id : ℕ
  pub runner_name : Option Text
  pub runner_id : Option ℕ
  pub run_status : Text
  pub job_status : Text
  pub job_conclusion : Option Text
  pub queued_at : Text
  pub started_at : Option Text
  pub completed_at : Option Text
  pub run_url : Text
  pub job_url : Option Text

unfoldable pub find_run_by_nonce : List WorkflowRun → Text → Option WorkflowRun
find_run_by_nonce runs nonce =
    find
      (λ (run : WorkflowRun).
        text_eq run.event (text "workflow_dispatch") && contains_text nonce run.display_title)
      runs

unfoldable pub runner_matches_prefix : Text → Text → Bool
runner_matches_prefix runner_name runner_prefix =
    starts_with (runner_prefix ++ b'-' ∷ []) runner_name

unfoldable pub correlate_run_job :
    WorkflowRun → List WorkflowJob → Text → Option RunJobRunnerCorrelation
correlate_run_job run jobs runner_prefix =
    elim (find
      (λ (job : WorkflowJob).
        is_some_and job.runner_name (λ name. runner_matches_prefix name runner_prefix))
      jobs) [
        | none ↦ none
        | some job ↦ some (record {
          run_id = run.id;
          job_id = job.id;
          runner_name = job.runner_name;
          runner_id = job.runner_id;
          run_status = run.status;
          job_status = job.status;
          job_conclusion = job.conclusion;
          queued_at = run.created_at;
          started_at = job.started_at;
          completed_at = job.completed_at;
          run_url = run.html_url;
          job_url = job.html_url;
        })
      ]

-- `and_then`
abbrev pub and_then {ℓ} : {A B : Type ℓ} → Option A → (A → Option B) → Option B
and_then none f = none
and_then (some a) f = f a

abbrev pub first {ℓ} : {A : Type ℓ} → List A → Option A
first [] = none
first (a ∷ rest) = some a

unfoldable pub duration_between : Text → Option Text → Option ℕ
duration_between start end =
    and_then (parse_github_timestamp_secs start)
      (λ s. and_then end (λ e. map_option (λ t. age t s) (parse_github_timestamp_secs e)))

unfoldable pub status_of : WorkflowRun → Option RunJobRunnerCorrelation → Option WorkflowJob → Text
status_of run correlation fallback =
    if text_eq run.status (text "completed") then text "completed" else elim correlation [
      | some _ ↦ text "started"
      | none ↦ elim fallback [ some job ↦ job.status | none ↦ run.status ]
    ]

unfoldable pub result_from_run_jobs :
    Text → Text → Text → WorkflowRun → List WorkflowJob → Text → ℕ → CanaryResult
result_from_run_jobs repo workflow nonce run jobs runner_prefix slo_start_seconds =
    let correlation = correlate_run_job run jobs runner_prefix in
    let fallback = first jobs in
    let fallback_runner_name = and_then fallback (λ (job : WorkflowJob).
      and_then job.runner_name
        (λ name. if runner_matches_prefix name runner_prefix then some name else none)) in
    let started_at = and_then correlation (λ corr. corr.started_at) in
    let completed_at = and_then correlation (λ corr. corr.completed_at) in
    let time_to_start = duration_between run.created_at started_at in
    record {
      nonce = nonce;
      repo = repo;
      workflow = workflow;
      run_id = some run.id;
      job_id =
          or_else (map_option (λ corr. corr.job_id) correlation)
            (map_option (λ (job : WorkflowJob). job.id) fallback);
      runner_name = or_else (and_then correlation (λ corr. corr.runner_name)) fallback_runner_name;
      status = status_of run correlation fallback;
      conclusion =
          or_else (and_then correlation (λ corr. corr.job_conclusion))
            (or_else (and_then fallback (λ (job : WorkflowJob). job.conclusion)) run.conclusion);
      queued_at = some run.created_at;
      started_at = started_at;
      completed_at = completed_at;
      time_to_start_seconds = time_to_start;
      time_to_complete_seconds = duration_between run.created_at completed_at;
      slo_start_seconds = slo_start_seconds;
      slo_breached =
          unwrap_or (map_option (λ secs. ltb slo_start_seconds secs) time_to_start)
            (text_eq run.status (text "completed"));
      url = some run.html_url;
    }

unfoldable pub should_alert : CanaryResult → Bool
should_alert result =
    result.slo_breached
    || (is_some_and result.conclusion (λ c. not (text_eq c (text "success")))
        || (text_eq result.status (text "completed") && not (is_some result.runner_name)))

-- a canary in the background, by what its thread ends with
pub record CanaryDaemonState : Type 0 where
  pub last_started_at : Option ℕ
  pub in_flight : Bool

-- `finished` says whether the thread in flight has ended
unfoldable pub maybe_check_with : Bool → ℕ → ℕ → Bool → CanaryDaemonState → Bool × CanaryDaemonState
maybe_check_with enabled check_interval_seconds now finished self =
    let s = if finished then record self { in_flight = false } else self in
    if not enabled || s.in_flight
    then (false, s)
    else if is_some_and s.last_started_at
        (λ last. ltb (now - last) (from_secs check_interval_seconds))
    then (false, s)
    else (true, record { last_started_at = some now; in_flight = true })
