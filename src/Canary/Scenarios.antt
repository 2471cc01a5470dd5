-- ===== src/Canary/Scenarios.antt =====
-- Tests and instances for the canary of src/canary.rs.
use ez_gh_actions.Base.{
  ◌*◌, ◌≡◌, refl, true, false, none, some, [], ◌∷◌, is_some, arith, Text, text, text_eq, ends_with,
}
use ez_gh_actions.Base.Texts.{contains_text}
use ez_gh_actions.Base.Decimal.{parse_uint}
use ez_gh_actions.Base.Results.{ok}
use ez_gh_actions.Timestamp.{
  parse_github_timestamp_secs, parse_i32, is_well_formed, days_from_civil, max_day, civil_days,
}
use ez_gh_actions.Serve.Durations.{from_secs}
use ez_gh_actions.Github.{WorkflowRun, WorkflowJob}
use ez_gh_actions.Canary.{
  CanaryResult, result_from_run_jobs, correlate_run_job, duration_between, status_of, should_alert,
  find_run_by_nonce, runner_matches_prefix,
}
use ez_gh_actions.Canary.Quiet.{IsHealthy}
use ez_gh_actions.Canary.Poll.{CanaryConfig, CanaryWorld, canary_repo, look, poll, report, run_once}
use ez_gh_actions.Canary.Poll.Ends.{IsSeen, run_once-IsHealthy}
use ez_gh_actions.Canary.Poll.Length.{run_once-terminates}

abbrev run : WorkflowRun
run = record {
  id = 5;
  name = text "canary";
  display_title = text "selftest n-1";
  event = text "workflow_dispatch";
  status = text "completed";
  conclusion = some (text "success");
  created_at = text "1970-01-01T00:00:00Z";
  run_started_at = none;
  updated_at = text "1970-01-01T00:01:00Z";
  html_url = [];
  head_branch = none;
  head_sha = [];
}

abbrev job : WorkflowJob
job = record {
  id = 6;
  name = text "canary";
  status = text "completed";
  conclusion = some (text "success");
  created_at = text "1970-01-01T00:00:00Z";
  started_at = some (text "1970-01-01T00:00:40Z");
  completed_at = some (text "1970-01-01T00:01:00Z");
  runner_id = some 9;
  runner_name = some (text "ez-1");
  runner_group_id = none;
  runner_group_name = none;
  labels = [];
  html_url = none;
}

abbrev config : CanaryConfig
config = record {
  repo = some (text "o/r");
  repo_scope = false;
  target = [];
  workflow = text "canary.yml";
  ref_name = text "main";
  labels = [];
  name_prefix = text "ez";
  slo_start_seconds = 60;
  poll_timeout_seconds = 20;
  poll_interval_seconds = 10;
  has_history = false;
}

abbrev world : CanaryWorld
world = record {
  dispatch_workflow = λ _ _ _ _ _. ok tt;
  list_workflow_runs = λ _. ok (run ∷ []);
  list_workflow_jobs = λ _ _. ok (job ∷ []);
  start = 0;
  now = λ k. k * from_secs 10;
  append_history = λ _. true;
  alert = λ _. true;
}

abbrev result : CanaryResult
result =
    result_from_run_jobs (text "o/r") (text "canary.yml") (text "n-1") run (job ∷ []) (text "ez") 60

it_is_quiet : should_alert result ≡ false
unfolding should_alert result_from_run_jobs correlate_run_job duration_between status_of text_eq
    runner_matches_prefix parse_github_timestamp_secs ends_with parse_i32 parse_uint is_well_formed
    days_from_civil max_day civil_days
it_is_quiet = refl

it_ends : run_once config world 3 none (text "n-1") true ≡ some (ok result)
unfolding run_once canary_repo poll look find_run_by_nonce contains_text report should_alert
    result_from_run_jobs correlate_run_job duration_between status_of text_eq runner_matches_prefix
    parse_github_timestamp_secs ends_with parse_i32 parse_uint is_well_formed days_from_civil
    max_day civil_days
it_ends = refl

run_once-IsHealthy_example :
    (repo : Text) × (seen : IsSeen config world repo (text "n-1") result) × IsHealthy seen.run
      seen.jobs config.name_prefix config.slo_start_seconds
run_once-IsHealthy_example =
    run_once-IsHealthy config world 3 none (text "n-1") true result it_ends it_is_quiet

run_once-terminates_example : is_some (run_once config world 3 none (text "n-1") true) ≡ true
run_once-terminates_example =
    run_once-terminates config world 2 none (text "n-1") true (omega arith) (λ j. omega arith)
      (omega arith)
