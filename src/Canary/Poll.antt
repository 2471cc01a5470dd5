-- ===== src/Canary/Poll.antt =====
-- One canary (src/canary.rs: `run_once`). Instants are in nanoseconds.
pub mod Ends
pub mod Length
use ez_gh_actions.Base.{
  ℕ, zero, suc, ◌+◌, ◌-◌, min, Bool, true, false, not, ◌&&◌, Option, none, some, List, [], ◌∷◌,
  if◌then◌else◌, leb, max, is_some, unwrap_or, Text, text, text_eq,
}
use ez_gh_actions.Base.Results.{Result, ok, err}
use ez_gh_actions.Serve.Durations.{from_secs}
use ez_gh_actions.Github.{WorkflowRun, WorkflowJob}
use ez_gh_actions.Canary.{CanaryResult, find_run_by_nonce, result_from_run_jobs, should_alert}

-- the settings of `canary`, and those of `github` and `runner` that a canary reads
pub record CanaryConfig : Type 0 where
  pub repo : Option Text
  pub repo_scope : Bool
  pub target : Text
  pub workflow : Text
  pub ref_name : Text
  pub labels : List Text
  pub name_prefix : Text
  pub slo_start_seconds : ℕ
  pub poll_timeout_seconds : ℕ
  pub poll_interval_seconds : ℕ
  pub has_history : Bool

-- GitHub's answers and the clock by the number of the poll
pub record CanaryWorld : Type 0 where
  pub dispatch_workflow : Text → Text → Text → Text → List Text → Result Text Unit
  pub list_workflow_runs : ℕ → Result Text (List WorkflowRun)
  pub list_workflow_jobs : ℕ → ℕ → Result Text (List WorkflowJob)
  pub start : ℕ
  pub now : ℕ → ℕ
  pub append_history : CanaryResult → Bool
  pub alert : CanaryResult → Bool

pub data CanaryError : Type 0 where
  repo_required history_failed alert_failed : CanaryError
  dispatch_failed runs_failed jobs_failed : Text → CanaryError

unfoldable pub canary_repo : CanaryConfig → Option Text
canary_repo cfg = elim cfg.repo [
  | some r ↦ some r
  | none ↦ if cfg.repo_scope then some cfg.target else none
]

unfoldable pub dispatched : CanaryConfig → Text → Text → CanaryResult
dispatched cfg repo nonce = record {
  nonce = nonce;
  repo = repo;
  workflow = cfg.workflow;
  run_id = none;
  job_id = none;
  runner_name = none;
  status = text "dispatched";
  conclusion = none;
  queued_at = none;
  started_at = none;
  completed_at = none;
  time_to_start_seconds = none;
  time_to_complete_seconds = none;
  slo_start_seconds = cfg.slo_start_seconds;
  slo_breached = false;
  url = none;
}

module _ (cfg : CanaryConfig) (world : CanaryWorld) (repo nonce : Text) (timeout : ℕ) where
  abbrev pub deadline : ℕ
  deadline = world.start + timeout

  abbrev pub started_wait_deadline : ℕ
  started_wait_deadline = world.start + from_secs cfg.slo_start_seconds

  -- the sleep after poll `k`
  abbrev pub nap : ℕ → ℕ
  nap k = min (from_secs (max cfg.poll_interval_seconds 1)) (deadline - world.now k)

  -- the result after poll `k`, and whether it ends the polling
  unfoldable pub look : ℕ → CanaryResult → Result CanaryError (CanaryResult × Bool)
  look k last = elim (world.list_workflow_runs k) [
    | err e ↦ err (runs_failed e)
    | ok runs ↦ elim (find_run_by_nonce runs nonce) [
      | none ↦ ok (last, false)
      | some run ↦ elim (world.list_workflow_jobs k run.id) [
        | err e ↦ err (jobs_failed e)
        | ok jobs ↦
            let result =
              result_from_run_jobs repo cfg.workflow nonce run jobs cfg.name_prefix
                cfg.slo_start_seconds in
            ok (result, text_eq result.status (text "completed"))
      ]
    ]
  ]

  abbrev breached : Text → Text → CanaryResult → CanaryResult
  breached seen unseen result = record result {
    status = if is_some result.run_id then seen else unseen;
    slo_breached = true;
  }

  -- the breaks of the loop after a poll that does not end it
  unfoldable pub expired : ℕ → CanaryResult → Option CanaryResult
  expired k result =
      if not (is_some result.time_to_start_seconds) && leb started_wait_deadline (world.now k)
      then some (
          breached (text "slo_timeout_waiting_for_start") (text "slo_timeout_waiting_for_run")
            result)
      else if leb deadline (world.now k)
      then some (breached (text "timeout_after_run_seen") (text "timeout_waiting_for_run") result)
      else none

  -- the loop from poll `k` on, none where more polls are needed than `fuel`
  unfoldable pub poll : ℕ → ℕ → CanaryResult → Option (Result CanaryError CanaryResult)
  poll zero k last = none
  poll (suc fuel) k last = elim (look k last) [
    | err e ↦ some (err e)
    | ok (result, completed) ↦ if completed then some (ok result) else elim (expired k result) [
      | some result' ↦ some (ok result')
      | none ↦ poll fuel (k + 1) result
    ]
  ]

unfoldable pub report :
    CanaryConfig → CanaryWorld → Bool → CanaryResult → Result CanaryError CanaryResult
report cfg world send_alert result =
    if cfg.has_history && not (world.append_history result)
    then err history_failed
    else if send_alert && should_alert result && not (world.alert result)
    then err alert_failed
    else ok result

unfoldable pub run_once :
    CanaryConfig
    → CanaryWorld
    → ℕ
    → Option ℕ
    → Text
    → Bool
    → Option (Result CanaryError CanaryResult)
run_once cfg world fuel timeout_override nonce send_alert = elim (canary_repo cfg) [
  | none ↦ some (err repo_required)
  | some repo ↦ elim (world.dispatch_workflow repo cfg.workflow cfg.ref_name nonce cfg.labels) [
    | err e ↦ some (err (dispatch_failed e))
    | ok _ ↦
        let timeout = from_secs (unwrap_or timeout_override cfg.poll_timeout_seconds) in
        elim (poll cfg world repo nonce timeout fuel 0 (dispatched cfg repo nonce)) [
          | none ↦ none
          | some (err e) ↦ some (err e)
          | some (ok result) ↦ some (report cfg world send_alert result)
        ]
  ]
]
