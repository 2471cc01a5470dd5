-- ===== src/Canary/Poll/Ends.antt =====
-- How one canary ends (src/canary.rs: `run_once`).
use ez_gh_actions.Base.{
  ℕ, zero, suc, ◌+◌, ◌≡◌, ◌⊎◌, Bool, true, false, Option, none, some, List, sym, ap, ◌∙◌, unwrap_or,
  Text, text, text_eq, arith, inl, inr, Option-cases, Memᴰ, find-found, ◌&&◌,
}
use ez_gh_actions.Base.Texts.{contains_text}
use ez_gh_actions.Base.Results.{ok, err, Result-cases}
use ez_gh_actions.Serve.Durations.{from_secs}
use ez_gh_actions.Github.{WorkflowRun, WorkflowJob}
use ez_gh_actions.Canary.{CanaryResult, find_run_by_nonce, result_from_run_jobs, should_alert}
use ez_gh_actions.Canary.Quiet.{IsHealthy, result-IsHealthy}
use ez_gh_actions.Canary.Poll.{
  CanaryConfig, CanaryWorld, CanaryError, canary_repo, dispatched, look, expired, poll, report,
  run_once,
}

-- the result comes from a dispatched run with the nonce in its title, as one of the polls has listed it
pub record IsSeen (cfg : CanaryConfig) (world : CanaryWorld) (repo nonce : Text)
    (result : CanaryResult) : Type 0 where
  pub k : ℕ
  pub runs : List WorkflowRun
  pub run : WorkflowRun
  pub jobs : List WorkflowJob
  pub listed : world.list_workflow_runs k ≡ ok runs
  pub run_listed : Memᴰ run runs
  pub run_dispatched : text_eq run.event (text "workflow_dispatch") ≡ true
  pub of_nonce : contains_text nonce run.display_title ≡ true
  pub jobs_listed : world.list_workflow_jobs k run.id ≡ ok jobs
  pub seen :
      result
      ≡ result_from_run_jobs repo cfg.workflow nonce run jobs cfg.name_prefix cfg.slo_start_seconds

found-own :
    (runs : List WorkflowRun) (run : WorkflowRun) (nonce : Text)
    → find_run_by_nonce runs nonce ≡ some run
    → Memᴰ run runs
      × (text_eq run.event (text "workflow_dispatch") ≡ true)
      × (contains_text nonce run.display_title ≡ true)
unfolding find_run_by_nonce
found-own runs run nonce found =
    let (listed, own) =
      find-found
        (λ (run : WorkflowRun).
          text_eq run.event (text "workflow_dispatch") && contains_text nonce run.display_title)
        runs run found in
    (listed, ground (arith, own), ground (arith, own))

module _ (cfg : CanaryConfig) (world : CanaryWorld) (repo nonce : Text) (timeout : ℕ) where
  look-IsSeen :
      (k : ℕ) (last result : CanaryResult)
      → look cfg world repo nonce timeout k last ≡ ok (result, true)
      → IsSeen cfg world repo nonce result × (text_eq result.status (text "completed") ≡ true)
  unfolding look
  look-IsSeen k last result h = elim (Result-cases (world.list_workflow_runs k)) [
    | inr (e, failed) ↦ absurd (ground arith)
    | inl (runs, listed) ↦ elim (Option-cases (find_run_by_nonce runs nonce)) [
      | inl missing ↦ absurd (ground arith)
      | inr (run, found) ↦ elim (Result-cases (world.list_workflow_jobs k run.id)) [
        | inr (e, failed) ↦ absurd (ground arith)
        | inl (jobs, jobs_listed) ↦
            let own = found-own runs run nonce found in
            (
              record {
                k = k;
                runs = runs;
                run = run;
                jobs = jobs;
                listed = listed;
                run_listed = own.0;
                run_dispatched = own.1;
                of_nonce = own.2;
                jobs_listed = jobs_listed;
                seen = ground arith;
              },
              ground arith,
            )
      ]
    ]
  ]

  expired-breached :
      (k : ℕ) (result result' : CanaryResult)
      → expired cfg world repo nonce timeout k result ≡ some result'
      → result'.slo_breached ≡ true
  unfolding expired
  expired-breached k result result' h = ground arith

  -- a poll that fails, completes, expires, or leads to the next
  pub poll-cases :
      (fuel k : ℕ) (last : CanaryResult)
      → ((e : CanaryError) × (poll cfg world repo nonce timeout (suc fuel) k last ≡ some (err e)))
        ⊎ ((result : CanaryResult) × (look cfg world repo nonce timeout k last ≡ ok (result, true))
            × (poll cfg world repo nonce timeout (suc fuel) k last ≡ some (ok result)))
        ⊎ ((result : CanaryResult) × (result' : CanaryResult) × (expired cfg world repo nonce
                timeout k result
              ≡ some result')
            × (poll cfg world repo nonce timeout (suc fuel) k last ≡ some (ok result')))
        ⊎ ((result : CanaryResult) × (expired cfg world repo nonce timeout k result ≡ none)
            × (poll cfg world repo nonce timeout (suc fuel) k last
                ≡ poll cfg world repo nonce timeout fuel (k + 1) result))
  unfolding poll
  poll-cases fuel k last = elim (Result-cases (look cfg world repo nonce timeout k last)) [
    | inr (e, failed) ↦ inl (e, ground arith)
    | inl ((result, true), seen) ↦ inr (inl (result, seen, ground arith))
    | inl ((result, false), seen) ↦
        elim (Option-cases (expired cfg world repo nonce timeout k result)) [
          | inl more ↦ inr (inr (inr (result, more, ground arith)))
          | inr (result', ends) ↦ inr (inr (inl (result, result', ends, ground arith)))
        ]
  ]

  poll-ends :
      (fuel k : ℕ) (last result : CanaryResult)
      → poll cfg world repo nonce timeout fuel k last ≡ some (ok result)
      → (result.slo_breached ≡ true)
        ⊎ (IsSeen cfg world repo nonce result × (text_eq result.status (text "completed") ≡ true))
  poll-ends zero k last result h = absurd (unfold poll in cc h)
  poll-ends (suc fuel) k last result h = elim (poll-cases fuel k last) [
    | inl (e, failed) ↦ absurd (ground arith)
    | inr (inl (r, seen, same)) ↦ inr (look-IsSeen k last result (ground (arith, seen, same, h)))
    | inr (inr (inl (r, r', ends, same))) ↦ inl (ground (arith, expired-breached k r r' ends))
    | inr (inr (inr (r, more, same))) ↦ poll-ends fuel (k + 1) r result (sym same ∙ h)
  ]

report-same :
    (cfg : CanaryConfig) (world : CanaryWorld) (send_alert : Bool) (r result : CanaryResult)
    → report cfg world send_alert r ≡ ok result
    → r ≡ result
unfolding report
report-same cfg world send_alert r result h = ground arith

quiet-IsHealthy :
    (cfg : CanaryConfig) (world : CanaryWorld) (repo nonce : Text) (timeout fuel : ℕ)
    (result : CanaryResult)
    → poll cfg world repo nonce timeout fuel 0 (dispatched cfg repo nonce) ≡ some (ok result)
    → should_alert result ≡ false
    → (seen : IsSeen cfg world repo nonce result) × IsHealthy seen.run seen.jobs cfg.name_prefix
        cfg.slo_start_seconds
quiet-IsHealthy cfg world repo nonce timeout fuel result h quiet =
    elim (poll-ends cfg world repo nonce timeout fuel 0 (dispatched cfg repo nonce) result h) [
      | inl breached ↦ absurd (unfold should_alert in ground arith)
      | inr (seen, completed) ↦ (
        seen,
        result-IsHealthy repo cfg.workflow nonce seen.run seen.jobs cfg.name_prefix
            cfg.slo_start_seconds (rw (sym seen.seen) completed) (rw (sym seen.seen) quiet),
      )
    ]

-- A canary that ends with a result and gives no alert has seen its own run: among the runs of the workflow
-- one of the polls found a dispatched one with its nonce in the title, a runner whose name starts with the
-- daemon's prefix and a dash picked up a job of it within the objective, and this job did not end otherwise
-- than with success.
pub run_once-IsHealthy :
    (cfg : CanaryConfig) (world : CanaryWorld) (fuel : ℕ) (timeout_override : Option ℕ)
    (nonce : Text) (send_alert : Bool) (result : CanaryResult)
    → run_once cfg world fuel timeout_override nonce send_alert ≡ some (ok result)
    → should_alert result ≡ false
    → (repo : Text) × (seen : IsSeen cfg world repo nonce result) × IsHealthy seen.run seen.jobs
        cfg.name_prefix cfg.slo_start_seconds
unfolding run_once
run_once-IsHealthy cfg world fuel timeout_override nonce send_alert result h quiet =
    let timeout = from_secs (unwrap_or timeout_override cfg.poll_timeout_seconds) in
    elim (Option-cases (canary_repo cfg)) [
      | inl missing ↦ absurd (ground arith)
      | inr (repo, known) ↦
          elim (Option-cases
            (poll cfg world repo nonce timeout fuel 0 (dispatched cfg repo nonce))) [
              | inl unended ↦ absurd (ground arith)
              | inr (ok r, ended) ↦
                  let same : r ≡ result =
                    report-same cfg world send_alert r result (ground arith) in
                  let (seen, healthy) =
                    quiet-IsHealthy cfg world repo nonce timeout fuel result
                      (ended ∙ ap (λ x. some (ok x)) same) quiet in
                  (repo, seen, healthy)
              | inr (err e, ended) ↦ absurd (ground arith)
            ]
    ]
