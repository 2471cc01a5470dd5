-- ===== src/Github/Backoff.antt =====
-- The retries of a call of `gh` (src/github.rs: `run_gh_with_backoff_core_capped`). Instants and durations
-- are in nanoseconds.
pub mod Waits
pub mod Total
use ez_gh_actions.Base.{
  ℕ, zero, suc, ◌+◌, ◌-◌, ◌*◌, Bool, not, true, false, Option, none, some, List, [], ◌∷◌,
  if◌then◌else◌, leb, ltb, min, max, Text,
}
use ez_gh_actions.Base.Results.{Result, ok, err}
use ez_gh_actions.Serve.Durations.{from_secs}
use ez_gh_actions.Github.Retry.{
  Output, classify_retry_delay, gh_retry_base_delay, gh_retry_max_delay,
}

abbrev pub gh_timeout : ℕ
gh_timeout = from_secs 45

abbrev pub gh_max_retries : ℕ
gh_max_retries = 5

-- The calls of `gh` by the number of the attempt and its timeout, with the clock before an attempt and after.
pub record Calls : Type 0 where
  pub run_gh : ℕ → ℕ → Result Text Output
  pub before : ℕ → ℕ
  pub after : ℕ → ℕ

-- what the loop does: an attempt at an instant with its timeout, a sleep from an instant on
pub data Event : Type 0 where
  ran slept : ℕ → ℕ → Event

-- the loop's end without a return is `unreachable!`
pub data BackoffError : Type 0 where
  run_failed : Text → BackoffError
  unreachable : BackoffError

abbrev pub out_of_time : Option ℕ → ℕ → Bool
out_of_time none wake = false
out_of_time (some deadline) wake = leb deadline wake

abbrev pub child_timeout : Option ℕ → Bool → ℕ → ℕ
child_timeout none cap now = gh_timeout
child_timeout (some deadline) cap now = if cap then min (deadline - now) gh_timeout else gh_timeout

module _ (calls : Calls) (deadline : Option ℕ) (cap_child_to_deadline : Bool) where
  -- `left` attempts are left, the next of which has the given number
  unfoldable pub attempt_from : ℕ → ℕ → ℕ → Result BackoffError Output × List Event
  attempt_from zero attempt delay = (err unreachable, [])
  attempt_from (suc left) attempt delay =
      let timeout = child_timeout deadline cap_child_to_deadline (calls.before attempt) in
      let this = ran (calls.before attempt) timeout in
      let (result, events) = attempt_from left (attempt + 1) (min (delay * 2) gh_retry_max_delay) in
      elim (calls.run_gh attempt timeout) [
        | err e ↦ (err (run_failed e), this ∷ [])
        | ok out ↦ if out.success then (ok out, this ∷ []) else elim (classify_retry_delay out) [
          | none ↦ (ok out, this ∷ [])
          | some wait ↦
              if leb gh_max_retries attempt
              then (ok out, this ∷ [])
              else (let sleep_for = max wait delay in
                  if out_of_time deadline (calls.after attempt + sleep_for)
                  then (ok out, this ∷ [])
                  else (result, this ∷ slept (calls.after attempt) sleep_for ∷ events))
        ]
      ]

  unfoldable pub run_gh_with_backoff_core_capped : Result BackoffError Output × List Event
  run_gh_with_backoff_core_capped = attempt_from gh_max_retries 1 gh_retry_base_delay

abbrev pub run_gh_with_backoff : Calls → Result BackoffError Output × List Event
run_gh_with_backoff calls = run_gh_with_backoff_core_capped calls none false

abbrev pub run_gh_with_backoff_until : ℕ → Calls → Result BackoffError Output × List Event
run_gh_with_backoff_until deadline calls =
    run_gh_with_backoff_core_capped calls (some deadline) false

abbrev pub run_gh_with_backoff_until_capped : ℕ → Calls → Result BackoffError Output × List Event
run_gh_with_backoff_until_capped deadline calls =
    run_gh_with_backoff_core_capped calls (some deadline) true

pub data RestBudgetProbe : Type 0 where
  known : ℕ → RestBudgetProbe
  unknown : RestBudgetProbe

-- `parse_rest_budget_remaining` reads JSON, and is a parameter
unfoldable pub rest_budget_remaining_until : (Text → Option ℕ) → ℕ → Calls → RestBudgetProbe
rest_budget_remaining_until parse deadline calls =
    elim (run_gh_with_backoff_until_capped deadline calls).0 [
      | err _ ↦ unknown
      | ok out ↦
          if not out.success
          then unknown
          else elim (parse out.stdout) [ some remaining ↦ known remaining | none ↦ unknown ]
    ]
