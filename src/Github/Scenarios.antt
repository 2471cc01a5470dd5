-- ===== src/Github/Scenarios.antt =====
-- Tests and instances for the snapshot check and the retries of src/github.rs.
use ez_gh_actions.Base.{
  ℕ, ◌+◌, ◌*◌, ◌≤◌, ◌≡◌, refl, true, false, none, some, [], ◌∷◌, ◌==◌, if◌then◌else◌, text, text_eq,
}
use ez_gh_actions.Base.Decimal.{parse_uint}
use ez_gh_actions.Base.Texts.{contains_text}
use ez_gh_actions.Base.Results.{ok}
use ez_gh_actions.Serve.Durations.{from_secs}
use ez_gh_actions.Github.{RunnerList, partial, verify_snapshot_complete, observed_runners}
use ez_gh_actions.Github.Retry.{
  Output, extract_retry_after_secs, retry_after_in, lines_from, split_parts, first_number,
  is_secondary_rate_limit_response, classify_retry_delay, gh_secondary_min_delay,
  gh_retry_base_delay,
}
use ez_gh_actions.Github.Backoff.{Calls, gh_max_retries, run_gh_with_backoff_core_capped}
use ez_gh_actions.Github.Backoff.Waits.{
  IsBackoff, IsLastAnswer, run_gh_with_backoff_core_capped-IsBackoff,
}
use ez_gh_actions.Github.Backoff.Total.{
  time_slept, mentions_secondary, time_slept-run_gh_with_backoff_core_capped,
}

abbrev page : RunnerList
page = record {
  total_count = some 2;
  runners =
      record { id = 1; name = text "a"; status = text "online"; busy = false; run_id = none } ∷ [];
}

a_runner_is_missing : verify_snapshot_complete (page ∷ []) ≡ partial 2 1
unfolding verify_snapshot_complete observed_runners
a_runner_is_missing = refl

header_is_read : extract_retry_after_secs (text "Retry-After: 77") ≡ some 77
unfolding extract_retry_after_secs retry_after_in lines_from split_parts first_number contains_text
    text_eq parse_uint
header_is_read = refl

-- the first number on the line is taken, here the status
status_is_taken : extract_retry_after_secs (text "HTTP 403: retry in 60 s") ≡ some 403
unfolding extract_retry_after_secs retry_after_in lines_from split_parts first_number contains_text
    text_eq parse_uint
status_is_taken = refl

abbrev limited : Output
limited = record {
  success = false;
  code = some 1;
  stdout = [];
  stderr = text "secondary rate limit (HTTP 403)";
}

limited_waits : classify_retry_delay limited ≡ some gh_secondary_min_delay
unfolding classify_retry_delay is_secondary_rate_limit_response extract_retry_after_secs
    retry_after_in lines_from contains_text text_eq
limited_waits = refl

-- the first attempt meets a gateway error, the second succeeds
abbrev calls : Calls
calls = record {
  run_gh = λ attempt _. ok (record {
    success = if attempt == 1 then false else true;
    code = some 1;
    stdout = [];
    stderr = text "HTTP 502";
  });
  before = λ attempt. from_secs (attempt * 10);
  after = λ attempt. from_secs (attempt * 10 + 1);
}

run_gh_with_backoff_core_capped-IsBackoff_example :
    let (result, events) = run_gh_with_backoff_core_capped calls (some (from_secs 60)) true in
    IsBackoff (some (from_secs 60)) true gh_max_retries gh_retry_base_delay events
    × IsLastAnswer calls 1 events result
run_gh_with_backoff_core_capped-IsBackoff_example =
    run_gh_with_backoff_core_capped-IsBackoff calls (some (from_secs 60)) true

calls_plain :
    (attempt timeout : ℕ) (out : Output)
    → calls.run_gh attempt timeout ≡ ok out
    → mentions_secondary out ≡ false
unfolding contains_text text_eq
calls_plain attempt timeout out h =
    let silent : out.stdout ≡ [] = cc in
    let gateway : out.stderr ≡ text "HTTP 502" = cc in rw (silent, gateway) refl

time_slept-run_gh_with_backoff_core_capped_example :
    time_slept (run_gh_with_backoff_core_capped calls (some (from_secs 60)) true).1 ≤ 128000000000
time_slept-run_gh_with_backoff_core_capped_example =
    time_slept-run_gh_with_backoff_core_capped calls (some (from_secs 60)) true calls_plain
