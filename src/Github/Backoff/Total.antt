-- ===== src/Github/Backoff/Total.antt =====
-- How long the retries of `gh` sleep altogether (src/github.rs: `run_gh_with_backoff_core_capped` with
-- `classify_retry_delay`).
use ez_gh_actions.Base.{
  ℕ, zero, suc, ◌+◌, ◌-◌, ◌*◌, ◌≤◌, ◌≡◌, Bool, false, ◌||◌, Option, some, List, [], ◌∷◌, leb, min,
  max, refl, arith, inl, inr, text, Bool-cases, Option-cases,
}
use ez_gh_actions.Base.Texts.{contains_text}
use ez_gh_actions.Base.Results.{ok, Result-cases}
use ez_gh_actions.Github.Retry.{
  Output, classify_retry_delay, is_secondary_rate_limit_response, lowered, gh_retry_base_delay,
  gh_retry_max_delay,
}
use ez_gh_actions.Github.Backoff.{
  Calls, Event, ran, slept, child_timeout, out_of_time, attempt_from, gh_max_retries,
  run_gh_with_backoff_core_capped,
}

abbrev pub time_slept : List Event → ℕ
time_slept [] = 0
time_slept (ran now timeout ∷ events) = time_slept events
time_slept (slept from wait ∷ events) = wait + time_slept events

-- the output speaks of a secondary limit or of abuse
abbrev pub mentions_secondary : Output → Bool
mentions_secondary out =
    contains_text (text "secondary") (lowered out.stdout out.stderr)
    || contains_text (text "abuse") (lowered out.stdout out.stderr)

classify_retry_delay-le :
    (out : Output) (wait : ℕ)
    → mentions_secondary out ≡ false
    → classify_retry_delay out ≡ some wait
    → wait ≤ gh_retry_max_delay
unfolding classify_retry_delay is_secondary_rate_limit_response
classify_retry_delay-le out wait plain h = ground (arith, plain, h)

module _ (calls : Calls) (deadline : Option ℕ) (cap : Bool)
    (plain : (attempt timeout : ℕ) (out : Output)
      → calls.run_gh attempt timeout ≡ ok out
      → mentions_secondary out ≡ false) where
  time_slept-attempt_from :
      (left attempt delay : ℕ)
      → delay ≤ gh_retry_max_delay
      → left + attempt ≡ gh_max_retries + 1
      → time_slept (attempt_from calls deadline cap left attempt delay).1
        ≤ (gh_max_retries - attempt) * gh_retry_max_delay
  unfolding attempt_from
  time_slept-attempt_from zero attempt delay le count = omega arith
  time_slept-attempt_from (suc left) attempt delay le count =
      let timeout = child_timeout deadline cap (calls.before attempt) in
      let later =
        time_slept-attempt_from left (attempt + 1) (min (delay * 2) gh_retry_max_delay)
          (omega arith) (omega arith) in
      elim (Result-cases (calls.run_gh attempt timeout)) [
        | inr (e, failed) ↦ ground (arith, failed)
        | inl (out, ended) ↦ elim (Option-cases (classify_retry_delay out)) [
          | inl final ↦ ground (arith, ended, final)
          | inr (wait, transient) ↦
              let short =
                classify_retry_delay-le out wait (plain attempt timeout out ended) transient in
              elim (Bool-cases (
                out.success
                || (leb gh_max_retries attempt
                    || out_of_time deadline (calls.after attempt + max wait delay)))) [
                      | inl stops ↦ ground (arith, ended, transient, stops)
                      | inr goes ↦ ground (arith, ended, transient, goes, short, later)
                    ]
        ]
      ]

-- A call of `gh` whose attempts never speak of a secondary limit or of abuse sleeps at most 128 seconds
-- altogether, whatever number of seconds an answer asks to wait: four sleeps of at most 32 seconds.
pub time_slept-run_gh_with_backoff_core_capped :
    (calls : Calls) (deadline : Option ℕ) (cap : Bool)
    → ((attempt timeout : ℕ) (out : Output)
        → calls.run_gh attempt timeout ≡ ok out
        → mentions_secondary out ≡ false)
    → time_slept (run_gh_with_backoff_core_capped calls deadline cap).1 ≤ 128000000000
unfolding run_gh_with_backoff_core_capped
time_slept-run_gh_with_backoff_core_capped calls deadline cap plain =
    time_slept-attempt_from calls deadline cap plain gh_max_retries 1 gh_retry_base_delay
      (omega arith) refl
