-- ===== src/Github/Backoff/Waits.antt =====
-- How long the retries of `gh` wait (src/github.rs: `run_gh_with_backoff_core_capped`).
use ez_gh_actions.Base.{
  ℕ, zero, suc, ◌+◌, ◌-◌, ◌*◌, ◌≤◌, ◌<◌, ◌≡◌, ◌⊎◌, Bool, true, false, Option, none, some, List, [],
  ◌∷◌, ◌||◌, leb, min, max, refl, arith, inl, inr, Bool-cases, Option-cases, Text,
}
use ez_gh_actions.Base.Results.{Result, ok, err, Result-cases}
use ez_gh_actions.Github.Retry.{
  Output, classify_retry_delay, gh_retry_base_delay, gh_retry_max_delay,
}
use ez_gh_actions.Github.Backoff.{
  Calls, Event, ran, slept, BackoffError, run_failed, child_timeout, out_of_time, attempt_from,
  gh_max_retries, gh_timeout, run_gh_with_backoff_core_capped,
}

-- a sleep of at least `delay`, which ends before the deadline
abbrev pub IsWait : Option ℕ → ℕ → ℕ → ℕ → Type 0
IsWait none delay from wait = delay ≤ wait
IsWait (some deadline) delay from wait = (delay ≤ wait) × (from + wait < deadline)

-- an attempt of at most 45 s, which ends by the deadline where it is capped
abbrev pub IsTimely : Option ℕ → Bool → ℕ → ℕ → Type 0
IsTimely (some deadline) true now timeout = (timeout ≤ gh_timeout) × (timeout ≤ deadline - now)
IsTimely _ _ now timeout = timeout ≤ gh_timeout

-- at most `left` attempts, with a sleep between two of them, the first of at least `delay`, each further one
-- of at least twice as much as before, up to 32 s
abbrev pub IsBackoff : Option ℕ → Bool → ℕ → ℕ → List Event → Type 0
IsBackoff deadline cap zero delay events = events ≡ []
IsBackoff deadline cap (suc left) delay (ran now timeout ∷ []) = IsTimely deadline cap now timeout
IsBackoff deadline cap (suc left) delay (ran now timeout ∷ slept from wait ∷ events) =
    IsTimely deadline cap now timeout
    × IsWait deadline delay from wait
    × IsBackoff deadline cap left (min (delay * 2) gh_retry_max_delay) events
IsBackoff deadline cap (suc left) delay _ = ⊥

-- the result that an attempt's answer gives
abbrev pub answered : Result Text Output → Result BackoffError Output
answered (ok out) = ok out
answered (err e) = err (run_failed e)

-- the result is the answer to the last attempt, the first of which has the number `attempt`
abbrev pub IsLastAnswer : Calls → ℕ → List Event → Result BackoffError Output → Type 0
IsLastAnswer calls attempt (ran now timeout ∷ []) result =
    result ≡ answered (calls.run_gh attempt timeout)
IsLastAnswer calls attempt (ran now timeout ∷ slept from wait ∷ events) result =
    IsLastAnswer calls (attempt + 1) events result
IsLastAnswer calls attempt _ result = ⊥

child_timeout-IsTimely :
    (deadline : Option ℕ) (cap : Bool) (now : ℕ)
    → IsTimely deadline cap now (child_timeout deadline cap now)
child_timeout-IsTimely none cap now = omega arith
child_timeout-IsTimely (some d) true now = (ground arith, ground arith)
child_timeout-IsTimely (some d) false now = omega arith

in_time-IsWait :
    (deadline : Option ℕ) (delay from wait : ℕ)
    → delay ≤ wait
    → out_of_time deadline (from + wait) ≡ false
    → IsWait deadline delay from wait
in_time-IsWait none delay from wait le h = le
in_time-IsWait (some d) delay from wait le h = (le, ground arith)

module _ (calls : Calls) (deadline : Option ℕ) (cap : Bool) where
  abbrev this : ℕ → Event
  this attempt = ran (calls.before attempt) (child_timeout deadline cap (calls.before attempt))

  attempt-cases :
      (left attempt delay : ℕ)
      → (((attempt_from calls deadline cap (suc left) attempt delay).1 ≡ this attempt ∷ [])
          × ((attempt_from calls deadline cap (suc left) attempt delay).0
              ≡ answered
                  (calls.run_gh attempt (child_timeout deadline cap (calls.before attempt)))))
        ⊎ ((wait : ℕ) × (attempt < gh_max_retries)
            × (out_of_time deadline (calls.after attempt + max wait delay) ≡ false)
            × (attempt_from calls deadline cap (suc left) attempt delay ≡ (
              (attempt_from calls deadline cap left
                  (attempt + 1)
                  (min (delay * 2) gh_retry_max_delay)).0,
              this attempt
                  ∷ slept (calls.after attempt) (max wait delay)
                  ∷ (attempt_from calls deadline cap left
                      (attempt + 1)
                      (min (delay * 2) gh_retry_max_delay)).1,
            )))
  unfolding attempt_from
  attempt-cases left attempt delay =
      elim (Result-cases
        (calls.run_gh attempt (child_timeout deadline cap (calls.before attempt)))) [
          | inr (e, failed) ↦ inl (ground arith)
          | inl (out, ended) ↦ elim (Option-cases (classify_retry_delay out)) [
            | inl final ↦ inl (ground arith)
            | inr (wait, transient) ↦
                elim (Bool-cases (
                  out.success
                  || (leb gh_max_retries attempt
                      || out_of_time deadline (calls.after attempt + max wait delay)))) [
                        | inl stops ↦ inl (ground arith)
                        | inr goes ↦ inr (wait, ground arith, ground arith, ground arith)
                      ]
          ]
        ]

  attempt_from-IsBackoff :
      (left attempt delay : ℕ)
      → suc left + attempt ≡ gh_max_retries + 1
      → IsBackoff deadline cap
          (suc left)
          delay
          (attempt_from calls deadline cap (suc left) attempt delay).1
        × IsLastAnswer calls attempt
            (attempt_from calls deadline cap (suc left) attempt delay).1
            (attempt_from calls deadline cap (suc left) attempt delay).0
  attempt_from-IsBackoff zero attempt delay count = elim (attempt-cases 0 attempt delay) [
    | inl (stopped, returned) ↦ (
      rw stopped (child_timeout-IsTimely deadline cap (calls.before attempt)),
      rw stopped returned,
    )
    | inr (wait, more, in_time, same) ↦ absurd (omega arith)
  ]
  attempt_from-IsBackoff (suc left) attempt delay count =
      elim (attempt-cases (suc left) attempt delay) [
        | inl (stopped, returned) ↦ (
          rw stopped (child_timeout-IsTimely deadline cap (calls.before attempt)),
          rw stopped returned,
        )
        | inr (wait, more, in_time, same) ↦
            let (later, returned) =
              attempt_from-IsBackoff left (attempt + 1) (min (delay * 2) gh_retry_max_delay)
                (omega arith) in
            rw same (
              (
                child_timeout-IsTimely deadline cap (calls.before attempt),
                in_time-IsWait deadline delay (calls.after attempt) (max wait delay) (omega arith)
                    in_time,
                later,
              ),
              returned,
            )
      ]

-- A call of `gh` is tried at most five times. It sleeps at least 2, 4, 8 and 16 seconds between the attempts,
-- never past the deadline, gives no attempt more than 45 seconds or, if capped, more than is left until the
-- deadline, and it ends with an attempt, whose answer, an output or an error, is the result.
pub run_gh_with_backoff_core_capped-IsBackoff :
    (calls : Calls) (deadline : Option ℕ) (cap : Bool)
    → let (result, events) = run_gh_with_backoff_core_capped calls deadline cap in
      IsBackoff deadline cap gh_max_retries gh_retry_base_delay events
      × IsLastAnswer calls 1 events result
unfolding run_gh_with_backoff_core_capped
run_gh_with_backoff_core_capped-IsBackoff calls deadline cap =
    attempt_from-IsBackoff calls deadline cap 4 1 gh_retry_base_delay refl
