-- ===== src/Canary/Poll/Length.antt =====
-- How long one canary polls (src/canary.rs: `run_once`).
use ez_gh_actions.Base.{
  ℕ, zero, suc, ◌+◌, ◌-◌, ◌*◌, ◌≤◌, ◌<◌, ◌≡◌, Bool, true, Option, none, [], min, max, leb, is_some,
  unwrap_or, Text, arith, inl, inr, Bool-cases, Option-cases,
}
use ez_gh_actions.Serve.Durations.{from_secs}
use ez_gh_actions.Canary.{CanaryResult}
use ez_gh_actions.Canary.Poll.{
  CanaryConfig, CanaryWorld, canary_repo, dispatched, deadline, nap, expired, poll, run_once,
}
use ez_gh_actions.Canary.Poll.Ends.{poll-cases}

module _ (cfg : CanaryConfig) (world : CanaryWorld) (repo nonce : Text) (timeout : ℕ) where
  -- a poll at the deadline is the last
  deadline-expired :
      (k : ℕ) (result : CanaryResult)
      → deadline cfg world repo nonce timeout ≤ world.now k
      → is_some (expired cfg world repo nonce timeout k result) ≡ true
  unfolding expired
  deadline-expired k result h = ground arith

  -- A poll that leads to the next one was before the deadline.
  more-early :
      (k : ℕ) (r : CanaryResult)
      → expired cfg world repo nonce timeout k r ≡ none
      → world.now k < deadline cfg world repo nonce timeout
  more-early k r more =
      elim (Bool-cases (leb (deadline cfg world repo nonce timeout) (world.now k))) [
        | inl late ↦ absurd (ground (arith, deadline-expired k r))
        | inr early ↦ ground arith
      ]

  later :
      (fuel interval now next limit : ℕ)
      → now < limit
      → now + min interval (limit - now) ≤ next
      → limit ≤ now + suc fuel * interval
      → limit ≤ next + fuel * interval
  later fuel interval now next limit early slept enough = omega arith

  poll-terminates :
      (fuel k : ℕ) (last : CanaryResult)
      → ((j : ℕ) → world.now j + nap cfg world repo nonce timeout j ≤ world.now (j + 1))
      → deadline cfg world repo nonce timeout
        ≤ world.now k + fuel * from_secs (max cfg.poll_interval_seconds 1)
      → is_some (poll cfg world repo nonce timeout (suc fuel) k last) ≡ true
  poll-terminates zero k last clock enough =
      elim (poll-cases cfg world repo nonce timeout 0 k last) [
        | inl (e, failed) ↦ ground arith
        | inr (inl (r, seen, same)) ↦ ground arith
        | inr (inr (inl (r, r', ends, same))) ↦ ground arith
        | inr (inr (inr (r, more, same))) ↦ absurd (omega (arith, more-early k r more))
      ]
  poll-terminates (suc fuel) k last clock enough =
      elim (poll-cases cfg world repo nonce timeout (suc fuel) k last) [
        | inl (e, failed) ↦ ground arith
        | inr (inl (r, seen, same)) ↦ ground arith
        | inr (inr (inl (r, r', ends, same))) ↦ ground arith
        | inr (inr (inr (r, more, same))) ↦ rw same (
            poll-terminates fuel (k + 1) r clock (
              later fuel (from_secs (max cfg.poll_interval_seconds 1)) (world.now k)
                (world.now (k + 1)) (deadline cfg world repo nonce timeout) (more-early k r more)
                (clock k) enough))
      ]

-- A canary ends: where its first poll comes after its start and each further one at least a sleep after the
-- one before, it needs no more polls than the timeout has poll intervals, and one, whatever GitHub
-- answers.
pub run_once-terminates :
    (cfg : CanaryConfig) (world : CanaryWorld) (polls : ℕ) (timeout_override : Option ℕ)
    (nonce : Text) (send_alert : Bool)
    → world.start ≤ world.now 0
    → ((j : ℕ)
        → world.now j
            + nap cfg world [] nonce
                (from_secs (unwrap_or timeout_override cfg.poll_timeout_seconds))
                j
          ≤ world.now (j + 1))
    → from_secs (unwrap_or timeout_override cfg.poll_timeout_seconds)
      ≤ polls * from_secs (max cfg.poll_interval_seconds 1)
    → is_some (run_once cfg world (suc polls) timeout_override nonce send_alert) ≡ true
unfolding run_once
run_once-terminates cfg world polls timeout_override nonce send_alert started clock enough =
    elim (Option-cases (canary_repo cfg)) [
      | inl missing ↦ ground arith
      | inr (repo, known) ↦ ground (
        arith,
        poll-terminates cfg world repo nonce
            (from_secs (unwrap_or timeout_override cfg.poll_timeout_seconds)) polls 0
            (dispatched cfg repo nonce) clock (omega arith),
      )
    ]
