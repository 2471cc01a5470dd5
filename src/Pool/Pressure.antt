-- ===== src/Pool/Pressure.antt =====
-- Admission under memory pressure (src/docker_backend.rs). A pressure is a number of hundredths of a
-- percent: the kernel gives two decimals.
pub mod Gate
use ez_gh_actions.Base.{
  ℕ, ◌-◌, ◌*◌, ◌+◌, Bool, true, false, not, ◌&&◌, ◌||◌, Option, none, some, List, [], ◌∷◌, ◌++◌,
  ltb, leb, if◌then◌else◌, min, u64_max, saturating_add, unwrap_or,
}
use ez_gh_actions.Base.Results.{Result, ok, err}

-- `u64::saturating_mul`
abbrev pub saturating_mul : ℕ → ℕ → ℕ
saturating_mul a b = min (a * b) u64_max

pub data Refusal : Type 0 where
  pressure_too_high below_host_reserve below_twice_runner pressure_rising probe_failed : Refusal

-- `rotate_left(1)`, and the reading in the last place
abbrev pub push_reading : ℕ → List (Option ℕ) → List (Option ℕ)
push_reading p [] = []
push_reading p (x ∷ xs) = xs ++ some p ∷ []

-- every reading after the first is there and above the one before it
unfoldable pub rises_from : ℕ → List (Option ℕ) → Bool
rises_from prev [] = true
rises_from prev (none ∷ xs) = false
rises_from prev (some p ∷ xs) = ltb prev p && rises_from p xs

unfoldable pub all_rising : List (Option ℕ) → Bool
all_rising [] = true
all_rising (none ∷ xs) = false
all_rising (some p ∷ xs) = rises_from p xs

-- the window is rotated only once the other tests have passed
unfoldable pub eval_admission :
    ℕ → ℕ → ℕ → ℕ → List (Option ℕ) → Result Refusal Unit × List (Option ℕ)
eval_admission pressure available runner reserve window =
    if ltb 5000 pressure
    then (err pressure_too_high, window)
    else if ltb 0 reserve && ltb available (saturating_add reserve runner)
    then (err below_host_reserve, window)
    else if ltb available (saturating_mul runner 2)
    then (err below_twice_runner, window)
    else (let window' = push_reading pressure window in
        if all_rising window' then (err pressure_rising, window') else (ok tt, window'))

pub record AdmissionPauseEpisode : Type 0 where
  pub since : ℕ
  pub alerted : Bool

-- nanoseconds
abbrev pub admission_pause_alert_after : ℕ
admission_pause_alert_after = 10 * 60 * 1000000000

unfoldable pub admission_pause_alert_due :
    ℕ → Bool → Bool → Option AdmissionPauseEpisode → Bool × Option AdmissionPauseEpisode
admission_pause_alert_due now paused headroom episode =
    if not paused
    then (false, none)
    else (let ep = unwrap_or episode (record { since = now; alerted = false }) in
        if ep.alerted || not headroom || ltb (now - ep.since) admission_pause_alert_after
        then (false, some ep)
        else (true, some (record ep { alerted = true })))
