-- ===== src/Pool/Pressure/Gate.antt =====
-- What `eval_admission` (src/docker_backend.rs) admits, and how often a pause is reported.
use ez_gh_actions.Base.{
  ℕ, ◌*◌, ◌+◌, ◌≤◌, ◌<◌, ◌≡◌, ◌↔◌, refl, ◌⊎◌, Bool, true, false, Option, none, some, List, arith,
  if◌then◌else◌, u64_max,
}
use ez_gh_actions.Base.Results.{ok}
use ez_gh_actions.Pool.Pressure.{
  push_reading, all_rising, eval_admission, AdmissionPauseEpisode, admission_pause_alert_due,
}

-- A start is admitted exactly if the pressure is at most 50%, the available memory covers twice the
-- runner's and, where a reserve is set, the reserve and the runner's, and the pressure has not
-- risen through the whole window.
eval_admission_lem :
    (pressure available runner reserve : ℕ) (window : List (Option ℕ))
    → available < u64_max
    → ((eval_admission pressure available runner reserve window).0 ≡ ok tt) ↔ (
        (pressure ≤ 5000)
        × (runner * 2 ≤ available)
        × ((reserve ≡ 0) ⊎ (reserve + runner ≤ available))
        × (all_rising (push_reading pressure window) ≡ false))
unfolding eval_admission
eval_admission_lem pressure available runner reserve window small = ground arith

-- Polls of one pause that are reported or not: `n` of them were.
pub data Pause : ℕ → Option AdmissionPauseEpisode → Type 0 where
  admitted : Pause 0 none
  quiet :
      {n : ℕ} {e : Option AdmissionPauseEpisode} (now : ℕ) (headroom : Bool)
      → Pause n e
      → (admission_pause_alert_due now true headroom e).0 ≡ false
      → Pause n (admission_pause_alert_due now true headroom e).1
  reported :
      {n : ℕ} {e : Option AdmissionPauseEpisode} (now : ℕ) (headroom : Bool)
      → Pause n e
      → (admission_pause_alert_due now true headroom e).0 ≡ true
      → Pause (n + 1) (admission_pause_alert_due now true headroom e).1

-- the reports of the episode so far
abbrev reports : Option AdmissionPauseEpisode → ℕ
reports none = 0
reports (some e) = if e.alerted then 1 else 0

reports-due :
    (now : ℕ) (headroom : Bool) (e : Option AdmissionPauseEpisode)
    → reports (admission_pause_alert_due now true headroom e).1
      ≡ (if (admission_pause_alert_due now true headroom e).0 then reports e + 1 else reports e)
unfolding admission_pause_alert_due
reports-due now headroom none = ground arith
reports-due now headroom (some e) = ground arith

Pause-reports : {n : ℕ} {e : Option AdmissionPauseEpisode} → Pause n e → reports e ≡ n
Pause-reports admitted = refl
Pause-reports (quiet {n} {e} now headroom r h) =
    ground (arith, h, reports-due now headroom e, Pause-reports r)
Pause-reports (reported {n} {e} now headroom r h) =
    ground (arith, h, reports-due now headroom e, Pause-reports r)

-- A pause of admission is reported at most once, however long it lasts.
Pause-once : {n : ℕ} {e : Option AdmissionPauseEpisode} → Pause n e → n ≤ 1
Pause-once {n} {e} r = ground (arith, Pause-reports r)
