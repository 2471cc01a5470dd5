-- ===== src/Serve/Settling/Bounds.antt =====
-- How long a settling episode of src/main.rs can go on, and when its ceilings raise an alert.
use ez_gh_actions.Base.{
  ℕ, ◌+◌, ◌-◌, ◌≤◌, ◌<◌, ◌≡◌, refl, ◌&&◌, some, arith, leb, if◌then◌else◌, max, min, u32_max,
}
use ez_gh_actions.Serve.Durations.{from_secs, Config}
use ez_gh_actions.Serve.Settling.{
  continue, SettlingEpisode, start, observe, observe_active, progress, SettlingCeilingState,
  record_settling_ceiling_at, record_recovery,
}

-- an episode that is going on after so many polls
pub record IsActive (started_at polls : ℕ) (e : SettlingEpisode) : Type 0 where
  pub started : e.started_at ≡ some started_at
  pub attempts : e.attempts ≡ polls
  pub few : polls < 5

pub start-IsActive : (now executing : ℕ) → IsActive now 0 (start now executing)
start-IsActive now executing = record { started = refl; attempts = refl; few = omega arith }

-- An episode goes on only if fewer than five polls were made, 25 seconds have not passed, and the
-- count has neither reached the target nor dropped below the best.
pub observe-IsActive :
    (now executing target started_at polls : ℕ) (e : SettlingEpisode)
    → IsActive started_at polls e
    → (observe now executing target e).0 ≡ continue
    → IsActive started_at (polls + 1) (observe now executing target e).1
      × (now - started_at < from_secs 25)
      × (executing < target)
      × (e.best_executing ≤ executing)
      × ((observe now executing target e).1.best_executing ≡ executing)
unfolding observe observe_active progress
observe-IsActive now executing target started_at polls e a h =
    let started : e.started_at ≡ some started_at = a.started in
    let attempts : e.attempts ≡ polls = a.attempts in
    let few : polls < 5 = a.few in
    (
      record { started = ground (arith, h); attempts = ground (arith, h); few = ground (arith, h) },
      ground (arith, h),
      ground (arith, h),
      ground (arith, h),
      ground (arith, h),
    )

-- An episode that began with `executing` runners and is still going on after so many polls.
pub data Episode (began executing target : ℕ) : ℕ → SettlingEpisode → Type 0 where
  begin : Episode began executing target 0 (start began executing)
  poll :
      {n : ℕ} {e : SettlingEpisode} (now seen : ℕ)
      → Episode began executing target n e
      → (observe now seen target e).0 ≡ continue
      → Episode began executing target (n + 1) (observe now seen target e).1

Episode-IsActive :
    {began executing target n : ℕ} {e : SettlingEpisode}
    → Episode began executing target n e
    → IsActive began n e × (executing ≤ e.best_executing)
Episode-IsActive {began} {executing} begin = (start-IsActive began executing, omega arith)
Episode-IsActive {began} {executing} {target} (poll {n} {e} now seen r h) =
    let (a, best) = Episode-IsActive r in
    let (a', _, _, low, same) = observe-IsActive now seen target began n e a h in (a', omega arith)

-- A poll that keeps an episode going is one of its first four, comes within 25 seconds of its start,
-- and sees fewer runners than the target and no fewer than the episode began with.
Episode-bounded :
    {began executing target n : ℕ} {e : SettlingEpisode} (now seen : ℕ)
    → Episode began executing target n e
    → (observe now seen target e).0 ≡ continue
    → (n + 1 < 5) × (now - began < from_secs 25) × (seen < target) × (executing ≤ seen)
Episode-bounded {began} {executing} {target} {n} {e} now seen r h =
    let (a, best) = Episode-IsActive r in
    let (a', soon, short, low, _) = observe-IsActive now seen target began n e a h in
    (a'.few, soon, short, omega arith)

-- The ceilings since the last recovery, the first at `first`; `n` of the later ones came at least 600
-- seconds after it.
pub data Shortage (cfg : Config) (first : ℕ) : ℕ → SettlingCeilingState → Type 0 where
  opened : Shortage cfg first 0 (record_settling_ceiling_at cfg first record_recovery).1
  again :
      {n : ℕ} {s : SettlingCeilingState} (now : ℕ)
      → Shortage cfg first n s
      → Shortage cfg first
          (if leb (from_secs 600) (now - first) then n + 1 else n)
          (record_settling_ceiling_at cfg now s).1

Shortage-state :
    (cfg : Config) {first n : ℕ} {s : SettlingCeilingState}
    → Shortage cfg first n s
    → (s.shortfall_since ≡ some first) × (s.consecutive_ceilings ≡ min n u32_max)
unfolding record_settling_ceiling_at
Shortage-state cfg {first} opened = (ground arith, ground arith)
Shortage-state cfg {first} (again {n} {s} now r) =
    let (since, counted) = Shortage-state cfg r in
    (ground (arith, since, counted), ground (arith, since, counted))

-- A ceiling raises the alert exactly if the shortage has lasted 600 seconds and the ceilings that came
-- so late, this one included, reach the threshold.
Shortage-alert :
    (cfg : Config) {first n : ℕ} {s : SettlingCeilingState} (now : ℕ)
    → Shortage cfg first n s
    → (record_settling_ceiling_at cfg now s).0 ≡ (
        leb (from_secs 600) (now - first)
        && leb (max cfg.failure_alert_threshold 1) (min (n + 1) u32_max))
unfolding record_settling_ceiling_at
Shortage-alert cfg {first} {n} {s} now r =
    let (since, counted) = Shortage-state cfg r in ground (arith, since, counted)
