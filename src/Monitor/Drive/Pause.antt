-- ===== src/Monitor/Drive/Pause.antt =====
-- The pause of the budget probe ends (src/queue_monitor.rs: `drive_with_fetcher`).
use ez_gh_actions.Base.{
  ℕ, ◌+◌, ◌-◌, ◌≤◌, ◌<◌, Bool, true, ◌||◌, List, [], ◌∷◌, ◌≡◌, length, ◌⊎◌, arith, inl, inr,
}
use ez_gh_actions.Monitor.State.{MonitorConfig, is_due}
use ez_gh_actions.Monitor.Fetches.{DriveReadings, Snapshots}
use ez_gh_actions.Monitor.Queue.{FleetRunnerStats}
use ez_gh_actions.Monitor.Drive.{
  Drive, drive_with_fetcher, queue_tick, sampler_tick, consume, fetch,
}
use ez_gh_actions.Monitor.Drive.Budget.{drive_each}

-- one of the two ticks is due
unfoldable pub due : MonitorConfig → DriveReadings → Drive → Bool
due cfg r s =
    is_due cfg.qm_enabled cfg.qm_check_interval_seconds s.qm.last_check r.qm_now
    || is_due cfg.is_enabled cfg.is_check_interval_seconds s.sampler.last_check r.is_now

abbrev pub AllDue : MonitorConfig → List (DriveReadings × ℕ) → Drive → Type 0
AllDue cfg [] s = Unit
AllDue cfg ((r, loop_start) ∷ ticks) s =
    (due cfg r s ≡ true) × AllDue cfg ticks (drive_with_fetcher cfg r loop_start s).1

-- the fetches and what follows leave the count of the probes
queue_tick-probes :
    (cfg : MonitorConfig) (r : DriveReadings) (snapshots : Snapshots) (s : Drive)
    → (queue_tick cfg r snapshots s).1.probes ≡ s.probes
unfolding queue_tick
queue_tick-probes cfg r snapshots s = ground arith

sampler_tick-probes :
    (cfg : MonitorConfig) (r : DriveReadings) (fleet : FleetRunnerStats) (snapshots : Snapshots)
    (s : Drive)
    → (sampler_tick cfg r fleet snapshots s).1.probes ≡ s.probes
unfolding sampler_tick
sampler_tick-probes cfg r fleet snapshots s = ground arith

consume-probes :
    (cfg : MonitorConfig) (r : DriveReadings) (qm_due sampler_due : Bool) (fleet : FleetRunnerStats)
    (snapshots : Snapshots) (s : Drive)
    → (consume cfg r qm_due sampler_due fleet snapshots s).1.probes ≡ s.probes
unfolding consume
consume-probes cfg r qm_due sampler_due fleet snapshots s = ground (
  arith,
  queue_tick-probes cfg r snapshots s,
  sampler_tick-probes cfg r fleet snapshots s,
  sampler_tick-probes cfg r fleet snapshots (queue_tick cfg r snapshots s).1,
)

fetch-probes :
    (cfg : MonitorConfig) (r : DriveReadings) (qm_due sampler_due : Bool) (loop_start : ℕ)
    (s : Drive)
    → (fetch cfg r qm_due sampler_due loop_start s).1.probes ≡ s.probes
unfolding fetch
fetch-probes cfg r qm_due sampler_due loop_start s = grind (arith, consume-probes)

due_tick :
    (cfg : MonitorConfig) (r : DriveReadings) (loop_start : ℕ) (s : Drive)
    → due cfg r s ≡ true
    → let s' = (drive_with_fetcher cfg r loop_start s).1 in
      ((s.qm.rest_budget_skip_ticks_remaining ≡ 0) × (s'.probes ≡ s.probes + 1))
      ⊎ ((1 ≤ s.qm.rest_budget_skip_ticks_remaining)
          × (s'.qm.rest_budget_skip_ticks_remaining ≡ s.qm.rest_budget_skip_ticks_remaining - 1)
          × (s'.probes ≡ s.probes))
unfolding due drive_with_fetcher
due_tick cfg r loop_start s is_due = grind (arith, fetch-probes)

probes_grow :
    (cfg : MonitorConfig) (r : DriveReadings) (loop_start : ℕ) (s : Drive)
    → s.probes ≤ (drive_with_fetcher cfg r loop_start s).1.probes
unfolding drive_with_fetcher
probes_grow cfg r loop_start s = grind (arith, fetch-probes)

drive_each-grow :
    (cfg : MonitorConfig) (ticks : List (DriveReadings × ℕ)) (s : Drive)
    → s.probes ≤ (drive_each cfg ticks s).probes
unfolding drive_each
drive_each-grow cfg [] s = omega arith
drive_each-grow cfg ((r, loop_start) ∷ ticks) s = omega (
  arith,
  probes_grow cfg r loop_start s,
  drive_each-grow cfg ticks (drive_with_fetcher cfg r loop_start s).1,
)

-- A pause of the budget probe ends by itself: among more due ticks than the pause has left, at least one
-- probes the budget, whatever the ticks before it have read.
pub pause_ends :
    (cfg : MonitorConfig) (ticks : List (DriveReadings × ℕ)) (s : Drive)
    → AllDue cfg ticks s
    → s.qm.rest_budget_skip_ticks_remaining < length ticks
    → s.probes < (drive_each cfg ticks s).probes
unfolding drive_each
pause_ends cfg [] s due h = absurd (omega arith)
pause_ends cfg ((r, loop_start) ∷ ticks) s (due, dues) h =
    let s' = (drive_with_fetcher cfg r loop_start s).1 in
    elim (due_tick cfg r loop_start s due) [
      | inl (none_left, probed) ↦ omega (arith, drive_each-grow cfg ticks s')
      | inr (some_left, fewer, kept) ↦ omega (arith, pause_ends cfg ticks s' dues (omega arith))
    ]
