-- ===== src/Monitor/Drive/Budget.antt =====
-- How often the monitor probes the REST budget (src/queue_monitor.rs: `drive_with_fetcher`).
use ez_gh_actions.Base.{
  ℕ, ◌+◌, ◌-◌, ◌*◌, ◌≤◌, List, [], ◌∷◌, ◌≡◌, refl, ◌∙◌, length, ◌⊎◌, max, arith, inl, inr,
}
use ez_gh_actions.Monitor.State.{MonitorConfig, QueueMonitorState, bump_floor_hit_counter}
use ez_gh_actions.Github.Backoff.{RestBudgetProbe, known, unknown}
use ez_gh_actions.Monitor.Fetches.{DriveReadings}
use ez_gh_actions.Monitor.Drive.{Drive, drive_with_fetcher}

-- ticks one after the other, each with its readings and the start of its iteration
unfoldable pub drive_each : MonitorConfig → List (DriveReadings × ℕ) → Drive → Drive
drive_each cfg [] s = s
drive_each cfg ((r, loop_start) ∷ ticks) s =
    drive_each cfg ticks (drive_with_fetcher cfg r loop_start s).1

-- the probe finds no more than the floor
abbrev pub IsLow : MonitorConfig → RestBudgetProbe → Type 0
IsLow cfg (known remaining) = remaining ≤ cfg.rest_budget_floor
IsLow cfg unknown = ⊥

abbrev pub AllLow : MonitorConfig → List (DriveReadings × ℕ) → Type 0
AllLow cfg [] = Unit
AllLow cfg ((r, _) ∷ ticks) = IsLow cfg r.probe × AllLow cfg ticks

-- nothing is told, recorded or stamped: only the counters of the probe may differ
pub record IsDeferred (s s' : Drive) : Type 0 where
  pub qm_check : s'.qm.last_check ≡ s.qm.last_check
  pub bad : s'.qm.consecutive_bad ≡ s.qm.consecutive_bad
  pub sampler : s'.sampler ≡ s.sampler
  pub notified : s'.notified ≡ s.notified
  pub history : s'.history ≡ s.history

-- what is left of the probes before the next pause, six ticks for each
allowance : QueueMonitorState → ℕ
allowance qm =
    5 * max (3 - qm.rest_budget_consecutive_floor_hits) 1 - qm.rest_budget_skip_ticks_remaining

abbrev Frugal : Drive → Drive → Type 0
Frugal s s' = 6 * s'.probes + allowance s'.qm ≤ 6 * s.probes + 1 + allowance s.qm

-- a tick of the pause
abbrev pub skipped : QueueMonitorState → QueueMonitorState
skipped qm = record qm {
  rest_budget_skip_ticks_remaining = qm.rest_budget_skip_ticks_remaining - 1;
}

bump-allowance :
    (qm : QueueMonitorState)
    → qm.rest_budget_skip_ticks_remaining ≡ 0
    → 5 + allowance (bump_floor_hit_counter qm) ≤ allowance qm
unfolding allowance bump_floor_hit_counter
bump-allowance qm h = ground arith

-- a tick that is not due, one in a pause, or one whose probe is low
low_tick :
    (cfg : MonitorConfig) (r : DriveReadings) (loop_start : ℕ) (s : Drive)
    → IsLow cfg r.probe
    → let s' = (drive_with_fetcher cfg r loop_start s).1 in
      (s' ≡ s)
      ⊎ ((s' ≡ record s { qm = skipped s.qm }) × (1 ≤ s.qm.rest_budget_skip_ticks_remaining))
      ⊎ ((s' ≡ record s { probes = s.probes + 1; qm = bump_floor_hit_counter s.qm })
          × (s.qm.rest_budget_skip_ticks_remaining ≡ 0))
unfolding drive_with_fetcher
low_tick cfg r loop_start s low = ground arith

-- only the probes and their counters differ
pub deferred :
    (s : Drive) (qm : QueueMonitorState) (probes : ℕ)
    → qm.last_check ≡ s.qm.last_check
    → qm.consecutive_bad ≡ s.qm.consecutive_bad
    → IsDeferred s (record s { qm = qm; probes = probes })
deferred s qm probes check bad = record {
  qm_check = check;
  bad = bad;
  sampler = refl;
  notified = refl;
  history = refl;
}

IsDeferred-trans : {s t u : Drive} → IsDeferred s t → IsDeferred t u → IsDeferred s u
IsDeferred-trans d e = record {
  qm_check = e.qm_check ∙ d.qm_check;
  bad = e.bad ∙ d.bad;
  sampler = e.sampler ∙ d.sampler;
  notified = e.notified ∙ d.notified;
  history = e.history ∙ d.history;
}

low_tick-IsDeferred :
    (cfg : MonitorConfig) (r : DriveReadings) (loop_start : ℕ) (s : Drive)
    → IsLow cfg r.probe
    → IsDeferred s (drive_with_fetcher cfg r loop_start s).1
      × (6 * (drive_with_fetcher cfg r loop_start s).1.probes
            + allowance (drive_with_fetcher cfg r loop_start s).1.qm
          ≤ 6 * s.probes + 1 + allowance s.qm)
low_tick-IsDeferred cfg r loop_start s low = elim (low_tick cfg r loop_start s low) [
  | inl same ↦ rw same (deferred s s.qm s.probes refl refl, omega arith)
  | inr (inl (paused, some_left)) ↦
      rw paused (deferred s (skipped s.qm) s.probes refl refl, unfold allowance in omega arith)
  | inr (inr (probed, none_left)) ↦ rw probed (
    unfold bump_floor_hit_counter in
        deferred s (bump_floor_hit_counter s.qm) (s.probes + 1) refl refl,
    omega (arith, bump-allowance s.qm none_left),
  )
]

low_run :
    (cfg : MonitorConfig) (ticks : List (DriveReadings × ℕ)) (s : Drive)
    → AllLow cfg ticks
    → IsDeferred s (drive_each cfg ticks s)
      × (6 * (drive_each cfg ticks s).probes + allowance (drive_each cfg ticks s).qm
          ≤ 6 * s.probes + length ticks + allowance s.qm)
unfolding drive_each
low_run cfg [] s low = (deferred s s.qm s.probes refl refl, omega arith)
low_run cfg ((r, loop_start) ∷ ticks) s (low, lows) =
    let (d, first) = low_tick-IsDeferred cfg r loop_start s low in
    let (e, rest) = low_run cfg ticks (drive_with_fetcher cfg r loop_start s).1 lows in
    (IsDeferred-trans d e, omega arith)

-- As long as the REST budget stays at or below the floor, the ticks notify nobody, record no sample and stamp
-- no check, and they rarely probe it: six times the number of probes is at most the number of ticks and
-- fifteen.
pub low_budget :
    (cfg : MonitorConfig) (ticks : List (DriveReadings × ℕ)) (s : Drive)
    → AllLow cfg ticks
    → IsDeferred s (drive_each cfg ticks s)
      × (6 * (drive_each cfg ticks s).probes ≤ 6 * s.probes + length ticks + 15)
unfolding allowance
low_budget cfg ticks s low = let (d, bound) = low_run cfg ticks s low in (d, omega arith)
