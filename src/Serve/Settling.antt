-- ===== src/Serve/Settling.antt =====
-- `SettlingEpisode` and `SettlingCeilingState` (src/main.rs).
pub mod Bounds
use ez_gh_actions.Base.{
  ℕ, ◌+◌, ◌-◌, Bool, true, false, ◌||◌, Option, none, some, ltb, leb, if◌then◌else◌, max, min,
  saturating_add, unwrap_or, u32_max,
}
use ez_gh_actions.Serve.Durations.{from_secs, add_u32, min_serve_tick_seconds, Config, serve_tick}

abbrev pub max_settling_polls : ℕ
max_settling_polls = 5

abbrev pub max_settling_duration : ℕ
max_settling_duration = from_secs 25

pub data SettlingDecision : Type 0 where
  continue recovered ceiling : SettlingDecision

pub record SettlingEpisode : Type 0 where
  pub started_at : Option ℕ
  pub attempts : ℕ
  pub best_executing : ℕ
  pub stagnant_polls : ℕ

abbrev pub start : ℕ → ℕ → SettlingEpisode
start now executing = record {
  started_at = some now;
  attempts = 0;
  best_executing = executing;
  stagnant_polls = 0;
}

abbrev ended : SettlingEpisode → SettlingEpisode
ended self = record self { started_at = none }

-- the best count and the polls without progress
unfoldable pub progress : ℕ → SettlingEpisode → SettlingEpisode
progress executing self =
    if ltb self.best_executing executing
    then record self { best_executing = executing; stagnant_polls = 0 }
    else record self { stagnant_polls = add_u32 self.stagnant_polls 1 }

-- `observe` on an episode that was started at `started_at`, after `attempts += 1`
unfoldable pub observe_active : ℕ → ℕ → ℕ → ℕ → SettlingEpisode → SettlingDecision × SettlingEpisode
observe_active started_at now executing target self =
    if leb target executing
    then (recovered, ended self)
    else if ltb executing self.best_executing
    then (ceiling, ended self)
    else (let self' = progress executing self in
        if leb max_settling_polls self'.attempts || leb max_settling_duration (now - started_at)
        then (ceiling, ended self')
        else (continue, self'))

unfoldable pub observe : ℕ → ℕ → ℕ → SettlingEpisode → SettlingDecision × SettlingEpisode
observe now executing target self = elim self.started_at [
  | none ↦ (ceiling, self)
  | some started_at ↦
      observe_active started_at now executing target
        (record self { attempts = add_u32 self.attempts 1 })
]

-- how long to sleep, and whether to run the monitors
unfoldable pub settling_plan : Config → SettlingDecision → ℕ × Bool
settling_plan cfg continue = (from_secs min_serve_tick_seconds, false)
settling_plan cfg recovered = (serve_tick cfg, true)
settling_plan cfg ceiling = (0, false)

unfoldable pub apply_local_settling_decision :
    SettlingDecision → Option SettlingEpisode × Bool → Option SettlingEpisode × Bool
apply_local_settling_decision continue s = s
apply_local_settling_decision recovered s = (none, false)
apply_local_settling_decision ceiling s = (none, true)

abbrev pub settling_ceiling_min_sustain : ℕ
settling_ceiling_min_sustain = from_secs 600

pub record SettlingCeilingState : Type 0 where
  pub consecutive_ceilings : ℕ
  pub shortfall_since : Option ℕ

abbrev pub record_recovery : SettlingCeilingState
record_recovery = record { consecutive_ceilings = 0; shortfall_since = none }

-- `u32::saturating_add`
abbrev saturating_add_u32 : ℕ → ℕ → ℕ
saturating_add_u32 a b = min (a + b) u32_max

-- whether the alert is sent, and the state
unfoldable pub record_settling_ceiling_at :
    Config → ℕ → SettlingCeilingState → Bool × SettlingCeilingState
record_settling_ceiling_at cfg now state =
    let since = unwrap_or state.shortfall_since now in
    let state' = record state { shortfall_since = some since } in
    if ltb (now - since) settling_ceiling_min_sustain
    then (false, state')
    else (let counted = record state' {
      consecutive_ceilings = saturating_add_u32 state'.consecutive_ceilings 1;
    } in
        if ltb counted.consecutive_ceilings (max cfg.failure_alert_threshold 1)
        then (false, counted)
        else (true, counted))
