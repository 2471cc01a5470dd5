-- ===== src/Monitor/State.antt =====
-- The states of the queue monitor and of the sampler (src/queue_monitor.rs).
use ez_gh_actions.Base.{
  ℕ, ◌+◌, ◌-◌, Bool, not, ◌&&◌, Option, none, some, if◌then◌else◌, leb, ltb, min, u32_max, Text,
}
use ez_gh_actions.Serve.Durations.{from_secs}

-- the settings of `queue_monitor` and `invariant_sampler`, and the scope and target of `github`
pub record MonitorConfig : Type 0 where
  pub qm_enabled : Bool
  pub qm_check_interval_seconds : ℕ
  pub repo : Option Text
  pub repo_scope : Bool
  pub target : Text
  pub tail_warn_minutes : ℕ
  pub stale_hours : ℕ
  pub consecutive_alert_threshold : ℕ
  pub rest_budget_floor : ℕ
  pub is_enabled : Bool
  pub is_check_interval_seconds : ℕ

unfoldable pub queue_repo : MonitorConfig → Option Text
queue_repo cfg = elim cfg.repo [
  | some r ↦ some r
  | none ↦ if cfg.repo_scope then some cfg.target else none
]

pub record QueueMonitorState : Type 0 where
  pub last_check : Option ℕ
  pub consecutive_bad : ℕ
  pub rest_budget_consecutive_floor_hits : ℕ
  pub rest_budget_skip_ticks_remaining : ℕ

pub record InvariantSamplerState : Type 0 where
  pub last_check : Option ℕ

unfoldable pub new_monitor : QueueMonitorState
new_monitor = record {
  last_check = none;
  consecutive_bad = 0;
  rest_budget_consecutive_floor_hits = 0;
  rest_budget_skip_ticks_remaining = 0;
}

unfoldable pub new_sampler : InvariantSamplerState
new_sampler = record { last_check = none }

abbrev pub floor_hit_backoff_threshold : ℕ
floor_hit_backoff_threshold = 3

abbrev pub floor_hit_backoff_ticks : ℕ
floor_hit_backoff_ticks = 5

unfoldable pub record_tail_sample : Bool → QueueMonitorState → QueueMonitorState
record_tail_sample tail_bad self =
    if tail_bad
    then record self { consecutive_bad = min (self.consecutive_bad + 1) u32_max }
    else record self { consecutive_bad = 0 }

unfoldable pub bump_floor_hit_counter : QueueMonitorState → QueueMonitorState
bump_floor_hit_counter self =
    let hits = min (self.rest_budget_consecutive_floor_hits + 1) u32_max in
    record self {
      rest_budget_consecutive_floor_hits = hits;
      rest_budget_skip_ticks_remaining =
          if leb floor_hit_backoff_threshold hits
            && not (ltb 0 self.rest_budget_skip_ticks_remaining)
          then floor_hit_backoff_ticks
          else self.rest_budget_skip_ticks_remaining;
    }

abbrev pub is_due : Bool → ℕ → Option ℕ → ℕ → Bool
is_due enabled seconds none now = enabled
is_due enabled seconds (some last) now = enabled && leb (from_secs seconds) (now - last)
