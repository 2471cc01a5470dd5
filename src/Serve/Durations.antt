-- ===== src/Serve/Durations.antt =====
-- Times and durations of src/main.rs, in nanoseconds, and the settings of src/config.rs it reads.
use ez_gh_actions.Base.{ℕ, ◌*◌, ◌+◌, ◌%◌, ◌^◌, max}

-- `Duration::from_secs`
abbrev pub from_secs : ℕ → ℕ
from_secs n = n * 1000000000

-- `+=` on `u32` in a release build
abbrev pub add_u32 : ℕ → ℕ → ℕ
add_u32 a b = (a + b) % 2 ^ 32

abbrev pub min_serve_tick_seconds : ℕ
min_serve_tick_seconds = 5

pub record Config : Type 0 where
  pub count : ℕ
  pub serve_tick_seconds : ℕ
  pub failure_alert_threshold : ℕ

unfoldable pub serve_tick : Config → ℕ
serve_tick self = from_secs (max self.serve_tick_seconds min_serve_tick_seconds)
