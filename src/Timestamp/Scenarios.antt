-- ===== src/Timestamp/Scenarios.antt =====
-- Tests for the timestamps of src/queue_monitor.rs.
use ez_gh_actions.Base.{◌≡◌, refl, none, some, text, text_eq, ends_with}
use ez_gh_actions.Base.Decimal.{parse_uint}
use ez_gh_actions.Base.Integers.{pos, negsuc}
use ez_gh_actions.Timestamp.{
  is_leap_year, max_day, civil_days, days_from_civil, parse_i32, is_well_formed,
  parse_github_timestamp_secs,
}

timestamps :
    (parse_github_timestamp_secs (text "1970-01-01T00:00:00Z") ≡ some (pos 0))
    × (parse_github_timestamp_secs (text "2026-07-07T08:00:00Z") ≡ some (pos 1783411200))
    × (parse_github_timestamp_secs (text "1969-12-31T23:59:59Z") ≡ some (negsuc 0))
    × (parse_github_timestamp_secs (text "2026-02-29T00:00:00Z") ≡ none)
    × (parse_github_timestamp_secs (text "2026-07-07 08:00:00Z") ≡ none)
unfolding parse_github_timestamp_secs parse_i32 parse_uint is_well_formed days_from_civil civil_days
    max_day is_leap_year ends_with text_eq
timestamps = (refl, refl, refl, refl, refl)
