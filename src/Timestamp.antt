-- ===== src/Timestamp.antt =====
-- GitHub's timestamps (src/queue_monitor.rs): `parse_github_timestamp_secs` and `days_from_civil`.
mod Scenarios
use ez_gh_actions.Base.{
  ℕ, zero, suc, ◌+◌, ◌-◌, ◌*◌, ◌/◌, ◌%◌, ◌^◌, Bool, true, false, not, ◌&&◌, ◌||◌, Option, none,
  some, List, [], ◌∷◌, ◌==◌, leb, ltb, if◌then◌else◌, length, map_option, u32_max, Text, text,
  ends_with,
}
use ez_gh_actions.Base.Decimal.{parse_uint}
use ez_gh_actions.Base.Integers.{ℤ, pos, negsuc, neg, ◌+ℤ◌, ◌-ℤ◌, times, quotient, magnitude}

unfoldable pub is_leap_year : ℤ → Bool
is_leap_year year = let y = magnitude year in y % 4 == 0 && not (y % 100 == 0) || y % 400 == 0

-- the days of a month of 1..=12
unfoldable pub max_day : ℤ → ℕ → ℕ
max_day year month =
    if month == 2
    then (if is_leap_year year then 29 else 28)
    else if month == 4 || (month == 6 || (month == 9 || month == 11))
    then 30
    else 31

-- the 400 years that a year lies in
abbrev era_of : ℤ → ℤ
era_of (pos y) = quotient (pos y) 400
era_of (negsuc y) = quotient (negsuc y -ℤ pos 399) 400

-- the days of the civil date, whose year begins in March
unfoldable pub civil_days : ℤ → ℕ → ℕ → ℤ
civil_days year m d =
    let y = if leb m 2 then year -ℤ pos 1 else year in
    let era = era_of y in
    let yoe = y -ℤ times era 400 in
    let doy = (153 * (if ltb 2 m then m - 3 else m + 9) + 2) / 5 + d - 1 in
    let doe = times yoe 365 +ℤ quotient yoe 4 -ℤ quotient yoe 100 +ℤ pos doy in
    times era 146097 +ℤ doe -ℤ pos 719468

unfoldable pub days_from_civil : ℤ → ℕ → ℕ → Option ℤ
days_from_civil year month day =
    if not (leb 1 month && leb month 12)
    then none
    else if day == 0 || ltb (max_day year month) day
    then none
    else some (civil_days year month day)

-- `str::parse` into `i32`
unfoldable pub parse_i32 : Text → Option ℤ
parse_i32 [] = none
parse_i32 (c ∷ []) = map_option pos (parse_uint (2 ^ 31 - 1) (c ∷ []))
parse_i32 (c ∷ d ∷ s) =
    if c == b'-'
    then (if d == b'+' then none else map_option neg (parse_uint (2 ^ 31) (d ∷ s)))
    else map_option pos (parse_uint (2 ^ 31 - 1) (c ∷ d ∷ s))

-- `raw.get(at..at + count)`, on a text that is long enough
abbrev pub slice : ℕ → ℕ → Text → Text
slice at count [] = []
slice zero zero (c ∷ s) = []
slice zero (suc count) (c ∷ s) = c ∷ slice zero count s
slice (suc at) count (c ∷ s) = slice at count s

abbrev byte_is : ℕ → ℕ → Text → Bool
byte_is at c raw = elim (slice at 1 raw) [ [] ↦ false | b ∷ _ ↦ b == c ]

-- the separators, and the ranges of the fields but the year
unfoldable pub is_well_formed : Text → ℕ → ℕ → ℕ → ℕ → ℕ → Bool
is_well_formed raw month day hour minute second =
    byte_is 4 b'-' raw
    && byte_is 7 b'-' raw
    && byte_is 10 b'T' raw
    && byte_is 13 b':' raw
    && byte_is 16 b':' raw
    && (leb 1 month && leb month 12)
    && (leb 1 day && leb day 31)
    && leb hour 23
    && leb minute 59
    && leb second 59

infixl 5 ◌>>=◌
abbrev ◌>>=◌ : {A B : Type 0} → Option A → (A → Option B) → Option B
none >>= f = none
some a >>= f = f a

unfoldable pub parse_github_timestamp_secs : Text → Option ℤ
parse_github_timestamp_secs raw =
    if not (length raw == 20) || not (ends_with (text "Z") raw) then none else do
      year ← parse_i32 (slice 0 4 raw)
      month ← parse_uint u32_max (slice 5 2 raw)
      day ← parse_uint u32_max (slice 8 2 raw)
      hour ← parse_uint u32_max (slice 11 2 raw)
      minute ← parse_uint u32_max (slice 14 2 raw)
      second ← parse_uint u32_max (slice 17 2 raw)
      days ←
          (if is_well_formed raw month day hour minute second
            then days_from_civil year month day
            else none)
      some (times days 86400 +ℤ pos (hour * 3600 + minute * 60 + second))
