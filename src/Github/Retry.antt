-- ===== src/Github/Retry.antt =====
-- How a failed call of `gh` is classified (src/github.rs: `classify_retry_delay`). Durations are in nanoseconds.
use ez_gh_actions.Base.{
  ℕ, Bool, false, not, ◌&&◌, ◌||◌, Option, none, some, List, [], ◌∷◌, ◌++◌, ◌==◌, if◌then◌else◌,
  leb, min, max, u64_max, is_some_and, map_option, unwrap_or, Text, text, text_eq,
}
use ez_gh_actions.Base.Decimal.{parse_uint}
use ez_gh_actions.Base.Texts.{contains_text, to_lowercase}
use ez_gh_actions.Serve.Durations.{from_secs}

pub record Output : Type 0 where
  pub success : Bool
  pub code : Option ℕ
  pub stdout : Text
  pub stderr : Text

abbrev pub gh_secondary_min_delay : ℕ
gh_secondary_min_delay = from_secs 60

abbrev pub gh_retry_base_delay : ℕ
gh_retry_base_delay = from_secs 2

abbrev pub gh_retry_max_delay : ℕ
gh_retry_max_delay = from_secs 32

-- `format!("{a} {b}")`
abbrev pub joined : Text → Text → Text
joined a b = a ++ (b' ' ∷ b)

abbrev pub lowered : Text → Text → Text
lowered stdout stderr = to_lowercase (joined stdout stderr)

abbrev is_part : ℕ → Bool
is_part c =
    (leb b'0' c && leb c b'9')
    || ((leb b'a' c && leb c b'z') || ((leb b'A' c && leb c b'Z') || c == b'-'))

-- the longest parts of letters, digits and dashes; `current` is the part before the rest, reversed
unfoldable pub split_parts : Text → Text → List Text
split_parts current [] = current ∷ []
split_parts current (c ∷ s) =
    let inside = split_parts (current ++ c ∷ []) s in
    let after = split_parts [] s in if is_part c then inside else current ∷ after

-- `lines`; the carriage return of a line separates its parts anyway
unfoldable pub lines_from : Text → Text → List Text
lines_from current [] = current ∷ []
lines_from current (c ∷ s) =
    let inside = lines_from (current ++ c ∷ []) s in
    let after = lines_from [] s in if c == 10 then current ∷ after else inside

-- the first part that is a number; a part has no colon to split it at
unfoldable pub first_number : List Text → Option ℕ
first_number [] = none
first_number (part ∷ parts) =
    let rest = first_number parts in
    elim (parse_uint u64_max part) [ some v ↦ some v | none ↦ rest ]

unfoldable pub retry_after_in : List Text → Option ℕ
retry_after_in [] = none
retry_after_in (line ∷ lines) =
    let rest = retry_after_in lines in
    let lower = to_lowercase line in
    if not (contains_text (text "retry") lower)
    then rest
    else elim (first_number (split_parts [] lower)) [ some v ↦ some v | none ↦ rest ]

unfoldable pub extract_retry_after_secs : Text → Option ℕ
extract_retry_after_secs s = retry_after_in (lines_from [] s)

-- 403 or 429, as the status or in the text
abbrev is_limit_status : Option ℕ → Text → Bool
is_limit_status status lower =
    is_some_and status (λ n. n == 403 || n == 429)
    || (contains_text (text "http 403") lower || contains_text (text "http 429") lower)

unfoldable pub is_primary_rate_limit_response : Text → Text → Option ℕ → Bool
is_primary_rate_limit_response stdout stderr status =
    let lower = lowered stdout stderr in
    if contains_text (text "secondary") lower
    then false
    else if not (contains_text (text "rate limit") lower || contains_text (text "abuse") lower)
    then false
    else is_limit_status status lower

unfoldable pub is_secondary_rate_limit_response : Text → Text → Option ℕ → Bool
is_secondary_rate_limit_response stdout stderr status =
    let lower = lowered stdout stderr in
    if not (contains_text (text "secondary") lower || contains_text (text "abuse") lower)
    then false
    else is_limit_status status lower

-- the ASCII white space of `trim`
abbrev is_space : ℕ → Bool
is_space c = c == 32 || (leb 9 c && leb c 13)

unfoldable pub trim_left : Text → Text
trim_left [] = []
trim_left (c ∷ s) = let rest = trim_left s in if is_space c then rest else c ∷ s

unfoldable pub trim_right : Text → Text
trim_right [] = []
trim_right (c ∷ s) =
    let rest = trim_right s in if is_space c && text_eq rest [] then [] else c ∷ rest

unfoldable pub is_transient_json_parse_response : Text → Text → Bool
is_transient_json_parse_response stdout stderr =
    let trimmed = trim_right (trim_left stdout) in
    contains_text (text "unexpected end of json input") (to_lowercase stderr)
    && (text_eq trimmed [] || text_eq trimmed (text "[]"))

abbrev contains_one : List Text → Text → Bool
contains_one [] lower = false
contains_one (p ∷ ps) lower = contains_text p lower || contains_one ps lower

unfoldable pub is_transient_network_response : Text → Text → Bool
is_transient_network_response stdout stderr =
    contains_one
      (text "i/o timeout"
        ∷ text "tls handshake timeout"
        ∷ text "connection reset by peer"
        ∷ text "connection refused"
        ∷ text "network is unreachable"
        ∷ text "context deadline exceeded"
        ∷ text "client.timeout exceeded"
        ∷ text "unexpected eof"
        ∷ text "broken pipe"
        ∷ text "http 500"
        ∷ text "http 502"
        ∷ text "http 503"
        ∷ text "http 504"
        ∷ [])
      (lowered stdout stderr)

unfoldable pub classify_retry_delay : Output → Option ℕ
classify_retry_delay out =
    let retry_after =
      map_option from_secs (extract_retry_after_secs (joined out.stderr out.stdout)) in
    if is_secondary_rate_limit_response out.stdout out.stderr out.code
    then some (unwrap_or retry_after gh_secondary_min_delay)
    else if is_primary_rate_limit_response out.stdout out.stderr out.code
    then some
        (max (min (unwrap_or retry_after gh_retry_base_delay) gh_retry_max_delay) (from_secs 1))
    else if is_transient_json_parse_response out.stdout out.stderr
    then some gh_retry_base_delay
    else if is_transient_network_response out.stdout out.stderr
    then some gh_retry_base_delay
    else none
