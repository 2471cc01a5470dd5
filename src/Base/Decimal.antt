-- ===== src/Base/Decimal.antt =====
-- Decimal text of the unsigned integers: `to_string`, and `str::parse` into `u32` or `u64`.
use ez_gh_actions.Base.Texts.{Text, text_eq, text_eq_iff}
use ez_gh_actions.Base.Tests.{leb, ltb, ◌==◌, ==_iff, if◌then◌else◌, Bool-cases, Option-cases}
use Prim.Native.Nat.{ℕ, zero, suc, ◌+◌, ◌-◌, ◌*◌, ◌/◌, ◌%◌, ◌≤◌, ◌<◌, max}
use mathlib.Core.Path.{◌≡◌, refl, ap, ◌∙◌}
use mathlib.Core.Logic.{inl, inr}
use mathlib.Core.Bool.{◌&&◌}
use mathlib.Core.Option.{Option, none, some}
use mathlib.Core.List.{[], ◌∷◌, ◌++◌}
use native.Mathlib.Omega.{arith}

digits_of : ℕ → ℕ → Text
digits_of zero n = []
digits_of (suc fuel) n =
    let init = digits_of fuel (n / 10) in
    if ltb n 10 then (48 + n) ∷ [] else init ++ (48 + n % 10) ∷ []

-- `n.to_string()`; a number has fewer digits than its successor is large
unfoldable pub to_string : ℕ → Text
unfolding digits_of
to_string n = digits_of (suc n) n

-- one digit more; none on another byte, and on overflow
push_digit : ℕ → ℕ → ℕ → Option ℕ
push_digit limit acc c =
    if leb 48 c && leb c 57
    then (let n = acc * 10 + (c - 48) in if leb n limit then some n else none)
    else none

parse_digits : ℕ → ℕ → Text → Option ℕ
parse_digits limit acc [] = some acc
parse_digits limit acc (c ∷ s) = elim (push_digit limit acc c) [
  | none ↦ none
  | some n ↦ parse_digits limit n s
]

-- `s.parse().ok()` for an unsigned type whose largest value is `limit`: one `+` may stand first
unfoldable pub parse_uint : ℕ → Text → Option ℕ
unfolding parse_digits push_digit
parse_uint limit [] = none
parse_uint limit (c ∷ []) = parse_digits limit 0 (c ∷ [])
parse_uint limit (c ∷ d ∷ s) = parse_digits limit 0 (if c == b'+' then d ∷ s else c ∷ d ∷ s)

parse_digits-append :
    (limit acc : ℕ) (s : Text) (c : ℕ) {n : ℕ}
    → parse_digits limit acc s ≡ some n
    → parse_digits limit acc (s ++ c ∷ []) ≡ push_digit limit n c
unfolding parse_digits
parse_digits-append limit acc [] c h = ground arith
parse_digits-append limit acc (b ∷ s) c {n} h = elim (Option-cases (push_digit limit acc b)) [
  | inl e ↦ ground arith
  | inr (m, e) ↦ ground (arith, parse_digits-append limit m s c {n = n})
]

push_digit_lem :
    (limit m d : ℕ) → d < 10 → m * 10 + d ≤ limit → push_digit limit m (48 + d) ≡ some (m * 10 + d)
unfolding push_digit
push_digit_lem limit m d h k = ground arith

parse_digits-digits_of :
    (limit fuel n : ℕ) → n < fuel → n ≤ limit → parse_digits limit 0 (digits_of fuel n) ≡ some n
unfolding digits_of
parse_digits-digits_of limit zero n h k = absurd (omega arith)
parse_digits-digits_of limit (suc fuel) n h k = elim (Bool-cases (ltb n 10)) [
  | inl small ↦ rw small (unfold parse_digits in ground (arith, push_digit_lem limit 0 n))
  | inr large ↦
      let ih : parse_digits limit 0 (digits_of fuel (n / 10)) ≡ some (n / 10) =
        parse_digits-digits_of limit fuel (n / 10) (ground arith) (omega arith) in
      rw large (
        parse_digits-append limit 0 (digits_of fuel (n / 10)) (48 + n % 10) ih
        ∙ push_digit_lem limit (n / 10) (n % 10) (omega arith) (omega arith)
        ∙ ap some (omega arith))
]

-- a decimal text starts with a digit
abbrev StartsWithDigit : Text → Type 0
StartsWithDigit [] = ⊥
StartsWithDigit (c ∷ s) = (48 ≤ c) × (c ≤ 57)

StartsWithDigit-append : (s t : Text) → StartsWithDigit s → StartsWithDigit (s ++ t)
StartsWithDigit-append [] t h = absurd h
StartsWithDigit-append (c ∷ s) t h = h

digits_of-StartsWithDigit : (fuel n : ℕ) → n < fuel → StartsWithDigit (digits_of fuel n)
unfolding digits_of
digits_of-StartsWithDigit zero n h = absurd (omega arith)
digits_of-StartsWithDigit (suc fuel) n h = elim (Bool-cases (ltb n 10)) [
  | inl small ↦ rw small (ground arith)
  | inr large ↦ rw large (
      StartsWithDigit-append (digits_of fuel (n / 10)) ((48 + n % 10) ∷ [])
        (digits_of-StartsWithDigit fuel (n / 10) (ground arith)))
]

parse_uint-digits :
    (limit : ℕ) (s : Text) → StartsWithDigit s → parse_uint limit s ≡ parse_digits limit 0 s
unfolding parse_uint
parse_uint-digits limit [] h = absurd h
parse_uint-digits limit (c ∷ []) h = refl
parse_uint-digits limit (c ∷ d ∷ s) h = ground arith

-- What `to_string` prints, `parse` reads back.
pub parse_uint-to_string : (limit n : ℕ) → n ≤ limit → parse_uint limit (to_string n) ≡ some n
unfolding to_string
parse_uint-to_string limit n h =
    parse_uint-digits limit (digits_of (suc n) n)
      (digits_of-StartsWithDigit (suc n) n (omega arith))
    ∙ parse_digits-digits_of limit (suc n) n (omega arith) h

pub to_string-injective : (a b : ℕ) → to_string a ≡ to_string b → a ≡ b
to_string-injective a b e = ground (
  arith,
  parse_uint-to_string (max a b) a (omega arith),
  parse_uint-to_string (max a b) b (omega arith),
)

pub text_eq-to_string : (a b : ℕ) → text_eq (to_string a) (to_string b) ≡ (a == b)
text_eq-to_string a b = elim (Bool-cases (a == b)) [
  | inl e ↦ rw e ((text_eq_iff (to_string a) (to_string b)).1 (ap to_string ((==_iff a b).0 e)))
  | inr e ↦ ground (arith, text_eq_iff (to_string a) (to_string b), to_string-injective a b)
]

parse_digits-le :
    (limit acc : ℕ) (s : Text) (n : ℕ) → acc ≤ limit → parse_digits limit acc s ≡ some n → n ≤ limit
unfolding parse_digits
parse_digits-le limit acc [] n le h = ground arith
parse_digits-le limit acc (c ∷ s) n le h = elim (Option-cases (push_digit limit acc c)) [
  | inl e ↦ absurd (ground (arith, e, h))
  | inr (m, e) ↦
      let fits : m ≤ limit = unfold push_digit in ground (arith, e) in
      parse_digits-le limit m s n fits (ground (arith, e, h))
]

-- What parses is within the type's range.
pub parse_uint-le : (limit : ℕ) (s : Text) (n : ℕ) → parse_uint limit s ≡ some n → n ≤ limit
unfolding parse_uint
parse_uint-le limit [] n h = absurd (cc h)
parse_uint-le limit (c ∷ []) n h = parse_digits-le limit 0 (c ∷ []) n (omega arith) h
parse_uint-le limit (c ∷ d ∷ s) n h =
    parse_digits-le limit 0 (if c == b'+' then d ∷ s else c ∷ d ∷ s) n (omega arith) h
