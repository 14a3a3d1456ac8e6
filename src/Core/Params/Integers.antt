-- ===== src/Core/Params/Integers.antt =====
-- `parse::<i64>` against the decimal print.
use mathlib.Core.WellFounded
use rayo.Base.{
  ℕ, zero, suc, ◌+◌, ◌-◌, ◌*◌, ◌/◌, ◌%◌, ◌^◌, ◌≤◌, ◌≡◌, ◌≢◌, refl, ◌∙◌, Bool, true, not, ◌&&◌, ◌||◌,
  ltb, leb, ◌==◌, if◌then◌else◌, Option, none, some, [], ◌∷◌, ltb→lt, arith,
}
use rayo.Base.Order.{lt_wf}
use rayo.Base.Text.{Text, ℤ, pos, negsuc, digits, decimal, to_string, fits_i64}
use rayo.Base.Text.Decimal.{digits_round, decimal-ne-nil}
use rayo.Core.Params.{parse_digits, parse_magnitude, positive, negative, parse_i64}

-- Reading the last digit of `n` behind the others gives `n`.
parse_digits-last :
    (limit n : ℕ) (behind : Text)
    → n ≤ limit
    → parse_digits limit ((b'0' + n % 10) ∷ behind) (n / 10) ≡ parse_digits limit behind n
unfolding parse_digits
parse_digits-last limit n behind h = ground arith

parse_digits-digits :
    (limit n : ℕ) (behind : Text)
    → n ≤ limit
    → parse_digits limit (digits n behind) 0 ≡ parse_digits limit behind n
parse_digits-digits limit n =
    WellFounded.induction lt_wf
      {C = λ m.
        (behind : Text)
        → m ≤ limit
        → parse_digits limit (digits m behind) 0 ≡ parse_digits limit behind m}
      n
      λ m ih behind fits.
        grind (arith, digits_round m behind, parse_digits-last limit m behind, ih (m / 10))

parse_digits-decimal : (limit n : ℕ) → n ≤ limit → parse_digits limit (decimal n) 0 ≡ some n
unfolding decimal parse_digits
parse_digits-decimal limit n h = ground (arith, parse_digits-digits limit n [] h)

parse_magnitude-ne_nil :
    (limit : ℕ) (s : Text) → s ≢ [] → parse_magnitude limit s ≡ parse_digits limit s 0
unfolding parse_magnitude
parse_magnitude-ne_nil limit [] h = absurd (h refl)
parse_magnitude-ne_nil limit (c ∷ s) h = refl

parse_magnitude-decimal : (limit n : ℕ) → n ≤ limit → parse_magnitude limit (decimal n) ≡ some n
parse_magnitude-decimal limit n h =
    parse_magnitude-ne_nil limit (decimal n) (decimal-ne-nil n) ∙ parse_digits-decimal limit n h

-- A text that is read as digits has no sign.
parse_i64-unsigned :
    (s : Text) (n : ℕ) → parse_magnitude (2 ^ 63 - 1) s ≡ some n → parse_i64 s ≡ some (pos n)
unfolding parse_i64 parse_magnitude parse_digits
parse_i64-unsigned [] n h = cc
parse_i64-unsigned (c ∷ s) n h = ground arith

parse_i64-signed :
    (s : Text) (n : ℕ)
    → parse_magnitude (2 ^ 63) s ≡ some (suc n)
    → parse_i64 (b'-' ∷ s) ≡ some (negsuc n)
unfolding parse_i64
parse_i64-signed s n h = rw (h, negative)

-- Every `i64` that the serializer prints is read back as a path parameter.
pub parse_i64-to_string : (z : ℤ) → fits_i64 z ≡ true → parse_i64 (to_string z) ≡ some z
unfolding to_string fits_i64
parse_i64-to_string (pos n) h =
    parse_i64-unsigned (decimal n) n
      (parse_magnitude-decimal (2 ^ 63 - 1) n (omega (arith, ltb→lt n (2 ^ 63) h)))
parse_i64-to_string (negsuc n) h =
    parse_i64-signed (decimal (suc n)) n
      (parse_magnitude-decimal (2 ^ 63) (suc n) (omega (arith, ltb→lt n (2 ^ 63) h)))

-- The integer that a text denotes, however great it is: an optional sign and digits.
abbrev pub is_digit : ℕ → Bool
is_digit c = not (ltb c b'0' || ltb b'9' c)

abbrev pub all_digits : Text → Bool
all_digits [] = true
all_digits (c ∷ s) = is_digit c && all_digits s

abbrev pub value_from : ℕ → Text → ℕ
value_from n [] = n
value_from n (c ∷ s) = value_from (n * 10 + (c - b'0')) s

abbrev pub natural_of : Text → Option ℕ
natural_of [] = none
natural_of (c ∷ s) = if all_digits (c ∷ s) then some (value_from 0 (c ∷ s)) else none

abbrev pub integer_of : Text → Option ℤ
integer_of [] = none
integer_of (c ∷ s) =
    if c == b'-'
    then negative (natural_of s)
    else if c == b'+'
    then positive (natural_of s)
    else positive (natural_of (c ∷ s))

-- An integer that an `i64` holds.
abbrev pub within_i64 : Option ℤ → Option ℤ
within_i64 none = none
within_i64 (some z) = if fits_i64 z then some z else none

value_from-le : (s : Text) (n : ℕ) → n ≤ value_from n s
value_from-le [] n = omega arith
value_from-le (c ∷ s) n = omega (arith, value_from-le s (n * 10 + (c - b'0')))

abbrev limited : ℕ → Option ℕ → Option ℕ
limited limit none = none
limited limit (some n) = if leb n limit then some n else none

parse_digits-exact :
    (limit : ℕ) (s : Text) (n : ℕ)
    → n ≤ limit
    → parse_digits limit s n
      ≡ (if all_digits s then limited limit (some (value_from n s)) else none)
unfolding parse_digits
parse_digits-exact limit [] n h = ground arith
parse_digits-exact limit (c ∷ s) n h =
    ground (
      arith,
      parse_digits-exact limit s (n * 10 + (c - b'0')),
      value_from-le s (n * 10 + (c - b'0')),
    )

parse_magnitude-exact :
    (limit : ℕ) (s : Text) → parse_magnitude limit s ≡ limited limit (natural_of s)
unfolding parse_magnitude
parse_magnitude-exact limit [] = refl
parse_magnitude-exact limit (c ∷ s) =
    parse_digits-exact limit (c ∷ s) 0 (omega arith) ∙ ground arith

positive-within : (o : Option ℕ) → positive (limited (2 ^ 63 - 1) o) ≡ within_i64 (positive o)
unfolding fits_i64
positive-within none = refl
positive-within (some n) = ground arith

negative-within : (o : Option ℕ) → negative (limited (2 ^ 63) o) ≡ within_i64 (negative o)
unfolding fits_i64
negative-within none = refl
negative-within (some zero) = refl
negative-within (some (suc n)) = ground arith

-- `parse::<i64>` accepts the texts of the integers that fit, with their values.
pub parse_i64-exact : (s : Text) → parse_i64 s ≡ within_i64 (integer_of s)
unfolding parse_i64
parse_i64-exact [] = refl
parse_i64-exact (c ∷ s) = ground (
  arith,
  parse_magnitude-exact (2 ^ 63) s,
  parse_magnitude-exact (2 ^ 63 - 1) s,
  parse_magnitude-exact (2 ^ 63 - 1) (c ∷ s),
  negative-within (natural_of s),
  positive-within (natural_of s),
  positive-within (natural_of (c ∷ s)),
)
