-- ===== src/Schema/Json/Numbers.antt =====
-- Numbers: the digits that the serializer prints, and the reader.
use mathlib.Core.WellFounded
use rayo.Base.{
  ℕ, suc, ◌/◌, ◌≡◌, ◌≢◌, refl, ap, ◌∙◌, Bool, true, false, not, ◌&&◌, ◌||◌, some, [], ◌∷◌, ◌++◌,
  ◌==◌, arith,
}
use rayo.Base.Order.{lt_wf}
use rayo.Base.Text.{Bytes, ℤ, pos, negsuc, digits, decimal, to_string}
use rayo.Base.Text.Decimal.{digits_round, decimal-ne-nil}
use rayo.Schema.Json.{
  number, numeral, is_digit, is_number_char, span_number, lead, starts, read_json,
}

unfoldable pub all_number : Bytes → Bool
all_number [] = true
all_number (a ∷ s) = is_number_char a && all_number s

-- A number's digits: its first is a digit or a minus.
unfoldable pub is_numeral : Bytes → Bool
unfolding all_number
is_numeral [] = false
is_numeral (a ∷ s) = (is_digit a || a == b'-') && all_number s

-- No number goes on here.
abbrev pub stops : Bytes → Bool
stops [] = true
stops (a ∷ s) = not (is_number_char a)

span_number-stops : (s : Bytes) → stops s ≡ true → span_number s ≡ ([], s)
unfolding span_number
span_number-stops [] h = refl
span_number-stops (a ∷ s) h = ground arith

span_number-all :
    (digits rest : Bytes)
    → all_number digits ≡ true
    → stops rest ≡ true
    → span_number (digits ++ rest) ≡ (digits, rest)
unfolding span_number all_number
span_number-all [] rest h k = span_number-stops rest k
span_number-all (a ∷ digits) rest h k = ground (arith, span_number-all digits rest)

numeral-number : (a : ℕ) (s : Bytes) → is_numeral (a ∷ s) ≡ true → all_number (a ∷ s) ≡ true
unfolding is_numeral all_number
numeral-number a s h = ground arith

lead-numeral : (a : ℕ) (s : Bytes) → is_numeral (a ∷ s) ≡ true → lead a ≡ numeral
unfolding is_numeral
lead-numeral a s h = ground arith

read_json-lead :
    (f a : ℕ) (s : Bytes)
    → lead a ≡ numeral
    → read_json (suc f) (a ∷ s) ≡ some (number (span_number (a ∷ s)).0, (span_number (a ∷ s)).1)
unfolding read_json
read_json-lead f a s h = rw (h, read_json) refl

pub read_json-number :
    (f : ℕ) (s rest : Bytes)
    → is_numeral s ≡ true
    → stops rest ≡ true
    → read_json (suc f) (s ++ rest) ≡ some (number s, rest)
unfolding is_numeral
read_json-number f [] rest h k = cc
read_json-number f (a ∷ s) rest h k =
    read_json-lead f a (s ++ rest) (lead-numeral a s h)
    ∙ ap (λ (p : Bytes × Bytes). some (number p.0, p.1))
        (span_number-all (a ∷ s) rest (numeral-number a s h) k)

pub starts-numeral :
    (digits rest : Bytes) → is_numeral digits ≡ true → starts b']' (digits ++ rest) ≡ false
unfolding is_numeral starts
starts-numeral [] rest h = cc
starts-numeral (a ∷ digits) rest h = ground arith

unfoldable all_digit : Bytes → Bool
all_digit [] = true
all_digit (a ∷ s) = is_digit a && all_digit s

all_digit-digits :
    (n : ℕ) (behind : Bytes) → all_digit behind ≡ true → all_digit (digits n behind) ≡ true
unfolding all_digit
all_digit-digits n =
    WellFounded.induction lt_wf
      {C = λ m. (behind : Bytes) → all_digit behind ≡ true → all_digit (digits m behind) ≡ true} n
      λ m ih behind h. grind (arith, digits_round m behind, ih (m / 10))

all_digit-decimal : (n : ℕ) → all_digit (decimal n) ≡ true
unfolding decimal all_digit
all_digit-decimal n = ground (arith, all_digit-digits n [])

all_digit-all_number : (s : Bytes) → all_digit s ≡ true → all_number s ≡ true
unfolding all_digit all_number
all_digit-all_number [] h = refl
all_digit-all_number (a ∷ s) h = ground (arith, all_digit-all_number s)

all_digit-is_numeral : (s : Bytes) → s ≢ [] → all_digit s ≡ true → is_numeral s ≡ true
unfolding all_digit is_numeral
all_digit-is_numeral [] ne h = absurd (ne refl)
all_digit-is_numeral (a ∷ s) ne h = ground (arith, all_digit-all_number s)

-- Every integer is printed as a number.
pub to_string-is_numeral : (z : ℤ) → is_numeral (to_string z) ≡ true
unfolding to_string is_numeral
to_string-is_numeral (pos n) =
    all_digit-is_numeral (decimal n) (decimal-ne-nil n) (all_digit-decimal n)
to_string-is_numeral (negsuc n) = all_digit-all_number (decimal (suc n)) (all_digit-decimal (suc n))
