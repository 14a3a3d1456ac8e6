-- ===== src/Base/Text.antt =====
-- What the source takes of Rust's texts and integers: UTF-8, decimal and hexadecimal print, signed
-- integers. A text is the list of its code points, a string of bytes the list of the bytes.
pub mod Decimal
use mathlib.Core.WellFounded.{Acc}
use native.Mathlib.Decide.{dec_lt}
use Prim.Native.Nat.{ℕ, suc, ◌+◌, ◌-◌, ◌/◌, ◌%◌, ◌<◌, ◌≤◌}
use mathlib.Core.Path.{◌≡◌, refl}
use mathlib.Core.Logic.{◌⊎◌, dite}
use mathlib.Core.Bool.{Bool}
use mathlib.Core.List.{List, [], ◌∷◌, ◌++◌}
use native.Mathlib.Omega.{arith}
use rayo.Base.Tests.{ltb, ◌==◌, if◌then◌else◌, codes}
use rayo.Base.Order.{lt_wf}

abbrev pub Text : Type 0
Text = List ℕ

abbrev pub Bytes : Type 0
Bytes = List ℕ

-- A Unicode scalar value: what a Rust `char` can be.
abbrev pub IsScalar : ℕ → Type 0
IsScalar c = (c < 0xd800) ⊎ ((0xe000 ≤ c) × (c < 0x110000))

-- `char::encode_utf8`.
unfoldable pub encode_utf8 : ℕ → Bytes
encode_utf8 c =
    if ltb c 0x80
    then c ∷ []
    else if ltb c 0x800
    then (0xc0 + c / 64) ∷ (0x80 + c % 64) ∷ []
    else if ltb c 0x10000
    then (0xe0 + c / 4096) ∷ (0x80 + c / 64 % 64) ∷ (0x80 + c % 64) ∷ []
    else (0xf0 + c / 262144) ∷ (0x80 + c / 4096 % 64) ∷ (0x80 + c / 64 % 64) ∷ (0x80 + c % 64) ∷ []

-- `str::as_bytes`.
unfoldable pub utf8 : Text → Bytes
unfolding encode_utf8
utf8 [] = []
utf8 (c ∷ s) = encode_utf8 c ++ utf8 s

-- A digit of `{:x}`.
unfoldable pub hex_digit : ℕ → ℕ
hex_digit d = if ltb d 10 then b'0' + d else b'a' + (d - 10)

-- `{:04x}` of a number below 2 ^ 16.
unfoldable pub hex4 : ℕ → Bytes
unfolding hex_digit
hex4 n =
    hex_digit (n / 4096 % 16)
    ∷ hex_digit (n / 256 % 16)
    ∷ hex_digit (n / 16 % 16)
    ∷ hex_digit (n % 16)
    ∷ []

pub tenth_lt : {n : ℕ} → 0 < n → n / 10 < n
tenth_lt h = omega arith

digits_from : (n : ℕ) → Acc ◌<◌ n → Bytes → Bytes
digits_from n (Acc.intro _ smaller) behind =
    dite (dec_lt 0 n)
      (λ h. digits_from (n / 10) (smaller (n / 10) (tenth_lt h)) ((b'0' + n % 10) ∷ behind))
      (λ _. behind)

-- The decimal digits of a number, none for 0, in front of `behind`.
unfoldable pub digits : ℕ → Bytes → Bytes
unfolding digits_from lt_wf dec_lt
digits n = digits_from n (lt_wf.apply n)

-- `to_string` of an unsigned number.
unfoldable pub decimal : ℕ → Bytes
unfolding digits
decimal n = if n == 0 then b'0' ∷ [] else digits n []

-- A signed integer; `negsuc n` is -(n + 1).
pub data ℤ : Type 0 where
  pos : ℕ → ℤ
  negsuc : ℕ → ℤ

-- `to_string` of a signed number.
unfoldable pub to_string : ℤ → Bytes
unfolding decimal
to_string (pos n) = decimal n
to_string (negsuc n) = b'-' ∷ decimal (suc n)

-- Whether an integer is an `i64`.
unfoldable pub fits_i64 : ℤ → Bool
fits_i64 (pos n) = ltb n 0x8000_0000_0000_0000
fits_i64 (negsuc n) = ltb n 0x8000_0000_0000_0000

to_string_min : to_string (negsuc 127) ≡ codes "-128"
unfolding to_string
to_string_min = refl

utf8_two : utf8 (0xf1 ∷ b'a' ∷ []) ≡ 0xc3 ∷ 0xb1 ∷ b'a' ∷ []
unfolding utf8
utf8_two = refl
