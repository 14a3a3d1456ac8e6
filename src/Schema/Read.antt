-- ===== src/Schema/Read.antt =====
-- A reader of JSON strings, from the grammar of RFC 8259: what the serializer's output is read back
-- by. It refuses raw control characters, unknown escapes and a text with no closing quote.
pub mod RoundTrip
use rayo.Base.{
  ℕ, zero, suc, ◌+◌, ◌-◌, ◌*◌, Bool, true, false, ◌&&◌, Option, none, some, List, [], ◌∷◌, ltb, leb,
  ◌==◌, if◌then◌else◌,
}
use rayo.Base.Text.{Text, Bytes}

pub data Token : Type 0 where
  quote : Bytes → Token
  char : ℕ → Bytes → Token
  invalid : Token

-- The value of a hexadecimal digit.
abbrev hex_value : ℕ → ℕ
hex_value d = if ltb d b'a' then d - b'0' else d - b'a' + 10

read_hex : Bytes → Token
read_hex (a ∷ b ∷ c ∷ d ∷ s) =
    char (hex_value a * 4096 + hex_value b * 256 + hex_value c * 16 + hex_value d) s
read_hex _ = invalid

-- What follows a backslash.
read_escape : Bytes → Token
unfolding read_hex
read_escape [] = invalid
read_escape (e ∷ s) =
    if e == b'"'
    then char b'"' s
    else if e == b'\\'
    then char b'\\' s
    else if e == b'n'
    then char b'\n' s
    else if e == b'r'
    then char b'\r' s
    else if e == b't'
    then char b'\t' s
    else if e == b'u'
    then read_hex s
    else invalid

unfoldable pub read_two : ℕ → Bytes → Token
read_two a (b ∷ s) = char ((a - 0xc0) * 64 + (b - 0x80)) s
read_two a [] = invalid

unfoldable pub read_three : ℕ → Bytes → Token
read_three a (b ∷ c ∷ s) = char ((a - 0xe0) * 4096 + (b - 0x80) * 64 + (c - 0x80)) s
read_three a _ = invalid

unfoldable pub read_four : ℕ → Bytes → Token
read_four a (b ∷ c ∷ d ∷ s) =
    char ((a - 0xf0) * 262144 + (b - 0x80) * 4096 + (c - 0x80) * 64 + (d - 0x80)) s
read_four a _ = invalid

-- The next character, by its first byte.
next_char : Bytes → Token
unfolding read_escape read_two read_three read_four
next_char [] = invalid
next_char (a ∷ s) =
    if a == b'"'
    then quote s
    else if a == b'\\'
    then read_escape s
    else if ltb a 0x20
    then invalid
    else if ltb a 0x80
    then char a s
    else if ltb a 0xe0
    then read_two a s
    else if ltb a 0xf0
    then read_three a s
    else read_four a s

abbrev pub prepend : ℕ → Option (Text × Bytes) → Option (Text × Bytes)
prepend c none = none
prepend c (some (text, rest)) = some (c ∷ text, rest)

-- The characters up to the closing quote, with what follows it; the fuel bounds their number.
pub read_chars : ℕ → Bytes → Option (Text × Bytes)
unfolding next_char
read_chars zero s = none
read_chars (suc fuel) s = elim (next_char s) [
  | quote rest ↦ some ([], rest)
  | char c rest ↦ prepend c (read_chars fuel rest)
  | invalid ↦ none
]

pub read_string : ℕ → Bytes → Option (Text × Bytes)
unfolding read_chars
read_string fuel [] = none
read_string fuel (a ∷ s) = if a == b'"' then read_chars fuel s else none
