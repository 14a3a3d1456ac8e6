-- ===== src/Schema/Read/RoundTrip.antt =====
-- `write_json_string` against the reader.
use mathlib.Core.List.{append_assoc, append-nil}
use native.Mathlib.Decide.{dec_lt}
use rayo.Base.{ℕ, zero, suc, ◌≤◌, ◌<◌, ◌≡◌, refl, sym, ap, ◌∙◌, some, [], ◌∷◌, ◌++◌, length, arith}
use rayo.Base.Text.{Text, Bytes, IsScalar}
use rayo.Schema.Escape.{escape_char, escape_chars, write_json_string}
use rayo.Schema.Read.{char, next_char, prepend, read_chars, read_string}

-- The escapes of the control characters and of the two special ones.
next_char-escape_low :
    (c : ℕ) (rest : Bytes) → c < 0x20 → next_char (escape_char c ++ rest) ≡ char c rest
unfolding next_char escape_char
next_char-escape_low c rest h = ground arith

next_char-escape_ascii :
    (c : ℕ) (rest : Bytes) → 0x20 ≤ c → c < 0x80 → next_char (escape_char c ++ rest) ≡ char c rest
unfolding next_char escape_char
next_char-escape_ascii c rest l h = ground arith

next_char-escape_two :
    (c : ℕ) (rest : Bytes) → 0x80 ≤ c → c < 0x800 → next_char (escape_char c ++ rest) ≡ char c rest
unfolding next_char escape_char
next_char-escape_two c rest l h = ground arith

next_char-escape_three :
    (c : ℕ) (rest : Bytes)
    → 0x800 ≤ c
    → c < 0x10000
    → next_char (escape_char c ++ rest) ≡ char c rest
unfolding next_char escape_char
next_char-escape_three c rest l h = ground arith

next_char-escape_four :
    (c : ℕ) (rest : Bytes)
    → 0x10000 ≤ c
    → c < 0x110000
    → next_char (escape_char c ++ rest) ≡ char c rest
unfolding next_char escape_char
next_char-escape_four c rest l h = ground arith

-- Every character that a `char` can be is read back from its escape.
next_char-escape_char :
    (c : ℕ) (rest : Bytes) → c < 0x110000 → next_char (escape_char c ++ rest) ≡ char c rest
next_char-escape_char c rest h = elim (dec_lt c 0x20) [
  | yes low ↦ next_char-escape_low c rest low
  | no above ↦ elim (dec_lt c 0x80) [
    | yes ascii ↦ next_char-escape_ascii c rest (omega arith) ascii
    | no above ↦ elim (dec_lt c 0x800) [
      | yes two ↦ next_char-escape_two c rest (omega arith) two
      | no above ↦ elim (dec_lt c 0x10000) [
        | yes three ↦ next_char-escape_three c rest (omega arith) three
        | no above ↦ next_char-escape_four c rest (omega arith) h
      ]
    ]
  ]
]

-- What the loop appends, without the buffer.
unfoldable pub escaped : Text → Bytes
escaped [] = []
escaped (c ∷ text) = escape_char c ++ escaped text

escape_chars-escaped : (text : Text) (out : Bytes) → escape_chars text out ≡ out ++ escaped text
unfolding escape_chars escaped
escape_chars-escaped [] out = sym (append-nil out)
escape_chars-escaped (c ∷ text) out =
    escape_chars-escaped text (out ++ escape_char c)
    ∙ append_assoc out (escape_char c) (escaped text)

pub write_json_string-escaped :
    (text : Text) (out : Bytes)
    → write_json_string text out ≡ out ++ (b'"' ∷ (escaped text ++ b'"' ∷ []))
unfolding write_json_string
write_json_string-escaped text out =
    rw (escape_chars-escaped text (out ++ b'"' ∷ [])) (simp append_assoc)

abbrev pub AllScalar : Text → Type 0
AllScalar [] = Unit {0}
AllScalar (c ∷ text) = IsScalar c × AllScalar text

scalar-lt : (c : ℕ) → IsScalar c → c < 0x110000
scalar-lt c h = omega arith

read_chars-step :
    (f c : ℕ) (s rest : Bytes)
    → next_char s ≡ char c rest
    → read_chars (suc f) s ≡ prepend c (read_chars f rest)
unfolding read_chars
read_chars-step f c s rest e = rw (e, read_chars)

read_chars-end : (f : ℕ) (rest : Bytes) → read_chars (suc f) (b'"' ∷ rest) ≡ some ([], rest)
unfolding read_chars next_char
read_chars-end f rest = refl

pub read_chars-escaped :
    (text : Text) (f : ℕ) (rest : Bytes)
    → AllScalar text
    → length text < f
    → read_chars f (escaped text ++ b'"' ∷ rest) ≡ some (text, rest)
unfolding escaped
read_chars-escaped text zero rest valid h = elim h [ ]
read_chars-escaped [] (suc f) rest valid h = read_chars-end f rest
read_chars-escaped (c ∷ text) (suc f) rest valid h =
    rw (append_assoc (escape_char c) (escaped text) (b'"' ∷ rest)) (
      read_chars-step f c (escape_char c ++ (escaped text ++ b'"' ∷ rest))
        (escaped text ++ b'"' ∷ rest)
        (next_char-escape_char c (escaped text ++ b'"' ∷ rest) (scalar-lt c valid.0))
      ∙ ap (prepend c) (read_chars-escaped text f rest valid.1 (omega arith)))

-- Any text, written as a JSON string and followed by anything, is read back exactly, and the reader
-- stops right behind it.
pub read_string-write_json_string :
    (text : Text) (fuel : ℕ) (rest : Bytes)
    → AllScalar text
    → length text < fuel
    → read_string fuel (write_json_string text [] ++ rest) ≡ some (text, rest)
unfolding read_string
read_string-write_json_string text fuel rest valid h =
    rw (write_json_string-escaped text []) (
      rw (append_assoc (escaped text) (b'"' ∷ []) rest) (read_chars-escaped text fuel rest valid h))
