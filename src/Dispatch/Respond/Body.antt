-- ===== src/Dispatch/Respond/Body.antt =====
-- A text that a handler returns, and the bytes of its response.
use native.Mathlib.Decide.{dec_lt}
use rayo.Base.{
  false, ℕ, zero, suc, ◌≤◌, ◌<◌, ◌≡◌, refl, ap, ◌∙◌, Option, none, some, [], ◌∷◌, ◌++◌, length, ltb,
  ◌==◌, if◌then◌else◌, arith,
}
use rayo.Base.Text.{Text, Bytes, IsScalar, encode_utf8, utf8}
use rayo.Schema.Value.{string}
use rayo.Schema.Read.{Token, quote, char, invalid, read_two, read_three, read_four}
use rayo.Schema.Read.RoundTrip.{AllScalar}
use rayo.Dispatch.Types.{Object, EventLoop}
use rayo.Dispatch.Python.{Python}
use rayo.Dispatch.Respond.{respond_with, response_from_return_value}

-- The first character of a UTF-8 text, by its first byte.
decode_char : Bytes → Token
decode_char [] = invalid
decode_char (a ∷ s) =
    if ltb a 0x80
    then char a s
    else if ltb a 0xe0
    then read_two a s
    else if ltb a 0xf0
    then read_three a s
    else read_four a s

abbrev before : ℕ → Option Text → Option Text
before c none = none
before c (some text) = some (c ∷ text)

-- The text that bytes stand for; the fuel bounds the number of its characters.
pub decode_utf8 : ℕ → Bytes → Option Text
unfolding decode_char
decode_utf8 fuel [] = some []
decode_utf8 zero (a ∷ s) = none
decode_utf8 (suc fuel) (a ∷ s) = elim (decode_char (a ∷ s)) [
  | char c rest ↦ before c (decode_utf8 fuel rest)
  | quote rest ↦ none
  | invalid ↦ none
]

decode_char-one :
    (c : ℕ) (rest : Bytes) → c < 0x80 → decode_char (encode_utf8 c ++ rest) ≡ char c rest
unfolding decode_char encode_utf8
decode_char-one c rest h = ground arith

decode_char-two :
    (c : ℕ) (rest : Bytes)
    → 0x80 ≤ c
    → c < 0x800
    → decode_char (encode_utf8 c ++ rest) ≡ char c rest
unfolding decode_char encode_utf8 read_two
decode_char-two c rest l h = ground arith

decode_char-three :
    (c : ℕ) (rest : Bytes)
    → 0x800 ≤ c
    → c < 0x10000
    → decode_char (encode_utf8 c ++ rest) ≡ char c rest
unfolding decode_char encode_utf8 read_three
decode_char-three c rest l h = ground arith

decode_char-four :
    (c : ℕ) (rest : Bytes)
    → 0x10000 ≤ c
    → c < 0x110000
    → decode_char (encode_utf8 c ++ rest) ≡ char c rest
unfolding decode_char encode_utf8 read_four
decode_char-four c rest l h = ground arith

decode_char-encode_utf8 :
    (c : ℕ) (rest : Bytes) → c < 0x110000 → decode_char (encode_utf8 c ++ rest) ≡ char c rest
decode_char-encode_utf8 c rest h = elim (dec_lt c 0x80) [
  | yes one ↦ decode_char-one c rest one
  | no above ↦ elim (dec_lt c 0x800) [
    | yes two ↦ decode_char-two c rest (omega arith) two
    | no above ↦ elim (dec_lt c 0x10000) [
      | yes three ↦ decode_char-three c rest (omega arith) three
      | no above ↦ decode_char-four c rest (omega arith) h
    ]
  ]
]

decode_utf8-step :
    (f c : ℕ) (s rest : Bytes)
    → decode_char s ≡ char c rest
    → decode_utf8 (suc f) s ≡ before c (decode_utf8 f rest)
unfolding decode_utf8
decode_utf8-step f c [] rest e = unfold decode_char in cc
decode_utf8-step f c (a ∷ s) rest e = rw (e, decode_utf8)

scalar-lt : (c : ℕ) → IsScalar c → c < 0x110000
scalar-lt c h = omega arith

decode_utf8-utf8 :
    (text : Text) (f : ℕ) → AllScalar text → length text ≤ f → decode_utf8 f (utf8 text) ≡ some text
unfolding utf8
decode_utf8-utf8 [] f valid h = decode_utf8-nil f
  where
    decode_utf8-nil : (f : ℕ) → decode_utf8 f [] ≡ some []
    decode_utf8-nil f = unfold decode_utf8 in refl
decode_utf8-utf8 (c ∷ text) zero valid h = absurd (omega arith)
decode_utf8-utf8 (c ∷ text) (suc f) valid h =
    decode_utf8-step f c (encode_utf8 c ++ utf8 text) (utf8 text)
      (decode_char-encode_utf8 c (utf8 text) (scalar-lt c valid.0))
    ∙ ap (before c) (decode_utf8-utf8 text f valid.1 (omega arith))

module _ {W : Type 0} (py : Python W) where
  respond_with-text :
      (text : Text) (s : EventLoop W) → (respond_with py (string (some text)) s).0.body ≡ utf8 text
  unfolding respond_with
  respond_with-text text s = refl

  -- A handler that returns a text, other than `None`, gets a response whose body is that text, in
  -- UTF-8: it is decoded to the very text, whatever characters it has.
  pub response_from_return_value-text :
      (value : Object) (text : Text) (s : EventLoop W)
      → (value == py.none_object) ≡ false
      → py.read_value s.world value ≡ string (some text)
      → AllScalar text
      → decode_utf8 (length text) (response_from_return_value py value s).0.body ≡ some text
  unfolding response_from_return_value
  response_from_return_value-text value text s some_value reads valid =
      rw (some_value, reads)
        (ap (decode_utf8 (length text)) (respond_with-text text s)
          ∙ decode_utf8-utf8 text (length text) valid (omega arith))
