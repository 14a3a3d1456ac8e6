-- ===== src/Schema/Escape.antt =====
-- `write_json_string`: JSON string escaping.
use rayo.Base.{ℕ, ◌≡◌, refl, [], ◌∷◌, ◌++◌, ltb, ◌==◌, if◌then◌else◌, codes}
use rayo.Base.Text.{Text, Bytes, encode_utf8, hex4}

-- What one round of the loop appends.
unfoldable pub escape_char : ℕ → Bytes
unfolding encode_utf8 hex4
escape_char character =
    if character == b'"'
    then b'\\' ∷ b'"' ∷ []
    else if character == b'\\'
    then b'\\' ∷ b'\\' ∷ []
    else if character == b'\n'
    then b'\\' ∷ b'n' ∷ []
    else if character == b'\r'
    then b'\\' ∷ b'r' ∷ []
    else if character == b'\t'
    then b'\\' ∷ b't' ∷ []
    else if ltb character 0x20
    then b'\\' ∷ b'u' ∷ hex4 character
    else encode_utf8 character

-- The loop over `text.chars()`; `out` is the buffer so far.
unfoldable pub escape_chars : Text → Bytes → Bytes
unfolding escape_char
escape_chars [] out = out
escape_chars (character ∷ text) out = escape_chars text (out ++ escape_char character)

unfoldable pub write_json_string : Text → Bytes → Bytes
unfolding escape_chars
write_json_string text out = escape_chars text (out ++ b'"' ∷ []) ++ b'"' ∷ []

escapes_controls :
    write_json_string (codes "line\nbreak\t" ++ 1 ∷ []) [] ≡ codes "\"line\\nbreak\\t\\u0001\""
unfolding write_json_string
escapes_controls = refl
