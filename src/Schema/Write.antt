-- ===== src/Schema/Write.antt =====
-- `write_json` and `write_json_sequence`.
use rayo.Base.{
  ℕ, ◌≡◌, refl, Bool, true, false, not, some, none, [], ◌∷◌, ◌++◌, ◌/◌, ◌%◌, ◌^◌, ◌==◌,
  if◌then◌else◌, codes,
}
use rayo.Base.Text.{Bytes, pos, to_string, fits_i64}
use rayo.Schema.Value.{
  Value, Values, Entries, null, boolean, integer, float, string, dict, list, tuple, other, nil,
  cons, end, entry,
}
use rayo.Schema.Escape.{write_json_string}

-- The exceptions that serialization raises.
pub data JsonError : Type 0 where
  integer_range not_finite bad_text key_not_str unsupported : JsonError

-- `PyResult<()>` with the buffer; after an error the callers drop the buffer.
pub data Written : Type 0 where
  wrote : Bytes → Written
  failed : JsonError → Written

infixl 5 ◌>>=◌
abbrev pub ◌>>=◌ : Written → (Bytes → Written) → Written
wrote out >>= f = f out
failed e >>= f = failed e

-- `f64::is_finite`, on the bits: the exponent is not all ones.
unfoldable pub is_finite : ℕ → Bool
is_finite bits = not (bits / 2 ^ 52 % 2 ^ 11 == 2047)

-- A dict key: it must be a `str`, and one that encodes.
unfoldable pub write_key : Value → Bytes → Written
unfolding write_json_string
write_key (string (some text)) out = wrote (write_json_string text out)
write_key (string none) out = failed bad_text
write_key _ out = failed key_not_str

-- The comma in front of every item but the first.
abbrev pub comma_unless : Bool → Bytes → Bytes
comma_unless first out = if first then out else out ++ b',' ∷ []

-- `f64::to_string` is the standard library's shortest print.
module _ (float_to_string : ℕ → Bytes) where
  unfoldable mutual
    unfolding write_key write_json_string is_finite fits_i64 to_string

    pub write_json : Value → Bytes → Written
    write_json null out = wrote (out ++ codes "null")
    write_json (boolean b) out = wrote (out ++ (if b then codes "true" else codes "false"))
    write_json (integer n) out =
        if fits_i64 n then wrote (out ++ to_string n) else failed integer_range
    write_json (float bits) out =
        if is_finite bits then wrote (out ++ float_to_string bits) else failed not_finite
    write_json (string none) out = failed bad_text
    write_json (string (some text)) out = wrote (write_json_string text out)
    write_json (dict entries) out = do
      written ← write_json_entries entries true (out ++ b'{' ∷ [])
      wrote (written ++ b'}' ∷ [])
    write_json (list items) out = do
      written ← write_json_sequence items true (out ++ b'[' ∷ [])
      wrote (written ++ b']' ∷ [])
    write_json (tuple items) out = do
      written ← write_json_sequence items true (out ++ b'[' ∷ [])
      wrote (written ++ b']' ∷ [])
    write_json other out = failed unsupported

    -- The loop of `write_json_sequence`; the Boolean is `index == 0`.
    pub write_json_sequence : Values → Bool → Bytes → Written
    write_json_sequence nil first out = wrote out
    write_json_sequence (cons item items) first out = do
      written ← write_json item (comma_unless first out)
      write_json_sequence items false written

    -- The loop over a dict's items; the Boolean is `first_entry`.
    pub write_json_entries : Entries → Bool → Bytes → Written
    write_json_entries end first out = wrote out
    write_json_entries (entry key value entries) first out = do
      keyed ← write_key key (comma_unless first out)
      written ← write_json value (keyed ++ b':' ∷ [])
      write_json_entries entries false written

nested :
    write_json
      (λ _. [])
      (dict (
        entry
          (string (some (codes "a")))
          (list (cons null (cons (integer (pos 12)) nil)))
          (entry (string (some (codes "b"))) (boolean true) end)))
      []
    ≡ wrote (codes "{\"a\":[null,12],\"b\":true}")
unfolding write_json
nested = refl
