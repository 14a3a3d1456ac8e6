-- ===== src/Schema/Json/Printed.antt =====
-- `write_json` without its buffer: what it appends for a JSON-shaped value.
use mathlib.Core.List.{append_assoc, append-nil}
use rayo.Base.{
  ℕ, ◌≡◌, refl, sym, ap, ◌∙◌, Bool, true, false, ◌&&◌, none, some, [], ◌∷◌, ◌++◌, arith,
  if◌then◌else◌, codes,
}
use rayo.Base.Text.{Text, Bytes, to_string}
use rayo.Schema.Value.{
  Value, Values, Entries, null, boolean, integer, float, string, dict, list, tuple, other, nil,
  cons, end, entry,
}
use rayo.Schema.Write.{
  wrote, write_key, comma_unless, write_json, write_json_sequence, write_json_entries,
}
use rayo.Schema.Read.RoundTrip.{escaped, write_json_string-escaped}
use rayo.Schema.Accepts.{is_key, is_json, all_json, all_entries_json}

abbrev pub quoted : Text → Bytes
quoted text = b'"' ∷ (escaped text ++ b'"' ∷ [])

abbrev pub key_text : Value → Text
key_text (string (some text)) = text
key_text _ = []

abbrev pub comma : Bool → Bytes
comma first = if first then [] else b',' ∷ []

module _ (float_to_string : ℕ → Bytes) where
  unfoldable mutual
    unfolding to_string escaped

    pub printed : Value → Bytes
    printed null = codes "null"
    printed (boolean b) = if b then codes "true" else codes "false"
    printed (integer n) = to_string n
    printed (float bits) = float_to_string bits
    printed (string none) = []
    printed (string (some text)) = quoted text
    printed (dict entries) = b'{' ∷ (printed_entries entries true ++ b'}' ∷ [])
    printed (list items) = b'[' ∷ (printed_items items true ++ b']' ∷ [])
    printed (tuple items) = b'[' ∷ (printed_items items true ++ b']' ∷ [])
    printed other = []

    pub printed_items : Values → Bool → Bytes
    printed_items nil first = []
    printed_items (cons item items) first =
        comma first ++ (printed item ++ printed_items items false)

    pub printed_entries : Entries → Bool → Bytes
    printed_entries end first = []
    printed_entries (entry key value entries) first =
        comma first
        ++ (quoted (key_text key) ++ b':' ∷ (printed value ++ printed_entries entries false))

pub and_left : (a b : Bool) → (a && b) ≡ true → a ≡ true
and_left a b h = ground arith

pub and_right : (a b : Bool) → (a && b) ≡ true → b ≡ true
and_right a b h = ground arith

comma_unless-comma : (first : Bool) (out : Bytes) → comma_unless first out ≡ out ++ comma first
comma_unless-comma true out = sym (append-nil out)
comma_unless-comma false out = refl

write_key-quoted :
    (key : Value) (out : Bytes)
    → is_key key ≡ true
    → write_key key out ≡ wrote (out ++ quoted (key_text key))
unfolding write_key
write_key-quoted (string (some text)) out h = ap wrote (write_json_string-escaped text out)
write_key-quoted (string none) out h = cc
write_key-quoted null out h = cc
write_key-quoted (boolean b) out h = cc
write_key-quoted (integer n) out h = cc
write_key-quoted (float bits) out h = cc
write_key-quoted (dict entries) out h = cc
write_key-quoted (list items) out h = cc
write_key-quoted (tuple items) out h = cc
write_key-quoted other out h = cc

module _ (float_to_string : ℕ → Bytes) where
  mutual
    unfolding write_json is_json printed

    value_printed :
        (v : Value) (out : Bytes)
        → is_json v ≡ true
        → write_json float_to_string v out ≡ wrote (out ++ printed float_to_string v)
    value_printed null out h = refl
    value_printed (boolean b) out h = refl
    value_printed (integer n) out h = ground arith
    value_printed (float bits) out h = ground arith
    value_printed (string none) out h = cc
    value_printed (string (some text)) out h = ap wrote (write_json_string-escaped text out)
    value_printed (dict entries) out h =
        rw (entries_printed entries true (out ++ b'{' ∷ []) h) (ap wrote (simp append_assoc))
    value_printed (list items) out h =
        rw (items_printed items true (out ++ b'[' ∷ []) h) (ap wrote (simp append_assoc))
    value_printed (tuple items) out h =
        rw (items_printed items true (out ++ b'[' ∷ []) h) (ap wrote (simp append_assoc))
    value_printed other out h = cc

    items_printed :
        (items : Values) (first : Bool) (out : Bytes)
        → all_json items ≡ true
        → write_json_sequence float_to_string items first out
          ≡ wrote (out ++ printed_items float_to_string items first)
    items_printed nil first out h = ap wrote (sym (append-nil out))
    items_printed (cons item items) first out h = rw (comma_unless-comma first out) (
        rw (value_printed item (out ++ comma first) (and_left (is_json item) (all_json items) h)) (
          items_printed items false ((out ++ comma first) ++ printed float_to_string item)
            (and_right (is_json item) (all_json items) h)
          ∙ ap wrote (simp append_assoc)))

    entries_printed :
        (entries : Entries) (first : Bool) (out : Bytes)
        → all_entries_json entries ≡ true
        → write_json_entries float_to_string entries first out
          ≡ wrote (out ++ printed_entries float_to_string entries first)
    entries_printed end first out h = ap wrote (sym (append-nil out))
    entries_printed (entry key value entries) first out h =
        let k = and_left (is_key key) (is_json value && all_entries_json entries) h in
        let r = and_right (is_key key) (is_json value && all_entries_json entries) h in
        let keyed = (out ++ comma first) ++ quoted (key_text key) in
        rw (comma_unless-comma first out) (
          rw (write_key-quoted key (out ++ comma first) k) (
            rw
              (value_printed value (keyed ++ b':' ∷ [])
                (and_left (is_json value) (all_entries_json entries) r))
              (entries_printed entries false ((keyed ++ b':' ∷ []) ++ printed float_to_string value)
                  (and_right (is_json value) (all_entries_json entries) r)
                ∙ ap wrote (simp append_assoc))))

  -- A JSON-shaped value is written behind what the buffer holds already, and what is written does
  -- not depend on it.
  pub write_json-printed :
      (v : Value) (out : Bytes)
      → is_json v ≡ true
      → write_json float_to_string v out ≡ wrote (out ++ printed float_to_string v)
  write_json-printed v out h = value_printed v out h
