-- ===== src/Schema/Accepts.antt =====
-- The JSON-shaped values, and which values `write_json` serializes.
use rayo.Base.{ℕ, ◌≡◌, refl, ◌∙◌, Bool, true, false, ◌&&◌, none, some, [], ◌∷◌, ◌++◌, arith}
use rayo.Base.Text.{Bytes, fits_i64}
use rayo.Schema.Value.{
  Value, Values, Entries, null, boolean, integer, float, string, dict, list, tuple, other, nil,
  cons, end, entry,
}
use rayo.Schema.Write.{
  Written, wrote, failed, ◌>>=◌, is_finite, write_key, comma_unless, write_json,
  write_json_sequence, write_json_entries,
}

-- A key that JSON takes.
abbrev pub is_key : Value → Bool
is_key (string (some text)) = true
is_key _ = false

-- The JSON-shaped values: 64-bit integers, finite floats, texts that encode, and containers of such
-- with text keys.
unfoldable mutual
  unfolding is_finite fits_i64

  pub is_json : Value → Bool
  is_json null = true
  is_json (boolean b) = true
  is_json (integer n) = fits_i64 n
  is_json (float bits) = is_finite bits
  is_json (string none) = false
  is_json (string (some text)) = true
  is_json (dict entries) = all_entries_json entries
  is_json (list items) = all_json items
  is_json (tuple items) = all_json items
  is_json other = false

  pub all_json : Values → Bool
  all_json nil = true
  all_json (cons item items) = is_json item && all_json items

  pub all_entries_json : Entries → Bool
  all_entries_json end = true
  all_entries_json (entry key value entries) =
      is_key key && (is_json value && all_entries_json entries)

abbrev pub is_wrote : Written → Bool
is_wrote (wrote out) = true
is_wrote (failed e) = false

is_wrote-bind :
    (w : Written) (f : Bytes → Written) (a b : Bool)
    → is_wrote w ≡ a
    → ((out : Bytes) → is_wrote (f out) ≡ b)
    → is_wrote (w >>= f) ≡ a && b
is_wrote-bind (wrote out) f true b e h = h out
is_wrote-bind (wrote out) f false b e h = cc
is_wrote-bind (failed e) f true b e' h = cc
is_wrote-bind (failed e) f false b e' h = refl

is_wrote-write_key : (key : Value) (out : Bytes) → is_wrote (write_key key out) ≡ is_key key
unfolding write_key
is_wrote-write_key (string (some text)) out = refl
is_wrote-write_key (string none) out = refl
is_wrote-write_key _ out = refl

and_true : (a : Bool) → (a && true) ≡ a
and_true a = ground arith

module _ (float_to_string : ℕ → Bytes) where
  mutual
    unfolding write_json is_json

    value_accepted :
        (v : Value) (out : Bytes) → is_wrote (write_json float_to_string v out) ≡ is_json v
    value_accepted null out = refl
    value_accepted (boolean b) out = refl
    value_accepted (integer n) out = ground arith
    value_accepted (float bits) out = ground arith
    value_accepted (string none) out = refl
    value_accepted (string (some text)) out = refl
    value_accepted (dict entries) out =
        is_wrote-bind (write_json_entries float_to_string entries true (out ++ b'{' ∷ [])) _
          (all_entries_json entries) true (entries_accepted entries true (out ++ b'{' ∷ []))
          (λ o. refl)
        ∙ and_true (all_entries_json entries)
    value_accepted (list items) out =
        is_wrote-bind (write_json_sequence float_to_string items true (out ++ b'[' ∷ [])) _
          (all_json items) true (items_accepted items true (out ++ b'[' ∷ [])) (λ o. refl)
        ∙ and_true (all_json items)
    value_accepted (tuple items) out =
        is_wrote-bind (write_json_sequence float_to_string items true (out ++ b'[' ∷ [])) _
          (all_json items) true (items_accepted items true (out ++ b'[' ∷ [])) (λ o. refl)
        ∙ and_true (all_json items)
    value_accepted other out = refl

    items_accepted :
        (items : Values) (first : Bool) (out : Bytes)
        → is_wrote (write_json_sequence float_to_string items first out) ≡ all_json items
    items_accepted nil first out = refl
    items_accepted (cons item items) first out =
        is_wrote-bind (write_json float_to_string item (comma_unless first out)) _ (is_json item)
          (all_json items) (value_accepted item (comma_unless first out))
          (λ o. items_accepted items false o)

    entries_accepted :
        (entries : Entries) (first : Bool) (out : Bytes)
        → is_wrote (write_json_entries float_to_string entries first out) ≡ all_entries_json entries
    entries_accepted end first out = refl
    entries_accepted (entry key value entries) first out =
        is_wrote-bind (write_key key (comma_unless first out)) _ (is_key key)
          (is_json value && all_entries_json entries)
          (is_wrote-write_key key (comma_unless first out))
          λ o.
            is_wrote-bind (write_json float_to_string value (o ++ b':' ∷ [])) _ (is_json value)
              (all_entries_json entries) (value_accepted value (o ++ b':' ∷ []))
              (λ p. entries_accepted entries false p)

  -- Serialization succeeds exactly on the JSON-shaped values, whatever the buffer holds.
  pub write_json-accepts :
      (v : Value) (out : Bytes) → is_wrote (write_json float_to_string v out) ≡ is_json v
  write_json-accepts v out = value_accepted v out
