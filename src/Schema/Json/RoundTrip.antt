-- ===== src/Schema/Json/RoundTrip.antt =====
-- The serializer against the JSON reader.
use mathlib.Core.List.{append_assoc}
use rayo.Base.{
  ℕ, zero, suc, ◌<◌, ◌≡◌, refl, Bool, true, false, ◌&&◌, none, some, [], ◌∷◌, ◌++◌, arith,
}
use rayo.Base.Text.{Text, Bytes, to_string}
use rayo.Schema.Value.{
  Value, Values, Entries, null, boolean, integer, float, string, dict, list, tuple, other, nil,
  cons, end, entry,
}
use rayo.Schema.Write.{wrote, is_finite, write_json}
use rayo.Schema.Read.RoundTrip.{escaped, read_chars-escaped}
use rayo.Schema.Accepts.{is_key, is_json, all_json, all_entries_json}
use rayo.Schema.Json.{skip_comma, starts, read_json, read_items, read_fields}
use rayo.Schema.Json.Steps.{
  read_json-array, read_json-object, read_json-string, read_items-end, read_items-cons,
  read_fields-end, read_fields-entry, read_json-null, read_json-boolean,
}
use rayo.Schema.Json.Numbers.{
  is_numeral, stops, read_json-number, starts-numeral, to_string-is_numeral,
}
use rayo.Schema.Json.Shape.{
  TextsScalar, ItemsScalar, EntriesScalar, size, size_items, size_entries, shape, shape_items,
  shape_fields,
}
use rayo.Schema.Json.Printed.{
  quoted, key_text, comma, printed, printed_items, printed_entries, write_json-printed, and_left,
  and_right,
}

-- The parts of a printed entry, bracketed to the right.
entry_front :
    (first : Bool) (text : Text) (p q rest : Bytes)
    → (comma first ++ (quoted text ++ b':' ∷ (p ++ q))) ++ b'}' ∷ rest
      ≡ comma first ++ b'"' ∷ (escaped text ++ b'"' ∷ b':' ∷ (p ++ (q ++ b'}' ∷ rest)))
entry_front first text p q rest = simp append_assoc

module _ (float_to_string : ℕ → Bytes) where
  -- Floats are printed as numbers.
  abbrev pub PrintsNumerals : Type 0
  PrintsNumerals = (bits : ℕ) → is_finite bits ≡ true → is_numeral (float_to_string bits) ≡ true

  module _ (numerals : PrintsNumerals) where
    -- A printed value never looks like the closing bracket.
    starts-printed :
        (v : Value) (rest : Bytes)
        → is_json v ≡ true
        → starts b']' (printed float_to_string v ++ rest) ≡ false
    unfolding printed is_json starts
    starts-printed null rest h = refl
    starts-printed (boolean true) rest h = refl
    starts-printed (boolean false) rest h = refl
    starts-printed (integer n) rest h = starts-numeral (to_string n) rest (to_string-is_numeral n)
    starts-printed (float bits) rest h =
        starts-numeral (float_to_string bits) rest (numerals bits h)
    starts-printed (string none) rest h = cc
    starts-printed (string (some text)) rest h = refl
    starts-printed (dict entries) rest h = refl
    starts-printed (list items) rest h = refl
    starts-printed (tuple items) rest h = refl
    starts-printed other rest h = cc

    starts-item :
        (first : Bool) (v : Value) (rest : Bytes)
        → is_json v ≡ true
        → starts b']' (comma first ++ (printed float_to_string v ++ rest)) ≡ false
    starts-item true v rest h = starts-printed v rest h
    starts-item false v rest h = unfold starts in refl

    skip_comma-comma : (first : Bool) (s : Bytes) → skip_comma first (comma first ++ s) ≡ some s
    unfolding skip_comma
    skip_comma-comma true s = refl
    skip_comma-comma false s = refl

    -- Behind an item comes a comma or the closing bracket.
    stops-items :
        (items : Values) (rest : Bytes)
        → stops (printed_items float_to_string items false ++ b']' ∷ rest) ≡ true
    unfolding printed
    stops-items nil rest = refl
    stops-items (cons v items) rest = refl

    stops-entries :
        (entries : Entries) (rest : Bytes)
        → stops (printed_entries float_to_string entries false ++ b'}' ∷ rest) ≡ true
    unfolding printed
    stops-entries end rest = refl
    stops-entries (entry key v entries) rest = refl

    -- With fuel above `size`, a value's print is read off the front of any input where no number
    -- goes on.
    mutual
      unfolding printed is_json TextsScalar size shape

      value_read :
          (v : Value) (f : ℕ) (rest : Bytes)
          → is_json v ≡ true
          → TextsScalar v
          → stops rest ≡ true
          → size v < f
          → read_json f (printed float_to_string v ++ rest) ≡ some (shape float_to_string v, rest)
      value_read v zero rest h t k b = elim b [ ]
      value_read null (suc f) rest h t k b = read_json-null f rest
      value_read (boolean x) (suc f) rest h t k b = read_json-boolean f x rest
      value_read (integer n) (suc f) rest h t k b =
          read_json-number f (to_string n) rest (to_string-is_numeral n) k
      value_read (float bits) (suc f) rest h t k b =
          read_json-number f (float_to_string bits) rest (numerals bits h) k
      value_read (string none) (suc f) rest h t k b = cc
      value_read (string (some text)) (suc f) rest h t k b =
          read_json-string f ((escaped text ++ b'"' ∷ []) ++ rest) rest text (
            rw (append_assoc (escaped text) (b'"' ∷ []) rest)
              (read_chars-escaped text f rest t (omega arith)))
      value_read (dict entries) (suc f) rest h t k b =
          read_json-object f ((printed_entries float_to_string entries true ++ b'}' ∷ []) ++ rest)
            rest (shape_fields float_to_string entries)
            (rw (append_assoc (printed_entries float_to_string entries true) (b'}' ∷ []) rest)
              (entries_read entries true f rest h t (omega arith)))
      value_read (list items) (suc f) rest h t k b =
          read_json-array f ((printed_items float_to_string items true ++ b']' ∷ []) ++ rest) rest
            (shape_items float_to_string items)
            (rw (append_assoc (printed_items float_to_string items true) (b']' ∷ []) rest)
              (items_read items true f rest h t (omega arith)))
      value_read (tuple items) (suc f) rest h t k b =
          read_json-array f ((printed_items float_to_string items true ++ b']' ∷ []) ++ rest) rest
            (shape_items float_to_string items)
            (rw (append_assoc (printed_items float_to_string items true) (b']' ∷ []) rest)
              (items_read items true f rest h t (omega arith)))
      value_read other (suc f) rest h t k b = cc

      items_read :
          (items : Values) (first : Bool) (f : ℕ) (rest : Bytes)
          → all_json items ≡ true
          → ItemsScalar items
          → size_items items < f
          → read_items f first (printed_items float_to_string items first ++ b']' ∷ rest)
            ≡ some (shape_items float_to_string items, rest)
      items_read items first zero rest h t b = elim b [ ]
      items_read nil first (suc f) rest h t b = read_items-end f first rest
      items_read (cons v items) first (suc f) rest h t b =
          let valid = and_left (is_json v) (all_json items) h in
          let behind_v = printed_items float_to_string items false ++ b']' ∷ rest in
          rw
            (append_assoc (comma first)
              (printed float_to_string v ++ printed_items float_to_string items false)
              (b']' ∷ rest))
            (rw
              (append_assoc (printed float_to_string v) (printed_items float_to_string items false)
                (b']' ∷ rest))
              (read_items-cons f first (comma first ++ (printed float_to_string v ++ behind_v))
                (printed float_to_string v ++ behind_v) behind_v rest (shape float_to_string v)
                (shape_items float_to_string items) (starts-item first v behind_v valid)
                (skip_comma-comma first (printed float_to_string v ++ behind_v))
                (value_read v f behind_v valid t.0 (stops-items items rest) (omega arith))
                (items_read items false f rest (and_right (is_json v) (all_json items) h) t.1
                  (omega arith))))

      entries_read :
          (entries : Entries) (first : Bool) (f : ℕ) (rest : Bytes)
          → all_entries_json entries ≡ true
          → EntriesScalar entries
          → size_entries entries < f
          → read_fields f first (printed_entries float_to_string entries first ++ b'}' ∷ rest)
            ≡ some (shape_fields float_to_string entries, rest)
      entries_read entries first zero rest h t b = elim b [ ]
      entries_read end first (suc f) rest h t b = read_fields-end f first rest
      entries_read (entry key v entries) first (suc f) rest h t b =
          let valid = and_right (is_key key) (is_json v && all_entries_json entries) h in
          let behind_v = printed_entries float_to_string entries false ++ b'}' ∷ rest in
          let text = key_text key in
          rw
            (entry_front first text (printed float_to_string v)
              (printed_entries float_to_string entries false) rest)
            (read_fields-entry f first
              (escaped text ++ b'"' ∷ b':' ∷ (printed float_to_string v ++ behind_v))
              (printed float_to_string v ++ behind_v) behind_v rest text (shape float_to_string v)
              (shape_fields float_to_string entries)
              (read_chars-escaped text f (b':' ∷ (printed float_to_string v ++ behind_v)) t.0
                (omega arith))
              (value_read v f behind_v (and_left (is_json v) (all_entries_json entries) valid) t.1.0
                (stops-entries entries rest) (omega arith))
              (entries_read entries false f rest
                (and_right (is_json v) (all_entries_json entries) valid) t.1.1 (omega arith)))

    -- A JSON-shaped value whose texts are Rust texts, where floats are printed as numbers: what
    -- `write_json` writes into an empty buffer is one JSON text, which a reader takes for the value
    -- with all its parts in their order, and behind which it stops.
    pub read_json-write_json :
        (v : Value) (fuel : ℕ) (rest : Bytes)
        → is_json v ≡ true
        → TextsScalar v
        → stops rest ≡ true
        → size v < fuel
        → (out : Bytes) × (write_json float_to_string v [] ≡ wrote out)
          × (read_json fuel (out ++ rest) ≡ some (shape float_to_string v, rest))
    read_json-write_json v fuel rest h t k b = (
      printed float_to_string v,
      write_json-printed float_to_string v [] h,
      value_read v fuel rest h t k b,
    )
