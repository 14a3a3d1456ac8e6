-- ===== src/Schema/Json/Steps.antt =====
-- The JSON reader's steps, each with the calls below it done.
use rayo.Base.{ℕ, suc, ◌≡◌, refl, Bool, true, false, some, ◌∷◌, ◌++◌, if◌then◌else◌, codes}
use rayo.Base.Text.{Text, Bytes}
use rayo.Schema.Read.{read_chars}
use rayo.Schema.Json.{
  Json, Items, Fields, no_items, element, no_fields, field, array, object, wrap, after, skip_comma,
  behind, starts, read_json, read_items, read_fields,
}
use rayo.Schema.Json.Printed.{comma}

pub read_json-array :
    (f : ℕ) (s rest : Bytes) (items : Items)
    → read_items f true s ≡ some (items, rest)
    → read_json (suc f) (b'[' ∷ s) ≡ some (array items, rest)
unfolding read_json
read_json-array f s rest items h = rw h refl

pub read_json-object :
    (f : ℕ) (s rest : Bytes) (others : Fields)
    → read_fields f true s ≡ some (others, rest)
    → read_json (suc f) (b'{' ∷ s) ≡ some (object others, rest)
unfolding read_json
read_json-object f s rest others h = rw h refl

pub read_json-string :
    (f : ℕ) (s rest : Bytes) (text : Text)
    → read_chars f s ≡ some (text, rest)
    → read_json (suc f) (b'"' ∷ s) ≡ some (Json.string text, rest)
unfolding read_json
read_json-string f s rest text h = rw h refl

pub read_items-end :
    (f : ℕ) (first : Bool) (rest : Bytes)
    → read_items (suc f) first (b']' ∷ rest) ≡ some (no_items, rest)
unfolding read_items
read_items-end f first rest = refl

pub read_items-cons :
    (f : ℕ) (first : Bool) (s t middle rest : Bytes) (v : Json) (items : Items)
    → starts b']' s ≡ false
    → skip_comma first s ≡ some t
    → read_json f t ≡ some (v, middle)
    → read_items f false middle ≡ some (items, rest)
    → read_items (suc f) first s ≡ some (element v items, rest)
unfolding read_items
read_items-cons f first s t middle rest v items a b c d =
    rw (a, read_items) (rw (b, behind) (rw (c, after) (rw (d, wrap) refl)))

pub read_fields-end :
    (f : ℕ) (first : Bool) (rest : Bytes)
    → read_fields (suc f) first (b'}' ∷ rest) ≡ some (no_fields, rest)
unfolding read_fields
read_fields-end f first rest = refl

pub read_fields-entry :
    (f : ℕ) (first : Bool) (s t middle rest : Bytes) (key : Text) (v : Json) (others : Fields)
    → read_chars f s ≡ some (key, b':' ∷ t)
    → read_json f t ≡ some (v, middle)
    → read_fields f false middle ≡ some (others, rest)
    → read_fields (suc f) first (comma first ++ b'"' ∷ s) ≡ some (field key v others, rest)
unfolding read_fields
read_fields-entry f true s t middle rest key v others a b c =
    rw (a, after) (rw (b, after) (rw (c, wrap) refl))
read_fields-entry f false s t middle rest key v others a b c =
    rw (a, after) (rw (b, after) (rw (c, wrap) refl))

pub read_json-null :
    (f : ℕ) (rest : Bytes) → read_json (suc f) (codes "null" ++ rest) ≡ some (Json.null, rest)
unfolding read_json
read_json-null f rest = refl

pub read_json-boolean :
    (f : ℕ) (b : Bool) (rest : Bytes)
    → read_json (suc f) ((if b then codes "true" else codes "false") ++ rest)
      ≡ some (Json.boolean b, rest)
unfolding read_json
read_json-boolean f true rest = refl
read_json-boolean f false rest = refl
