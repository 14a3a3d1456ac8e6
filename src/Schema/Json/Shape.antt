-- ===== src/Schema/Json/Shape.antt =====
-- What a JSON reader should take a printed value for.
use rayo.Base.{ℕ, suc, ◌+◌, none, some, length}
use rayo.Base.Text.{Bytes, to_string}
use rayo.Schema.Value.{
  Value, Values, Entries, null, boolean, integer, float, string, dict, list, tuple, other, nil,
  cons, end, entry,
}
use rayo.Schema.Read.RoundTrip.{AllScalar}
use rayo.Schema.Json.{
  Json, Items, Fields, no_items, element, no_fields, field, number, array, object,
}
use rayo.Schema.Json.Printed.{key_text}

-- The texts of a value hold scalar values only, as every Rust text does.
abbrev pub KeyScalar : Value → Type 0
KeyScalar key = AllScalar (key_text key)

unfoldable mutual
  pub TextsScalar : Value → Type 0
  TextsScalar (string (some text)) = AllScalar text
  TextsScalar (list items) = ItemsScalar items
  TextsScalar (tuple items) = ItemsScalar items
  TextsScalar (dict entries) = EntriesScalar entries
  TextsScalar _ = Unit {0}

  pub ItemsScalar : Values → Type 0
  ItemsScalar nil = Unit {0}
  ItemsScalar (cons v items) = TextsScalar v × ItemsScalar items

  pub EntriesScalar : Entries → Type 0
  EntriesScalar end = Unit {0}
  EntriesScalar (entry key value entries) =
      KeyScalar key × (TextsScalar value × EntriesScalar entries)

-- The fuel that reading a value takes.
unfoldable mutual
  pub size : Value → ℕ
  size (string (some text)) = suc (length text)
  size (list items) = suc (size_items items)
  size (tuple items) = suc (size_items items)
  size (dict entries) = suc (size_entries entries)
  size _ = 0

  pub size_items : Values → ℕ
  size_items nil = 0
  size_items (cons v items) = suc (size v + size_items items)

  pub size_entries : Entries → ℕ
  size_entries end = 0
  size_entries (entry key value entries) =
      suc (length (key_text key) + (size value + size_entries entries))

-- What a value says, whatever its Python types.
module _ (float_to_string : ℕ → Bytes) where
  unfoldable mutual
    pub shape : Value → Json
    shape null = Json.null
    shape (boolean b) = Json.boolean b
    shape (integer n) = number (to_string n)
    shape (float bits) = number (float_to_string bits)
    shape (string none) = Json.null
    shape (string (some text)) = Json.string text
    shape (dict entries) = object (shape_fields entries)
    shape (list items) = array (shape_items items)
    shape (tuple items) = array (shape_items items)
    shape other = Json.null

    pub shape_items : Values → Items
    shape_items nil = no_items
    shape_items (cons v items) = element (shape v) (shape_items items)

    pub shape_fields : Entries → Fields
    shape_fields end = no_fields
    shape_fields (entry key value entries) =
        field (key_text key) (shape value) (shape_fields entries)
