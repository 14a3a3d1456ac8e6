-- ===== src/Schema/Json.antt =====
-- JSON texts, and a reader for them from the grammar of RFC 8259, without white space: what the
-- serializer's output is read back by. A number is kept as its digits.
pub mod Printed
pub mod Steps
pub mod Numbers
pub mod Shape
pub mod RoundTrip
use rayo.Base.{
  ℕ, zero, suc, Bool, true, false, ◌||◌, ◌&&◌, Option, none, some, [], ◌∷◌, leb, ◌==◌,
  if◌then◌else◌, codes,
}
use rayo.Base.Text.{Text, Bytes}
use rayo.Schema.Read.{read_chars}

mutual
  pub data Json : Type 0 where
    null : Json
    boolean : Bool → Json
    number : Bytes → Json
    string : Text → Json
    array : Items → Json
    object : Fields → Json

  pub data Items : Type 0 where
    no_items : Items
    element : Json → Items → Items

  pub data Fields : Type 0 where
    no_fields : Fields
    field : Text → Json → Fields → Fields

abbrev pub is_digit : ℕ → Bool
is_digit a = leb b'0' a && leb a b'9'

abbrev pub is_number_char : ℕ → Bool
is_number_char a =
    is_digit a || (a == b'-' || (a == b'.' || (a == b'+' || (a == b'e' || a == b'E'))))

-- The longest front of number characters, and the rest.
unfoldable pub span_number : Bytes → Bytes × Bytes
span_number [] = ([], [])
span_number (a ∷ s) =
    let (digits, rest) = span_number s in
    if is_number_char a then (a ∷ digits, rest) else ([], a ∷ s)

-- The input behind a word.
unfoldable pub strip : Bytes → Bytes → Option Bytes
strip [] s = some s
strip (a ∷ word) [] = none
strip (a ∷ word) (b ∷ s) = if a == b then strip word s else none

-- What a value begins with.
pub data Lead : Type 0 where
  quote bracket brace letter_t letter_f letter_n numeral stray : Lead

abbrev pub lead : ℕ → Lead
lead a =
    if a == b'"'
    then quote
    else if a == b'['
    then bracket
    else if a == b'{'
    then brace
    else if a == b't'
    then letter_t
    else if a == b'f'
    then letter_f
    else if a == b'n'
    then letter_n
    else if is_digit a || a == b'-'
    then numeral
    else stray

module _ {A B : Type 0} where
  abbrev pub wrap : (A → B) → Option (A × Bytes) → Option (B × Bytes)
  wrap f none = none
  wrap f (some (a, rest)) = some (f a, rest)

  abbrev pub after : Option (A × Bytes) → (A → Bytes → Option (B × Bytes)) → Option (B × Bytes)
  after none k = none
  after (some (a, rest)) k = k a rest

abbrev pub keep : Json → Option Bytes → Option (Json × Bytes)
keep v none = none
keep v (some rest) = some (v, rest)

-- The separator in front of an item.
unfoldable pub skip_comma : Bool → Bytes → Option Bytes
skip_comma true s = some s
skip_comma false [] = none
skip_comma false (a ∷ s) = if a == b',' then some s else none

abbrev pub behind : {A : Type 0} → Option Bytes → (Bytes → Option (A × Bytes)) → Option (A × Bytes)
behind none k = none
behind (some rest) k = k rest

unfoldable pub starts : ℕ → Bytes → Bool
starts c [] = false
starts c (a ∷ s) = a == c

abbrev pub tail : Bytes → Bytes
tail [] = []
tail (a ∷ s) = s

-- Each call costs a unit of fuel.
unfoldable mutual
  unfolding skip_comma strip span_number starts

  pub read_json : ℕ → Bytes → Option (Json × Bytes)
  read_json zero s = none
  read_json (suc fuel) [] = none
  read_json (suc fuel) (a ∷ s) = elim (lead a) [
    | quote ↦ wrap string (read_chars fuel s)
    | bracket ↦ wrap array (read_items fuel true s)
    | brace ↦ wrap object (read_fields fuel true s)
    | letter_t ↦ keep (boolean true) (strip (codes "rue") s)
    | letter_f ↦ keep (boolean false) (strip (codes "alse") s)
    | letter_n ↦ keep null (strip (codes "ull") s)
    | numeral ↦ (let (digits, rest) = span_number (a ∷ s) in some (number digits, rest))
    | stray ↦ none
  ]

  pub read_items : ℕ → Bool → Bytes → Option (Items × Bytes)
  read_items zero first s = none
  read_items (suc fuel) first s = elim (starts b']' s) [
    | true ↦ some (no_items, tail s)
    | false ↦
        behind (skip_comma first s)
          λ t. after (read_json fuel t) λ v rest. wrap (element v) (read_items fuel false rest)
  ]

  pub read_fields : ℕ → Bool → Bytes → Option (Fields × Bytes)
  read_fields zero first s = none
  read_fields (suc fuel) first s = elim (starts b'}' s) [
    | true ↦ some (no_fields, tail s)
    | false ↦ behind (skip_comma first s) λ t. behind (strip (b'"' ∷ []) t) λ t'.
        after (read_chars fuel t') λ key rest. behind (strip (b':' ∷ []) rest) λ t''.
          after (read_json fuel t'') λ v rest'. wrap (field key v) (read_fields fuel false rest')
  ]
