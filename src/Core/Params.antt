-- ===== src/Core/Params.antt =====
-- Path parameters: `ParamKind`, the standard library's parsers as the code uses them, and the 422.
pub mod Integers
pub mod Errors
use rayo.Base.{
  ℕ, zero, suc, ◌+◌, ◌-◌, ◌*◌, ◌^◌, ◌≡◌, refl, Bool, true, false, ◌&&◌, ◌||◌, Option, none, some,
  String, [], ◌∷◌, ◌++◌, ltb, leb, ◌==◌, if◌then◌else◌, codes,
}
use rayo.Base.Text.{Text, ℤ, pos, negsuc}
use rayo.Schema.Escape.{write_json_string}
use rayo.Dispatch.Types.{HandlerResponse}

pub data ParamKind : Type 0 where
  str int float bool : ParamKind

unfoldable pub from_code : ℕ → Option ParamKind
from_code zero = some str
from_code (suc zero) = some int
from_code (suc (suc zero)) = some float
from_code (suc (suc (suc zero))) = some bool
from_code _ = none

unfoldable pub expected_name : ParamKind → String
expected_name str = "str"
expected_name int = "int"
expected_name float = "float"
expected_name bool = "bool"

-- One digit of `parse::<i64>`: `none` for what is no digit and for an overflow. `limit` is the
-- greatest magnitude.
unfoldable pub parse_digits : ℕ → Text → ℕ → Option ℕ
parse_digits limit [] n = some n
parse_digits limit (c ∷ s) n =
    let rest = parse_digits limit s (n * 10 + (c - b'0')) in
    if ltb c b'0' || ltb b'9' c
    then none
    else if ltb limit (n * 10 + (c - b'0'))
    then none
    else rest

-- The digits behind a sign: at least one.
unfoldable pub parse_magnitude : ℕ → Text → Option ℕ
unfolding parse_digits
parse_magnitude limit [] = none
parse_magnitude limit (c ∷ s) = parse_digits limit (c ∷ s) 0

abbrev pub positive : Option ℕ → Option ℤ
positive none = none
positive (some n) = some (pos n)

abbrev pub negative : Option ℕ → Option ℤ
negative none = none
negative (some zero) = some (pos 0)
negative (some (suc n)) = some (negsuc n)

-- `str::parse::<i64>`.
unfoldable pub parse_i64 : Text → Option ℤ
unfolding parse_magnitude
parse_i64 [] = none
parse_i64 (c ∷ s) =
    if c == b'-'
    then negative (parse_magnitude (2 ^ 63) s)
    else if c == b'+'
    then positive (parse_magnitude (2 ^ 63 - 1) s)
    else positive (parse_magnitude (2 ^ 63 - 1) (c ∷ s))

abbrev pub to_ascii_lowercase : ℕ → ℕ
to_ascii_lowercase c = if leb b'A' c && leb c b'Z' then c + 32 else c

-- `eq_ignore_ascii_case`; with `id` for the first argument it is `==`.
unfoldable pub text_eq : (ℕ → ℕ) → Text → Text → Bool
text_eq fold [] [] = true
text_eq fold [] (d ∷ t) = false
text_eq fold (c ∷ s) [] = false
text_eq fold (c ∷ s) (d ∷ t) = (fold c == fold d) && text_eq fold s t

unfoldable pub parse_bool : Text → Option Bool
unfolding text_eq
parse_bool value =
    if text_eq to_ascii_lowercase value (codes "true") || text_eq (λ c. c) value (codes "1")
    then some true
    else if text_eq to_ascii_lowercase value (codes "false") || text_eq (λ c. c) value (codes "0")
    then some false
    else none

-- The message of the 422.
unfoldable pub validation_message : String → ParamKind → Text → Text
unfolding expected_name
validation_message param_name expected raw_value =
    codes "path parameter '"
    ++ (codes param_name
        ++ (codes "' expected "
            ++ (codes (expected_name expected) ++ (codes ", got '" ++ (raw_value ++ codes "'")))))

unfoldable pub validation_error_response : String → ParamKind → Text → HandlerResponse
unfolding validation_message write_json_string
validation_error_response param_name expected raw_value = record {
  status = 422;
  content_type = "application/json";
  body =
      write_json_string (validation_message param_name expected raw_value) (codes "{\"detail\":")
      ++ b'}' ∷ [];
}

validation_error_int :
    (validation_error_response "user_id" int (codes "abc")).body
    ≡ codes "{\"detail\":\"path parameter 'user_id' expected int, got 'abc'\"}"
unfolding validation_error_response
validation_error_int = refl
