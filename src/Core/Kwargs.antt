-- ===== src/Core/Kwargs.antt =====
-- The handler's keyword arguments: `convert_and_insert` and `build_kwargs`.
pub mod Complete
pub mod Integers
use rayo.Base.{ℕ, Bool, Option, none, some, String, List, [], ◌∷◌, if◌then◌else◌, codes}
use text.Mathlib.Text.{◌==◌}
use rayo.Base.Text.{Text, ℤ}
use rayo.Dispatch.Types.{HandlerResponse, internal_error}
use rayo.Router.{Params}
use rayo.Core.Params.{
  ParamKind, str, int, float, bool, parse_i64, parse_bool, validation_error_response,
}

pub data Argument : Type 0 where
  string : String → Argument
  integer : ℤ → Argument
  -- An `f64`, by its bits.
  number : ℕ → Argument
  truth : Bool → Argument

-- A `PyDict` with its keys in order of insertion.
abbrev pub Kwargs : Type 0
Kwargs = List (String × Argument)

-- `PyDict.set_item` on a dict that takes the key.
unfoldable pub set_item : Kwargs → String → Argument → Kwargs
set_item [] name value = (name, value) ∷ []
set_item ((known, old) ∷ rest) name value =
    if known == name then (name, value) ∷ rest else (known, old) ∷ set_item rest name value

pub data Outcome (A : Type 0) : Type 0 where
  ok : A → Outcome A
  error : HandlerResponse → Outcome A

infixl 5 ◌>>=◌
abbrev pub ◌>>=◌ : {A B : Type 0} → Outcome A → (A → Outcome B) → Outcome B
ok a >>= f = f a
error e >>= f = error e

-- What the code uses of the interpreter and of `f64::from_str`: whether `set_item` succeeds, and the
-- bits of a parsed float.
pub record Conversions : Type 0 where
  pub takes_key : String → Bool
  pub parse_f64 : Text → Option ℕ

abbrev pub or_refuse : {A : Type 0} → (A → Argument) → Option A → HandlerResponse → Outcome Argument
or_refuse wrap none response = error response
or_refuse wrap (some a) response = ok (wrap a)

module _ (c : Conversions) where
  unfoldable pub convert : String → ParamKind → String → Outcome Argument
  unfolding parse_i64 parse_bool
  convert param_name str raw_value = ok (string raw_value)
  convert param_name int raw_value =
      or_refuse integer (parse_i64 (codes raw_value))
        (validation_error_response param_name int (codes raw_value))
  convert param_name float raw_value =
      or_refuse number (c.parse_f64 (codes raw_value))
        (validation_error_response param_name float (codes raw_value))
  convert param_name bool raw_value =
      or_refuse truth (parse_bool (codes raw_value))
        (validation_error_response param_name bool (codes raw_value))

  unfoldable pub convert_and_insert : Kwargs → String → ParamKind → String → Outcome Kwargs
  unfolding convert set_item
  convert_and_insert kwargs param_name param_kind raw_value = do
    argument ← convert param_name param_kind raw_value
    if c.takes_key param_name
        then ok (set_item kwargs param_name argument)
        else error internal_error

-- `matched_params.iter().find(…)`.
unfoldable pub find_param : Params → String → Option String
find_param [] param_name = none
find_param ((matched_name, raw_value) ∷ rest) param_name =
    if matched_name == param_name then some raw_value else find_param rest param_name

abbrev pub or_lost : Option String → Outcome String
or_lost none = error internal_error
or_lost (some raw_value) = ok raw_value

module _ (c : Conversions) where
  -- The loop of `build_kwargs` over the route's parameters.
  unfoldable pub build_from : Kwargs → List (String × ParamKind) → Params → Outcome Kwargs
  unfolding convert_and_insert find_param
  build_from kwargs [] matched_params = ok kwargs
  build_from kwargs ((param_name, param_kind) ∷ params) matched_params = do
    raw_value ← or_lost (find_param matched_params param_name)
    kwargs' ← convert_and_insert c kwargs param_name param_kind raw_value
    build_from kwargs' params matched_params

  unfoldable pub build_kwargs : List (String × ParamKind) → Params → Outcome Kwargs
  unfolding build_from
  build_kwargs params matched_params = build_from [] params matched_params
