-- ===== src/Core/Kwargs/Integers.antt =====
-- Path parameters of the kind `int`: which texts are accepted, and for which integers.
use rayo.Base.{arith, ◌≡◌, refl, true, Option, none, some, String, codes, if◌then◌else◌}
use rayo.Base.Text.{ℤ, to_string, fits_i64}
use rayo.Core.Params.{int, validation_error_response}
use rayo.Core.Params.Integers.{integer_of, within_i64, parse_i64-to_string, parse_i64-exact}
use rayo.Core.Kwargs.{Argument, integer, Outcome, ok, error, Conversions, or_refuse, convert}

-- The argument, or the 422 of the parameter.
abbrev pub fitted : String → String → Option ℤ → Outcome Argument
fitted param_name raw_value none =
    error (validation_error_response param_name int (codes raw_value))
fitted param_name raw_value (some z) =
    if fits_i64 z
    then ok (integer z)
    else error (validation_error_response param_name int (codes raw_value))

fitted-within :
    (param_name raw_value : String) (o : Option ℤ)
    → or_refuse integer (within_i64 o) (validation_error_response param_name int (codes raw_value))
      ≡ fitted param_name raw_value o
fitted-within param_name raw_value none = refl
fitted-within param_name raw_value (some z) = ground arith

-- An `int` parameter is accepted exactly where its text is an optional sign and digits, and the
-- integer that they denote fits an `i64`; the argument is that integer. Every other text is
-- answered with the parameter's 422.
pub convert-fitted :
    (c : Conversions) (param_name raw_value : String)
    → convert c param_name int raw_value
      ≡ fitted param_name raw_value (integer_of (codes raw_value))
unfolding convert
convert-fitted c param_name raw_value =
    rw (parse_i64-exact (codes raw_value))
      (fitted-within param_name raw_value (integer_of (codes raw_value)))

-- The decimal text that the serializer prints for an `i64`, given as an `int` parameter, is
-- accepted and gives that integer back.
pub convert-to_string :
    (c : Conversions) (param_name raw_value : String) (z : ℤ)
    → fits_i64 z ≡ true
    → codes raw_value ≡ to_string z
    → convert c param_name int raw_value ≡ ok (integer z)
unfolding convert
convert-to_string c param_name raw_value z fits text = rw (text, parse_i64-to_string z fits) refl
