-- ===== src/Examples/Values.antt =====
-- Texts, numbers and parameters.
use rayo.Base.{
  ℕ, Bool, leb, ◌-◌, suc, ◌^◌, ◌≡◌, refl, true, false, none, some, String, List, [], ◌∷◌, ◌++◌,
  length, arith, codes, pure, State,
}
use rayo.Base.Text.{Text, Bytes, ℤ, negsuc, to_string, fits_i64}
use text.Mathlib.TextEquality.{eq_iff}
use rayo.Dispatch.Types.{HandlerResponse, internal_error, EventLoop}
use rayo.Schema.Value.{Value, list, integer, cons, nil, other}
use rayo.Schema.Escape.{write_json_string}
use rayo.Schema.Write.{write_json}
use rayo.Schema.Read.{read_string}
use rayo.Schema.Read.RoundTrip.{read_string-write_json_string}
use rayo.Schema.Accepts.{is_json, is_wrote, write_json-accepts}
use rayo.Router.{Params}
use rayo.Core.Params.{ParamKind, str, int, parse_i64, validation_message, validation_error_response}
use rayo.Core.Params.Integers.{integer_of}
use rayo.Core.Kwargs.Integers.{fitted, convert-to_string, convert-fitted}
use rayo.Core.Params.Errors.{validation_error_response-detail}
use rayo.Core.Kwargs.{Argument, Conversions, Kwargs, ok, convert, build_kwargs}
use rayo.Core.Kwargs.Complete.{IsDistinct, IsBuilt, build_kwargs-IsBuilt}
use rayo.Core.Service.{sync_job}
use rayo.Core.Service.Agree.{finish_with, sync_job-build_kwargs}
use rayo.Server.{Event, connected, accept_failed, signalled, ended, serve, streams_before}
use rayo.Server.Watched.{serve-watched}
use rayo.Examples.Script.{Script}

-- A quotation mark, a backslash, a line break, an accent and a character beyond the basic plane.
abbrev awkward : Text
awkward = b'"' ∷ b'\\' ∷ 10 ∷ 233 ∷ 0x1f600 ∷ []

read_string-write_json_string_example :
    read_string 6 (write_json_string awkward [] ++ b'}' ∷ []) ≡ some (awkward, b'}' ∷ [])
read_string-write_json_string_example =
    read_string-write_json_string awkward 6 (b'}' ∷ []) (omega arith) (omega arith)

-- The second item is no JSON value, so the list is refused.
abbrev mixed : Value
mixed = list (cons (integer (negsuc 4)) (cons other nil))

write_json-accepts_example : is_wrote (write_json (λ bits. []) mixed (b'!' ∷ [])) ≡ is_json mixed
write_json-accepts_example = write_json-accepts (λ bits. []) mixed (b'!' ∷ [])

-- The least `i64`.
abbrev least : ℤ
least = negsuc (2 ^ 63 - 1)

least_fits : fits_i64 least ≡ true
unfolding fits_i64
least_fits = refl

abbrev plain : Conversions
plain = record { takes_key = λ name. true; parse_f64 = λ text. none }

least_text : codes "-9223372036854775808" ≡ to_string least
unfolding to_string
least_text = refl

convert-to_string_example :
    convert plain "id" int "-9223372036854775808" ≡ ok (Argument.integer least)
convert-to_string_example =
    convert-to_string plain "id" "-9223372036854775808" least least_fits least_text

convert-fitted_example :
    convert plain "id" int "9223372036854775808"
    ≡ fitted "id" "9223372036854775808" (integer_of (codes "9223372036854775808"))
convert-fitted_example = convert-fitted plain "id" "9223372036854775808"

parse_signed : parse_i64 (codes "-42") ≡ some (negsuc 41)
unfolding parse_i64
parse_signed = refl

parse_overflow : parse_i64 (codes "9223372036854775808") ≡ none
unfolding parse_i64
parse_overflow = refl

validation_error_response-detail_example :
    (detail : Bytes) × ((validation_error_response "user_id" int awkward).body
      ≡ codes "{\"detail\":" ++ detail)
    × (read_string (suc (length (validation_message "user_id" int awkward))) detail
        ≡ some (validation_message "user_id" int awkward, b'}' ∷ []))
    × ((validation_error_response "user_id" int awkward).status ≡ 422)
validation_error_response-detail_example =
    validation_error_response-detail "user_id" int awkward (omega arith) (omega arith)

abbrev two_params : List (String × ParamKind)
two_params = ("user_id", int) ∷ ("name", str) ∷ []

abbrev given : Params
given = ("user_id", "17") ∷ ("name", "ada") ∷ []

two_params-IsDistinct : IsDistinct two_params
two_params-IsDistinct = ((ground (arith, eq_iff "user_id" "name"), tt), (tt, tt))

build_kwargs-IsBuilt_example : IsBuilt plain two_params given (build_kwargs plain two_params given)
build_kwargs-IsBuilt_example = build_kwargs-IsBuilt plain two_params given two_params-IsDistinct

-- A handler that answers without looking at its arguments.
abbrev answer : Kwargs → State (EventLoop Script) HandlerResponse
answer kwargs = pure internal_error

sync_job-build_kwargs_example :
    sync_job plain answer [] two_params given
    ≡ finish_with plain answer (build_kwargs plain two_params given)
sync_job-build_kwargs_example = sync_job-build_kwargs plain answer two_params given

abbrev day : List Event
day =
    connected 1
    ∷ accept_failed
    ∷ connected 2
    ∷ signalled
    ∷ ended 2 true
    ∷ connected 3
    ∷ ended 1 false
    ∷ []

-- Drained once as many connections ended as are watched.
abbrev counted : List ℕ → List ℕ → Bool
counted watched finished = leb (length watched) (length finished)

serve-watched_example : (serve counted day).watched ≡ streams_before day
serve-watched_example = serve-watched counted day
