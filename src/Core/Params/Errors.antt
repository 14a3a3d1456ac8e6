-- ===== src/Core/Params/Errors.antt =====
-- `validation_error_response`: the body of the 422.
use mathlib.Core.List.{append_assoc}
use rayo.Base.{suc, ◌≡◌, refl, sym, ap, ◌∙◌, String, [], ◌∷◌, ◌++◌, length, some, codes, arith}
use rayo.Base.Text.{Text, Bytes}
use rayo.Schema.Escape.{write_json_string}
use rayo.Schema.Read.{read_string}
use rayo.Schema.Read.RoundTrip.{AllScalar, write_json_string-escaped, read_string-write_json_string}
use rayo.Core.Params.{
  ParamKind, str, int, float, bool, expected_name, validation_message, validation_error_response,
}

AllScalar-append : (s t : Text) → AllScalar s → AllScalar t → AllScalar (s ++ t)
AllScalar-append [] t hs ht = ht
AllScalar-append (c ∷ s) t hs ht = (hs.0, AllScalar-append s t hs.1 ht)

AllScalar-expected_name : (k : ParamKind) → AllScalar (codes (expected_name k))
unfolding expected_name
AllScalar-expected_name str = omega arith
AllScalar-expected_name int = omega arith
AllScalar-expected_name float = omega arith
AllScalar-expected_name bool = omega arith

validation_message-AllScalar :
    (name : String) (k : ParamKind) (raw : Text)
    → AllScalar (codes name)
    → AllScalar raw
    → AllScalar (validation_message name k raw)
unfolding validation_message
validation_message-AllScalar name k raw hn hr =
    AllScalar-append (codes "path parameter '") _ (omega arith) (
      AllScalar-append (codes name) _ hn (
        AllScalar-append (codes "' expected ") _ (omega arith) (
          AllScalar-append (codes (expected_name k)) _ (AllScalar-expected_name k) (
            AllScalar-append (codes ", got '") _ (omega arith)
              (AllScalar-append raw (codes "'") hr (omega arith))))))

-- `write_json_string` only appends.
write_json_string-append :
    (text : Text) (out : Bytes) → write_json_string text out ≡ out ++ write_json_string text []
write_json_string-append text out =
    write_json_string-escaped text out ∙ ap (◌++◌ out) (sym (write_json_string-escaped text []))

-- Whatever text the client sent, the 422's body is `{"detail":`, a JSON string that is read back as
-- the message with the parameter's name, the expected type and the raw value, and `}`.
pub validation_error_response-detail :
    (name : String) (k : ParamKind) (raw : Text)
    → AllScalar (codes name)
    → AllScalar raw
    → (detail : Bytes) × ((validation_error_response name k raw).body
        ≡ codes "{\"detail\":" ++ detail)
      × (read_string (suc (length (validation_message name k raw))) detail
          ≡ some (validation_message name k raw, b'}' ∷ []))
      × ((validation_error_response name k raw).status ≡ 422)
unfolding validation_error_response
validation_error_response-detail name k raw hn hr =
    let message = validation_message name k raw in
    (
      write_json_string message [] ++ b'}' ∷ [],
      ap (λ (s : Bytes). s ++ b'}' ∷ []) (write_json_string-append message (codes "{\"detail\":"))
          ∙ append_assoc (codes "{\"detail\":") (write_json_string message []) (b'}' ∷ []),
      read_string-write_json_string message (suc (length message)) (b'}' ∷ [])
          (validation_message-AllScalar name k raw hn hr) (omega arith),
      refl,
    )
