-- ===== src/Examples/Json.antt =====
-- A value with every kind of part.
use rayo.Base.{ℕ, ◌<◌, ◌≡◌, refl, true, some, [], ◌∷◌, ◌++◌, arith, codes}
use rayo.Base.Text.{Bytes, negsuc}
use rayo.Schema.Value.{
  Value, null, boolean, integer, float, string, dict, list, tuple, nil, cons, end, entry,
}
use rayo.Schema.Write.{wrote, write_json}
use rayo.Schema.Accepts.{is_json}
use rayo.Schema.Json.{read_json}
use rayo.Schema.Json.Numbers.{is_numeral}
use rayo.Schema.Json.Shape.{TextsScalar, size, shape}
use rayo.Schema.Json.RoundTrip.{PrintsNumerals, read_json-write_json}

-- A print that takes every float for one and a half.
abbrev half : ℕ → Bytes
half bits = codes "1.5"

half-PrintsNumerals : PrintsNumerals half
unfolding is_numeral
half-PrintsNumerals bits h = refl

-- {"k": [null, -5, 1.5], "é": (true, "\"")}
abbrev sample : Value
sample = dict (
    entry (string (some (codes "k")))
      (list (cons null (cons (integer (negsuc 4)) (cons (float 0) nil))))
      (entry (string (some (233 ∷ [])))
        (tuple (cons (boolean true) (cons (string (some (b'"' ∷ []))) nil))) end))

sample_valid : is_json sample ≡ true
unfolding is_json
sample_valid = refl

sample-TextsScalar : TextsScalar sample
unfolding TextsScalar
sample-TextsScalar = omega arith

enough_fuel : size sample < 20
unfolding size
enough_fuel = omega arith

read_json-write_json_example :
    (out : Bytes) × (write_json half sample [] ≡ wrote out)
    × (read_json 20 (out ++ b',' ∷ []) ≡ some (shape half sample, b',' ∷ []))
read_json-write_json_example =
    read_json-write_json half half-PrintsNumerals sample 20 (b',' ∷ []) sample_valid
      sample-TextsScalar refl enough_fuel
