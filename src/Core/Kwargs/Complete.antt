-- ===== src/Core/Kwargs/Complete.antt =====
-- What `build_kwargs` gives.
use text.Mathlib.Text.{◌==◌}
use text.Mathlib.TextEquality.{eq_iff}
use rayo.Base.{
  ◌≡◌, ◌≢◌, refl, ◌∙◌, ◌⊎◌, inl, inr, Option, none, some, Bool, true, false, String, List, [], ◌∷◌,
  if◌then◌else◌, Option-cases, arith, codes,
}
use rayo.Dispatch.Types.{HandlerResponse, internal_error}
use rayo.Router.{Params}
use rayo.Core.Params.{ParamKind, str, int, float, bool, parse_bool, validation_error_response}
use rayo.Core.Params.Integers.{integer_of, within_i64, parse_i64-exact}
use rayo.Core.Kwargs.{
  Argument, string, integer, number, truth, or_refuse, Kwargs, set_item, Conversions, Outcome, ok,
  error, find_param, convert, convert_and_insert, build_from, build_kwargs, ◌>>=◌,
}

-- The value that a dict has for a key.
abbrev pub get_item : Kwargs → String → Option Argument
get_item [] name = none
get_item ((known, value) ∷ rest) name = if known == name then some value else get_item rest name

get_item-set_item :
    (kwargs : Kwargs) (name other : String) (value : Argument)
    → get_item (set_item kwargs name value) other
      ≡ (if name == other then some value else get_item kwargs other)
unfolding set_item
get_item-set_item [] name other value = refl
get_item-set_item ((known, old) ∷ rest) name other value = ground (
  arith,
  eq_iff known name,
  eq_iff known other,
  eq_iff name other,
  get_item-set_item rest name other value,
)

-- No name stands twice in the route's parameters.
abbrev pub Fresh : String → List (String × ParamKind) → Type 0
Fresh name [] = Unit {0}
Fresh name ((other, kind) ∷ rest) = (name ≢ other) × Fresh name rest

abbrev pub IsDistinct : List (String × ParamKind) → Type 0
IsDistinct [] = Unit {0}
IsDistinct ((name, kind) ∷ rest) = Fresh name rest × IsDistinct rest

-- The argument that a parameter's text stands for, if it does.
abbrev wrap_some : {A : Type 0} → (A → Argument) → Option A → Option Argument
wrap_some wrap none = none
wrap_some wrap (some a) = some (wrap a)

abbrev pub argument_of : Conversions → ParamKind → String → Option Argument
argument_of c str raw = some (string raw)
argument_of c int raw = wrap_some integer (within_i64 (integer_of (codes raw)))
argument_of c float raw = wrap_some number (c.parse_f64 (codes raw))
argument_of c bool raw = wrap_some truth (parse_bool (codes raw))

module _ (c : Conversions) where
  -- Each parameter was found in the path, and its keyword argument is what its text stands for.
  abbrev pub AllBound : Kwargs → List (String × ParamKind) → Params → Type 0
  AllBound kwargs [] matched = Unit {0}
  AllBound kwargs ((name, kind) ∷ rest) matched =
      ((raw : String) × (argument : Argument) × (find_param matched name ≡ some raw)
        × (argument_of c kind raw ≡ some argument)
        × (get_item kwargs name ≡ some argument))
      × AllBound kwargs rest matched

  -- The answer to the first parameter that cannot be bound: the internal error where the path has
  -- no value for it or the dict does not take its name, and its own 422 where its text stands for
  -- no argument of its kind.
  abbrev pub IsRefusal : List (String × ParamKind) → Params → HandlerResponse → Type 0
  IsRefusal [] matched r = ⊥
  IsRefusal ((name, kind) ∷ rest) matched r =
      ((find_param matched name ≡ none) × (r ≡ internal_error))
      ⊎ ((raw : String) × ((find_param matched name ≡ some raw)
            × (((argument_of c kind raw ≡ none)
                  × (r ≡ validation_error_response name kind (codes raw)))
                ⊎ ((argument : Argument) × ((argument_of c kind raw ≡ some argument)
                      × (((c.takes_key name ≡ false) × (r ≡ internal_error))
                          ⊎ ((c.takes_key name ≡ true) × IsRefusal rest matched r)))))))

  abbrev or_422 : String → ParamKind → String → Option Argument → Outcome Argument
  or_422 name kind raw none = error (validation_error_response name kind (codes raw))
  or_422 name kind raw (some argument) = ok argument

  or_refuse-wrap :
      {A : Type 0} (wrap : A → Argument) (o : Option A) (name : String) (kind : ParamKind)
      (raw : String)
      → or_refuse wrap o (validation_error_response name kind (codes raw))
        ≡ or_422 name kind raw (wrap_some wrap o)
  or_refuse-wrap wrap none name kind raw = refl
  or_refuse-wrap wrap (some a) name kind raw = refl

  convert-argument :
      (name : String) (kind : ParamKind) (raw : String)
      → convert c name kind raw ≡ or_422 name kind raw (argument_of c kind raw)
  unfolding convert
  convert-argument name str raw = refl
  convert-argument name int raw =
      rw (parse_i64-exact (codes raw))
        (or_refuse-wrap integer (within_i64 (integer_of (codes raw))) name int raw)
  convert-argument name float raw = or_refuse-wrap number (c.parse_f64 (codes raw)) name float raw
  convert-argument name bool raw = or_refuse-wrap truth (parse_bool (codes raw)) name bool raw

  -- What one parameter gives.
  abbrev inserted : Kwargs → String → ParamKind → String → Option Argument → Outcome Kwargs
  inserted kwargs name kind raw none = error (validation_error_response name kind (codes raw))
  inserted kwargs name kind raw (some argument) =
      if c.takes_key name then ok (set_item kwargs name argument) else error internal_error

  inserted-bind :
      (kwargs : Kwargs) (name : String) (kind : ParamKind) (raw : String) (o : Option Argument)
      → (or_422 name kind raw o >>= λ argument.
          if c.takes_key name then ok (set_item kwargs name argument) else error internal_error)
        ≡ inserted kwargs name kind raw o
  inserted-bind kwargs name kind raw none = refl
  inserted-bind kwargs name kind raw (some argument) = refl

  convert_and_insert-inserted :
      (kwargs : Kwargs) (name : String) (kind : ParamKind) (raw : String)
      → convert_and_insert c kwargs name kind raw
        ≡ inserted kwargs name kind raw (argument_of c kind raw)
  unfolding convert_and_insert
  convert_and_insert-inserted kwargs name kind raw =
      rw (convert-argument name kind raw)
        (inserted-bind kwargs name kind raw (argument_of c kind raw))

  abbrev Built : Kwargs → List (String × ParamKind) → Params → Outcome Kwargs → Type 0
  Built before specs matched (ok kwargs) =
      AllBound kwargs specs matched
      × ((name : String) → Fresh name specs → get_item kwargs name ≡ get_item before name)
  Built before specs matched (error r) = IsRefusal specs matched r

  -- One more parameter in front.
  Built-cons :
      (before : Kwargs) (name : String) (kind : ParamKind) (raw : String) (argument : Argument)
      (rest : List (String × ParamKind)) (matched : Params) (o : Outcome Kwargs)
      → find_param matched name ≡ some raw
      → argument_of c kind raw ≡ some argument
      → c.takes_key name ≡ true
      → Fresh name rest
      → Built (set_item before name argument) rest matched o
      → Built before ((name, kind) ∷ rest) matched o
  Built-cons before name kind raw argument rest matched (error r) found converted takes fresh b =
      inr (raw, (found, inr (argument, (converted, inr (takes, b)))))
  Built-cons before name kind raw argument rest matched (ok kwargs) found converted takes fresh b =
      (
        (
          (
            raw,
            argument,
            found,
            converted,
            b.1 name fresh
                ∙ ground (arith, get_item-set_item before name name argument, eq_iff name name),
          ),
          b.0,
        ),
        λ other f.
            b.1 other f.1
            ∙ ground (arith, get_item-set_item before name other argument, eq_iff name other, f.0),
      )

  build_from-Built :
      (before : Kwargs) (specs : List (String × ParamKind)) (matched : Params)
      → IsDistinct specs
      → Built before specs matched (build_from c before specs matched)
  unfolding build_from
  build_from-Built before [] matched d = (tt, λ name f. refl)
  build_from-Built before ((name, kind) ∷ rest) matched d =
      elim (Option-cases (find_param matched name)) [
        | inl lost ↦ rw (lost, build_from) (inl (lost, refl))
        | inr (raw, found) ↦
            rw (found, build_from)
              (rw (convert_and_insert-inserted before name kind raw) (
                built_tail raw found (argument_of c kind raw) refl (c.takes_key name) refl
                  (λ kwargs. build_from-Built kwargs rest matched d.1)))
      ]
    where
      built_tail :
          (raw : String)
          → find_param matched name ≡ some raw
          → (o : Option Argument) → argument_of c kind raw ≡ o
          → (takes : Bool) → c.takes_key name ≡ takes
          → ((kwargs : Kwargs) → Built kwargs rest matched (build_from c kwargs rest matched))
          → Built before
              ((name, kind) ∷ rest)
              matched
              (inserted before name kind raw o >>= λ kwargs. build_from c kwargs rest matched)
      built_tail raw found none e takes t ih = inr (raw, (found, inl (e, refl)))
      built_tail raw found (some argument) e true t ih = rw t (
          Built-cons before name kind raw argument rest matched
            (build_from c (set_item before name argument) rest matched) found e t d.0
            (ih (set_item before name argument)))
      built_tail raw found (some argument) e false t ih =
          rw t (inr (raw, (found, inr (argument, (e, inl (t, refl))))))

  abbrev pub IsBuilt : List (String × ParamKind) → Params → Outcome Kwargs → Type 0
  IsBuilt specs matched (ok kwargs) = AllBound kwargs specs matched
  IsBuilt specs matched (error r) = IsRefusal specs matched r

  Built-IsBuilt :
      (before : Kwargs) (specs : List (String × ParamKind)) (matched : Params) (o : Outcome Kwargs)
      → Built before specs matched o
      → IsBuilt specs matched o
  Built-IsBuilt before specs matched (ok kwargs) b = b.0
  Built-IsBuilt before specs matched (error r) b = b

  -- With distinct parameter names, `build_kwargs` binds every parameter to the argument that the
  -- path's text for it stands for; or, where a parameter cannot be bound, it answers for the first
  -- such one: with its own 422 where the text is wrong for its kind, and with the internal error
  -- where the path has no value for it or the dict refuses its name.
  pub build_kwargs-IsBuilt :
      (specs : List (String × ParamKind)) (matched : Params)
      → IsDistinct specs
      → IsBuilt specs matched (build_kwargs c specs matched)
  unfolding build_kwargs
  build_kwargs-IsBuilt specs matched d =
      Built-IsBuilt [] specs matched (build_from c [] specs matched)
        (build_from-Built [] specs matched d)
