-- ===== src/Schema/Value.antt =====
-- The Python objects that the serializer tells apart, as `write_json` reads them: one constructor for
-- each `cast` that it tries, and `other` for an object that passes none.
use rayo.Base.{ℕ, Bool, Option}
use rayo.Base.Text.{Text, ℤ}

mutual
  pub data Value : Type 0 where
    null : Value
    boolean : Bool → Value
    integer : ℤ → Value
    -- An `f64`, by its 64 bits.
    float : ℕ → Value
    -- `none`: a `str` with a lone surrogate, which `to_str` refuses.
    string : Option Text → Value
    dict : Entries → Value
    list : Values → Value
    tuple : Values → Value
    other : Value

  pub data Values : Type 0 where
    nil : Values
    cons : Value → Values → Values

  -- A dict's items in their order; a key is any object.
  pub data Entries : Type 0 where
    end : Entries
    entry : Value → Value → Entries → Entries
