-- ===== src/Json.antt =====
-- JSON values, as a text of JSON denotes them. A field of raw JSON (`*apiextensionsv1.JSON`) is the
-- value of its bytes. `encoding/json` makes a `float64` of a number, which is a parameter where it
-- matters.
use servicer.Prelude.{ℕ, ℤ, String, Bool}

-- A number's text: a sign, digits and a power of ten; `-1.50` is `-150` and `-2`.
pub record Number : Type 0 where
  pub negative : Bool
  pub digits : ℕ
  pub exponent : ℤ

mutual
  pub data Json : Type 0 where
    null : Json
    bool : Bool → Json
    num : Number → Json
    str : String → Json
    arr : Items → Json
    obj : Fields → Json

  pub data Items : Type 0 where
    nil : Items
    cons : Json → Items → Items

  pub data Fields : Type 0 where
    end : Fields
    field : String → Json → Fields → Fields
