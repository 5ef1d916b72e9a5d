-- ===== src/Float.antt =====
-- Python's `float`, as a parameter: IEEE arithmetic is not modelled, and no law is assumed here.
-- A theorem that needs a law of the comparison names it as a hypothesis.
use hp34401a_driver.Base.{String, Bool, Option, List}
use hp34401a_driver.Base.Int.{ℤ}

pub record Float : Type 1 where
  pub F : Type 0
  -- `float(text)`; `none` is a ValueError
  pub parse : String → Option F
  -- the literal m·10^e
  pub lit : ℤ → ℤ → F
  -- `<`, `<=`, `==`, which all fail at a NaN
  pub lt : F → F → Bool
  pub le : F → F → Bool
  pub eq : F → F → Bool
  pub add : F → F → F
  pub sub : F → F → F
  pub mul : F → F → F
  pub div : F → F → F
  pub abs : F → F
  pub of_int : ℤ → F
  -- `int(x)` and `round(x)`, both of a finite value
  pub truncate : F → ℤ
  pub round : F → ℤ
  pub is_finite : F → Bool
  pub repr : F → String
  -- `statistics.pstdev` of two values or more, and `float("inf")`
  pub pstdev : List F → F
  -- the built-in `sum`, whose rounding depends on the version of Python
  pub sum : List F → F
  pub inf : F
