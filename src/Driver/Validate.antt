-- ===== src/Driver/Validate.antt =====
-- `_validate_range`, `_validate_counts` and `_num` of hp34401a_dmm/legacy_driver.py.
use hp34401a_driver.Base.{String, Bool, true, not, Option, none, some, List, any, if◌then◌else◌}
use hp34401a_driver.Base.Int.{ℤ, pos, negsuc, ltb_ℤ, ◌*ℤ◌}
use hp34401a_driver.Base.Show.{show_ℤ}
use hp34401a_driver.Float.{Float}
use hp34401a_driver.Enums.{
  MeasurementFunction, Range, value, token, auto, auto_range_value, AutoRange, range_table,
  max_count, max_internal_readings,
}
use hp34401a_driver.Errors.{Result, ok, err, value_error, other}
use hp34401a_driver.Driver.Estimate.{max_f}

module _ (fl : Float) where
  open fl use {F, le, eq, sub, mul, abs, lit, of_int, truncate, is_finite, repr}

  -- `abs(range_value - r) <= 1e-9 * max(1.0, r)`
  unfoldable pub is_close : F → F → Bool
  is_close x r =
      le (abs (sub x r)) (mul (lit (pos 1) (negsuc 8)) (max_f fl (lit (pos 1) (pos 0)) r))

  abbrev pub in_table : Option (List F) → F → Bool
  in_table none x = true
  in_table (some table) x = any (is_close x) table

  -- `str(int(x))` of a whole number, else `repr(x)`
  unfoldable pub num : F → String
  num x = if eq x (of_int (truncate x)) then show_ℤ (truncate x) else repr x

  -- AUTO is sent as DEF.
  unfoldable pub range_token : AutoRange → String
  range_token auto = "DEF"
  range_token t = auto_range_value t

  -- `int(range_value)` raises on an infinity or a NaN.
  unfoldable pub validate_range : MeasurementFunction → Range F → Result String
  validate_range function (token t) = ok (range_token t)
  validate_range function (value x) =
      if not (in_table (range_table fl function) x)
      then err value_error
      else if is_finite x
      then ok (num x)
      else err other

-- the two rounds of the loop of `_validate_counts`
abbrev count_in_range : ℤ → Result (Unit {0})
count_in_range n =
    if ltb_ℤ n (pos 1)
    then err value_error
    else if ltb_ℤ (pos max_count) n
    then err value_error
    else ok tt

unfoldable validate_counts : ℤ → ℤ → Result (Unit {0})
validate_counts samples triggers = elim (count_in_range samples) [
  | err e ↦ err e
  | ok _ ↦ elim (count_in_range triggers) [
    | err e ↦ err e
    | ok _ ↦
        if ltb_ℤ (pos max_internal_readings) (samples *ℤ triggers) then err value_error else ok tt
  ]
]
