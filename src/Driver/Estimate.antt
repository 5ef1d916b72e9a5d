-- ===== src/Driver/Estimate.antt =====
-- `estimate_measurement_timeout_s` of hp34401a_dmm/legacy_driver.py.
use hp34401a_driver.Base.{ℕ, ◌*◌, ◌||◌, Option, none, some, if◌then◌else◌, ◌==◌}
use hp34401a_driver.Base.Int.{pos, negsuc}
use hp34401a_driver.Float.{Float}
use hp34401a_driver.Enums.{MeasurementFunction, volt_ac, curr_ac, AutozeroMode, off}

module _ (fl : Float) where
  open fl use {F, lt, add, mul, div, lit, of_int}

  -- Python's `max(a, b)`
  abbrev pub max_f : F → F → F
  max_f a b = if lt a b then b else a

  abbrev known_line_frequency : ℕ → ℕ
  known_line_frequency hz = if hz == 50 || hz == 60 then hz else 50

  -- The integration time of one reading.
  per_reading : Option F → Option F → Option F → ℕ → F
  per_reading (some nplc) aperture filter hz = div nplc (of_int (pos hz))
  per_reading none (some aperture) filter hz = aperture
  per_reading none none (some filter) hz =
      max_f (lit (pos 6) (negsuc 0)) (div (lit (pos 7) (pos 0)) filter)
  per_reading none none none hz = lit (pos 1) (negsuc 0)

  autozero_factor : AutozeroMode → F
  autozero_factor off = lit (pos 1) (pos 0)
  autozero_factor _ = lit (pos 2) (pos 0)

  settling_margin_s : MeasurementFunction → F
  settling_margin_s volt_ac = lit (pos 1) (pos 0)
  settling_margin_s curr_ac = lit (pos 1) (pos 0)
  settling_margin_s _ = lit (pos 5) (negsuc 0)

  unfoldable pub estimate_measurement_timeout_s :
      MeasurementFunction → Option F → Option F → ℕ → ℕ → F → Option F → ℕ → AutozeroMode → F → F
  unfolding per_reading autozero_factor settling_margin_s
  estimate_measurement_timeout_s function nplc aperture samples triggers delay filter hz autozero
        margin =
      let reading = per_reading nplc aperture filter (known_line_frequency hz) in
      add
        (add
          (add margin
            (mul (mul (of_int (pos (samples * triggers))) reading) (autozero_factor autozero)))
          (mul delay (of_int (pos triggers))))
        (settling_margin_s function)

  -- the default of `margin_s`
  abbrev pub default_margin_s : F
  default_margin_s = lit (pos 2) (pos 0)
