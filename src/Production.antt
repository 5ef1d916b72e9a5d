-- ===== src/Production.antt =====
-- hp34401a_dmm/production.py: the test steps of a production line, their limits and verdicts. The
-- start and finish times of the results are left out.
pub mod Taken
pub mod Verdicts
pub mod Sequence
use hp34401a_driver.Base.{
  ℕ, String, Bool, true, false, not, ◌||◌, Option, none, some, List, [], ◌∷◌, if◌then◌else◌, ap,
}
use hp34401a_driver.Float.{Float}
use hp34401a_driver.Enums.{
  MeasurementFunction, volt_dc, volt_ac, curr_dc, res_2w, res_4w, InputTerminal, Nplc, hz20, Range,
}
use hp34401a_driver.Errors.{Error, Result, ok, err, base, value_error, os_error, is_hp_error}
use hp34401a_driver.Measurement.{
  MeasurementReading, TestStepResult, TestSequenceResult, Verdict, pass, fail, error,
}
use hp34401a_driver.Transport.{Transport}
use hp34401a_driver.Driver.{Driver, M, pure, raise, ◌>>=◌, ◌>>◌}
use hp34401a_driver.Driver.Status.{require_terminal}
use hp34401a_driver.Driver.Read.{
  measure_dc_voltage, measure_ac_voltage, measure_dc_current, measure_2wire_resistance,
  measure_4wire_resistance,
}

pub record TestStep (F : Type 0) : Type 0 where
  pub name : String
  pub function : MeasurementFunction
  pub range_value : Range F
  pub nplc : Nplc
  pub lower_limit : Option F
  pub upper_limit : Option F
  pub required_terminal : Option InputTerminal

pub record TestSequence (F : Type 0) : Type 0 where
  pub name : String
  pub steps : List (TestStep F)

-- `except (Hp34401AError, ValueError, OSError)`
abbrev pub is_caught : Error → Bool
is_caught value_error = true
is_caught os_error = true
is_caught e = is_hp_error e

module _ (fl : Float) where
  open fl use {F, lt}

  -- `lower is not None and value < lower`
  abbrev pub below : F → Option F → Bool
  below x none = false
  below x (some lower) = lt x lower

  -- `upper is not None and value > upper`
  abbrev pub above : F → Option F → Bool
  above x none = false
  above x (some upper) = lt upper x

  unfoldable pub check_limits : Option F → Option F → Option F → Verdict
  check_limits none lower upper = fail
  check_limits (some x) lower upper =
      if below x lower then fail else if above x upper then fail else pass

  -- The verdict on a reading.
  unfoldable pub judge : TestStep F → MeasurementReading F → Verdict
  judge step reading =
      if reading.is_overload || not reading.is_valid
      then fail
      else check_limits reading.reading_value step.lower_limit step.upper_limit

  -- `retry_count` and `reconnect_count` of a step without a reading are 0
  abbrev pub step_result :
      TestStep F
      → String
      → String
      → Option (MeasurementReading F)
      → Verdict
      → Option Error
      → TestStepResult F
  step_result step dut station reading verdict failure = record {
    dut_id = dut;
    station_id = station;
    step_name = step.name;
    reading = reading;
    pass_fail = verdict;
    lower_limit = step.lower_limit;
    upper_limit = step.upper_limit;
    step_error = failure;
    retry_count = elim reading [ none ↦ 0 | some r ↦ r.retry_count ];
    reconnect_count = elim reading [ none ↦ 0 | some r ↦ r.reconnect_count ];
  }

module _ {fl : Float} {T : Transport fl.F} where
  open fl use {F}

  abbrev pub require_if : Option InputTerminal → M fl T (Unit {0})
  require_if none = pure tt
  require_if (some expected) = require_terminal expected

  -- `_CONFIGURE_DISPATCH` and the call through it
  abbrev pub dispatch : MeasurementFunction → Range F → Nplc → M fl T (MeasurementReading F)
  dispatch volt_dc range nplc = measure_dc_voltage range nplc
  dispatch volt_ac range nplc = measure_ac_voltage range hz20
  dispatch curr_dc range nplc = measure_dc_current range nplc
  dispatch res_2w range nplc = measure_2wire_resistance range nplc
  dispatch res_4w range nplc = measure_4wire_resistance range nplc
  dispatch _ range nplc = raise base

  -- The `try` of `run_measurement_step`, up to the reading.
  unfoldable pub take_reading : TestStep F → M fl T (MeasurementReading F)
  take_reading step = do
    require_if step.required_terminal
    dispatch step.function step.range_value step.nplc

  unfoldable pub run_measurement_step : TestStep F → String → String → M fl T (TestStepResult F)
  run_measurement_step step dut station d =
      let (r, d') = take_reading step d in
      elim r [
        | ok reading ↦
            (ok (step_result fl step dut station (some reading) (judge fl step reading) none), d')
        | err e ↦
            if is_caught e
            then (ok (step_result fl step dut station none error (some e)), d')
            else (err e, d')
      ]

  -- The loop of `run_sequence`.
  unfoldable pub run_steps : List (TestStep F) → String → String → M fl T (List (TestStepResult F))
  run_steps [] dut station = pure []
  run_steps (step ∷ steps) dut station = do
    result ← run_measurement_step step dut station
    results ← run_steps steps dut station
    pure (result ∷ results)

  unfoldable pub run_sequence : TestSequence F → String → String → M fl T (TestSequenceResult F)
  run_sequence sequence dut station = do
    results ← run_steps sequence.steps dut station
    pure (record { dut_id = dut; station_id = station; step_results = results })
