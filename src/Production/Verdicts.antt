-- ===== src/Production/Verdicts.antt =====
-- What a PASS is worth.
use hp34401a_driver.Base.{
  String, Bool, true, false, not, Option, none, some, ◌≡◌, refl, arith, if◌then◌else◌, inl, inr,
  Bool-cases, ◌⊎◌, ◌||◌,
}
use hp34401a_driver.Float.{Float}
use hp34401a_driver.Errors.{Error, Result, ok, err}
use hp34401a_driver.Measurement.{MeasurementReading, TestStepResult, pass, fail, error}
use hp34401a_driver.Transport.{Transport}
use hp34401a_driver.Driver.{Driver}
use hp34401a_driver.Driver.Read.Sound.{IsSound}
use hp34401a_driver.Production.Taken.{Taken, TakenIfOk, take_reading-Taken}
use hp34401a_driver.Production.{
  TestStep, below, above, check_limits, judge, step_result, is_caught, take_reading,
  run_measurement_step,
}

module _ (fl : Float) (T : Transport fl.F) where
  open fl use {F}

  -- A reading that meets the limits of a step: taken for it, a number from the response itself, no
  -- overload, not below the one limit and not above the other.
  pub record Meets (step : TestStep F) (r : MeasurementReading F) : Type 0 where
    pub measured : F
    pub taken : Taken fl T step r
    pub sound : IsSound fl r
    pub has_value : r.reading_value ≡ some measured
    pub no_overload : r.is_overload ≡ false
    pub valid : r.is_valid ≡ true
    pub not_below : below fl measured step.lower_limit ≡ false
    pub not_above : above fl measured step.upper_limit ≡ false

  limits_met :
      (x : F) (lower upper : Option F)
      → check_limits fl (some x) lower upper ≡ pass
      → (below fl x lower ≡ false) × (above fl x upper ≡ false)
  unfolding check_limits
  limits_met x lower upper h = ground arith

  judged :
      (over valid : Bool) (o lower upper : Option F)
      → (if over || not valid then fail else check_limits fl o lower upper) ≡ pass
      → (over ≡ false)
        × (valid ≡ true)
        × (x : F) × (o ≡ some x)
        × (below fl x lower ≡ false)
        × (above fl x upper ≡ false)
  unfolding check_limits
  judged true valid o lower upper h = ground arith
  judged false false o lower upper h = ground arith
  judged false true none lower upper h = ground arith
  judged false true (some x) lower upper h =
      let (low, high) = limits_met x lower upper h in (refl, refl, x, refl, low, high)

  judge-Meets :
      (step : TestStep F) (r : MeasurementReading F)
      → IsSound fl r
      → Taken fl T step r
      → judge fl step r ≡ pass
      → Meets step r
  unfolding judge
  judge-Meets step r s t h =
      let (over, good, x, e, low, high) =
        judged r.is_overload r.is_valid r.reading_value step.lower_limit step.upper_limit h in
      record {
        measured = x;
        taken = t;
        sound = s;
        has_value = e;
        no_overload = over;
        valid = good;
        not_below = low;
        not_above = high;
      }

  -- The verdict of a step's result, and what it rests on.
  pub data Earned (step : TestStep F) (result : TestStepResult F) : Type 0 where
    failed : result.pass_fail ≡ fail → Earned step result
    errored : result.pass_fail ≡ error → result.reading ≡ none → Earned step result
    passed :
        (r : MeasurementReading F)
        → result.pass_fail ≡ pass
        → result.reading ≡ some r
        → Meets step r
        → Earned step result

  check_limits-two :
      (o lower upper : Option F)
      → (check_limits fl o lower upper ≡ pass) ⊎ (check_limits fl o lower upper ≡ fail)
  unfolding check_limits
  check_limits-two none lower upper = inr refl
  check_limits-two (some x) lower upper = ground arith

  judge-two :
      (step : TestStep F) (r : MeasurementReading F)
      → (judge fl step r ≡ pass) ⊎ (judge fl step r ≡ fail)
  unfolding judge
  judge-two step r = elim (Bool-cases (r.is_overload || not r.is_valid)) [
    | inl e ↦ rw e (inr refl)
    | inr e ↦ rw e (check_limits-two r.reading_value step.lower_limit step.upper_limit)
  ]

  step_result-Earned :
      (step : TestStep F) (dut station : String) (r : MeasurementReading F)
      → IsSound fl r
      → Taken fl T step r
      → Earned step (step_result fl step dut station (some r) (judge fl step r) none)
  step_result-Earned step dut station r s t = elim (judge-two step r) [
    | inl e ↦ passed r e refl (judge-Meets step r s t e)
    | inr e ↦ failed e
  ]

module _ {fl : Float} {T : Transport fl.F} where
  open fl use {F}

  -- What a call of `run_measurement_step` gives.
  abbrev pub EarnedIfOk : TestStep F → Result (TestStepResult F) × Driver fl T → Type 0
  EarnedIfOk step (ok result, d) = Earned fl T step result
  EarnedIfOk step (err e, d) = Unit

  caught :
      (step : TestStep F) (dut station : String) (e : Error) (b : Bool) (d : Driver fl T)
      → EarnedIfOk step
          (if b then (ok (step_result fl step dut station none error (some e)), d) else (err e, d))
  caught step dut station e true d = errored refl refl
  caught step dut station e false d = tt

  after_take :
      (step : TestStep F) (dut station : String) (p : Result (MeasurementReading F) × Driver fl T)
      → TakenIfOk step p
      → EarnedIfOk step (elim p.0 [
        | ok reading ↦
            (ok (step_result fl step dut station (some reading) (judge fl step reading) none), p.1)
        | err e ↦
            if is_caught e
            then (ok (step_result fl step dut station none error (some e)), p.1)
            else (err e, p.1)
      ])
  after_take step dut station (ok r, d) h = step_result-Earned fl T step dut station r h.0 h.1
  after_take step dut station (err e, d) h = caught step dut station e (is_caught e) d

  pub run_measurement_step-EarnedIfOk :
      (step : TestStep F) (dut station : String) (d : Driver fl T)
      → EarnedIfOk step (run_measurement_step step dut station d)
  unfolding run_measurement_step
  run_measurement_step-EarnedIfOk step dut station d =
      after_take step dut station (take_reading step d) (take_reading-Taken step d)
