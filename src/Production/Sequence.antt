-- ===== src/Production/Sequence.antt =====
-- What the verdict of a whole sequence is worth.
use hp34401a_driver.Base.{false, some, List, [], ◌∷◌, ◌≡◌, any}
use hp34401a_driver.Float.{Float}
use hp34401a_driver.Errors.{Result, ok, err}
use hp34401a_driver.Measurement.{
  MeasurementReading, TestStepResult, TestSequenceResult, is_error, is_fail,
}
use hp34401a_driver.Transport.{Transport}
use hp34401a_driver.Driver.{Driver}
use hp34401a_driver.Production.{TestStep}
use hp34401a_driver.Production.Verdicts.{Meets, Earned}

module _ (fl : Float) (T : Transport fl.F) where
  open fl use {F}

  -- One earned verdict for each step, in the order of the steps.
  pub data AllEarned : List (TestStep F) → List (TestStepResult F) → Type 0 where
    none_left : AllEarned [] []
    earned :
        (step : TestStep F) (result : TestStepResult F) (steps : List (TestStep F))
        (results : List (TestStepResult F))
        → Earned fl T step result
        → AllEarned steps results
        → AllEarned (step ∷ steps) (result ∷ results)

  -- One reading within the limits for each step, in the order of the steps.
  pub data AllMeet : List (TestStep F) → List (TestStepResult F) → Type 0 where
    none_left : AllMeet [] []
    meets :
        (step : TestStep F) (result : TestStepResult F) (steps : List (TestStep F))
        (results : List (TestStepResult F)) (r : MeasurementReading F)
        → result.reading ≡ some r
        → Meets fl T step r
        → AllMeet steps results
        → AllMeet (step ∷ steps) (result ∷ results)

  -- No step in error and none failed.
  abbrev AllPass : List (TestStepResult F) → Type 0
  AllPass results =
      (any (λ s. is_error s.pass_fail) results ≡ false)
      × (any (λ s. is_fail s.pass_fail) results ≡ false)

module _ {fl : Float} {T : Transport fl.F} where
  open fl use {F}

  abbrev AllEarnedIfOk : List (TestStep F) → Result (List (TestStepResult F)) × Driver fl T → Type 0
  AllEarnedIfOk steps (ok results, d) = AllEarned fl T steps results
  AllEarnedIfOk steps (err e, d) = Unit

  abbrev SequenceEarned : List (TestStep F) → Result (TestSequenceResult F) × Driver fl T → Type 0
  SequenceEarned steps (ok result, d) = AllEarned fl T steps result.step_results
  SequenceEarned steps (err e, d) = Unit
