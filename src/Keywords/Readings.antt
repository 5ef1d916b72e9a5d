-- ===== src/Keywords/Readings.antt =====
-- The keywords that read or judge the last reading of a session: those of
-- rf_hp34401a/legacy_library.py, or of rf_hp34401a/library.py where it overrides them.
-- They change nothing, so each is a function of the library to an answer.
use hp34401a_driver.Base.{Bool, not, ◌&&◌, ◌||◌, Option, none, some, if◌then◌else◌, is_some}
use hp34401a_driver.Float.{Float}
use hp34401a_driver.Measurement.{MeasurementReading, StableMeasurementResult}
use hp34401a_driver.Config.{zero_f}
use hp34401a_driver.Transport.{Transport}
use hp34401a_driver.Converters.{Arg, as_float}
use hp34401a_driver.Keywords.{
  Answer, done, robot, assertion_failed, untranslated, hp34401a_robot_error, driver_state_error,
  driver_validation_error, Library,
}

-- `f(x)` behind what answered `x`, unless that raised
abbrev pub then_answer : {A B : Type 0} → Answer A → (A → Answer B) → Answer B
then_answer (done a) f = f a
then_answer (robot c) f = robot c
then_answer assertion_failed f = assertion_failed
then_answer (untranslated e) f = untranslated e

-- A converter's DriverValidationError.
abbrev pub argument : {A : Type 0} → Option A → Answer A
argument none = robot driver_validation_error
argument (some a) = done a

abbrev pub assert : Bool → Answer (Unit {0})
assert b = if b then done tt else assertion_failed

-- The value of a reading that is valid and no overload, or `other`.
abbrev pub scalar_or : {F : Type 0} → Answer F → MeasurementReading F → Answer F
scalar_or other r =
    if not r.is_valid || r.is_overload
    then other
    else elim r.reading_value [ none ↦ other | some v ↦ done v ]

-- The limits of `dmm_reading_should_be_between`.
abbrev pub judge_between : (fl : Float) → fl.F → fl.F → fl.F → Answer (Unit {0})
judge_between fl v low high =
    if fl.lt high low then robot driver_validation_error else assert (fl.le low v && fl.le v high)

module _ {fl : Float} {T : Transport fl.F} where
  open fl use {F, lt, le}

  -- `get_last_dmm_reading`, as the reading in place of its dictionary
  unfoldable pub get_last_dmm_reading : Library fl T → Answer (MeasurementReading F)
  get_last_dmm_reading lib = elim lib.session [
    | none ↦ robot driver_state_error
    | some s ↦ elim s.last_reading [ none ↦ robot hp34401a_robot_error | some r ↦ done r ]
  ]

  unfoldable get_last_dmm_reading_value : Library fl T → Answer F
  get_last_dmm_reading_value lib =
      then_answer (get_last_dmm_reading lib) (scalar_or (robot hp34401a_robot_error))

  -- `_value_for_assertion`
  unfoldable pub value_for_assertion : Library fl T → Answer F
  value_for_assertion lib = then_answer (get_last_dmm_reading lib) (scalar_or assertion_failed)

  unfoldable dmm_reading_should_be_valid : Library fl T → Answer (Unit {0})
  dmm_reading_should_be_valid lib =
      then_answer (get_last_dmm_reading lib) (λ r. assert (r.is_valid && is_some r.reading_value))

  unfoldable dmm_reading_should_not_be_overload : Library fl T → Answer (Unit {0})
  dmm_reading_should_not_be_overload lib =
      then_answer (get_last_dmm_reading lib) (λ r. assert (not r.is_overload))

  unfoldable pub dmm_reading_should_be_between : Arg F → Arg F → Library fl T → Answer (Unit {0})
  dmm_reading_should_be_between minimum maximum lib = then_answer (value_for_assertion lib) (λ v.
      then_answer (argument (as_float fl minimum))
        (λ low. then_answer (argument (as_float fl maximum)) (judge_between fl v low)))

  -- `close` is `math.isclose`
  unfoldable dmm_reading_should_be_close_to :
      (F → F → F → F → Bool) → Arg F → Arg F → Arg F → Library fl T → Answer (Unit {0})
  dmm_reading_should_be_close_to close expected absolute relative lib =
      then_answer (value_for_assertion lib) (λ v.
        then_answer (argument (as_float fl expected)) (λ x.
          then_answer (argument (as_float fl absolute)) (λ a.
            then_answer (argument (as_float fl relative)) (λ r.
              if lt a (zero_f fl) || lt r (zero_f fl)
              then robot driver_validation_error
              else assert (close v x r a)))))

  unfoldable dmm_reading_should_be_greater_than : Arg F → Library fl T → Answer (Unit {0})
  dmm_reading_should_be_greater_than minimum lib =
      then_answer (value_for_assertion lib)
        (λ v. then_answer (argument (as_float fl minimum)) (λ limit. assert (lt limit v)))

  unfoldable dmm_reading_should_be_less_than : Arg F → Library fl T → Answer (Unit {0})
  dmm_reading_should_be_less_than maximum lib =
      then_answer (value_for_assertion lib)
        (λ v. then_answer (argument (as_float fl maximum)) (λ limit. assert (lt v limit)))

-- `stable_resistance_should_be_between`, of a result in place of its dictionary
unfoldable stable_resistance_should_be_between :
    (fl : Float) → StableMeasurementResult fl.F → Arg fl.F → Arg fl.F → Answer (Unit {0})
stable_resistance_should_be_between fl result minimum maximum =
    if not result.stable then assertion_failed else elim result.result_value [
      | none ↦ assertion_failed
      | some v ↦
          then_answer (argument (as_float fl minimum))
            (λ low. then_answer (argument (as_float fl maximum)) (judge_between fl v low))
    ]
