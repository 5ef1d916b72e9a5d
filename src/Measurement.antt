-- ===== src/Measurement.antt =====
-- hp34401a_dmm/measurement.py: identities, readings, errors and results. `F` is Python's float.
-- Wall-clock stamps are left out; a report's `message` is the exception whose text it is.
use hp34401a_driver.Base.{ℕ, String, Bool, true, false, Option, List, any, if◌then◌else◌}
use hp34401a_driver.Base.Int.{ℤ, pos, eqb_ℤ}
use hp34401a_driver.Enums.{MeasurementFunction, InputTerminal, TransportType, CommandState}
use hp34401a_driver.Errors.{Error}

pub record Identity : Type 0 where
  pub manufacturer : String
  pub model : String
  pub serial : Option String
  pub firmware : Option String
  pub raw : String

pub record SelfTestResult : Type 0 where
  pub passed : Bool
  pub code : ℤ
  pub raw : String
  pub message : String

pub record ErrorRecord : Type 0 where
  pub code : ℤ
  pub message : String
  pub raw : String

-- `ErrorRecord.is_no_error`
abbrev pub is_no_error : ErrorRecord → Bool
is_no_error r = eqb_ℤ r.code (pos 0)

pub record MeasurementReading (F : Type 0) : Type 0 where
  pub monotonic_s : F
  pub function : MeasurementFunction
  pub reading_value : Option F
  pub unit_text : String
  pub raw : String
  pub range_value : Option F
  pub nplc : Option F
  pub aperture_s : Option F
  pub is_overload : Bool
  pub is_valid : Bool
  pub was_retried : Bool
  pub retry_count : ℕ
  pub reconnect_count : ℕ
  pub recovery_actions : List String
  pub terminal : Option InputTerminal
  pub transport : TransportType

pub record HealthReport : Type 0 where
  pub connected : Bool
  pub identity : Option Identity
  pub error_queue_clean : Bool
  pub pending_errors : List ErrorRecord
  pub state : CommandState
  pub message : Option Error

pub record RecoveryReport : Type 0 where
  pub succeeded : Bool
  pub actions : List String
  pub final_state : CommandState
  pub message : Option Error

-- The texts of `StableMeasurementResult.reason`, with the numbers that they quote: those of a window
-- that is not stable yet, and those of a result.
pub data WindowReason (F : Type 0) : Type 0 where
  no_samples stable_window : WindowReason F
  stdev_above relative_stdev_above slope_above : F → F → WindowReason F

pub data StableReason (F : Type 0) : Type 0 where
  stable_reading overload_rejected final_overload : StableReason F
  not_in_time : F → WindowReason F → StableReason F

pub record StableMeasurementResult (F : Type 0) : Type 0 where
  pub stable : Bool
  pub result_value : Option F
  pub unit_text : String
  pub samples : List F
  pub stdev : Option F
  pub relative_stdev : Option F
  pub slope_relative_per_s : Option F
  pub elapsed_s : F
  pub reason : StableReason F
  pub reading : Option (MeasurementReading F)

pub data Verdict : Type 0 where
  pass fail error skipped : Verdict

abbrev pub is_error : Verdict → Bool
is_error error = true
is_error _ = false

abbrev pub is_fail : Verdict → Bool
is_fail fail = true
is_fail _ = false

pub record TestStepResult (F : Type 0) : Type 0 where
  pub dut_id : String
  pub station_id : String
  pub step_name : String
  pub reading : Option (MeasurementReading F)
  pub pass_fail : Verdict
  pub lower_limit : Option F
  pub upper_limit : Option F
  pub step_error : Option Error
  pub retry_count : ℕ
  pub reconnect_count : ℕ

pub record TestSequenceResult (F : Type 0) : Type 0 where
  pub dut_id : String
  pub station_id : String
  pub step_results : List (TestStepResult F)

-- `TestSequenceResult.pass_fail`
unfoldable pub sequence_verdict : {F : Type 0} → TestSequenceResult F → Verdict
sequence_verdict r =
    if any (λ s. is_error s.pass_fail) r.step_results
    then error
    else if any (λ s. is_fail s.pass_fail) r.step_results
    then fail
    else pass
