-- ===== src/Keywords/Device.antt =====
-- The keywords of rf_hp34401a/legacy_library.py on the device itself: its identity, self-test,
-- health, error queue and terminals, the triggers, and the readings that it has stored.
pub mod Queue
use hp34401a_driver.Base.{String, Bool, not, Option, none, some, List, [], ◌∷◌, any, if◌then◌else◌}
use hp34401a_driver.Base.Int.{pos, pos_part}
use hp34401a_driver.Base.Text.{codes, upper, contains}
use hp34401a_driver.Float.{Float}
use hp34401a_driver.Enums.{InputTerminal, CommandState}
use hp34401a_driver.Errors.{Result, ok, err}
use hp34401a_driver.Measurement.{
  MeasurementReading, Identity, SelfTestResult, ErrorRecord, is_no_error, HealthReport,
  RecoveryReport,
}
use hp34401a_driver.Transport.{Transport}
use hp34401a_driver.Converters.{Arg, int, MemberOr, as_int, as_terminal}
use hp34401a_driver.Driver.{Driver}
use hp34401a_driver.Driver.Status.{
  is_connected, read_error, drain_error_queue, assert_no_error, identify, self_test, clear_status,
  heartbeat, query_terminal, require_terminal,
}
use hp34401a_driver.Driver.Settings.{recover}
use hp34401a_driver.Driver.Bus.{initiate, trigger_bus, fetch}
use hp34401a_driver.Keywords.{
  Raised, returned, Answer, done, robot, assertion_failed, untranslated, hp34401a_robot_error,
  driver_state_error, Session, Library, call, converted, with_session, on_driver, execute,
}
use hp34401a_driver.Keywords.Readings.{then_answer, assert}

-- `readings[-1]`, or what was there
abbrev last_or : {A : Type 0} → Option A → List A → Option A
last_or o [] = o
last_or o (x ∷ xs) = last_or (some x) xs

-- A keyword that judges what another one returned.
abbrev pub judged : {A B L : Type 0} → Answer A × L → (A → Answer B) → Answer B × L
judged (a, lib) f = (then_answer a f, lib)

-- The next keyword, unless the one before it raised.
abbrev after_done : {A B L : Type 0} → Answer A × L → (L → Answer B × L) → Answer B × L
after_done (done _, lib) f = f lib
after_done (robot c, lib) f = (robot c, lib)
after_done (assertion_failed, lib) f = (assertion_failed, lib)
after_done (untranslated e, lib) f = (untranslated e, lib)

abbrev pub is_real : ErrorRecord → Bool
is_real r = not (is_no_error r)

module _ {fl : Float} {T : Transport fl.F} where
  open fl use {F}

  unfoldable identify_dmm : Library fl T → Answer Identity × Library fl T
  identify_dmm = on_driver (call identify)

  unfoldable dmm_model_should_be_34401a : Library fl T → Answer (Unit {0}) × Library fl T
  dmm_model_should_be_34401a lib =
      judged (identify_dmm lib) (λ i. assert (contains (codes "34401A") (upper i.model)))

  unfoldable run_dmm_self_test : Library fl T → Answer SelfTestResult × Library fl T
  run_dmm_self_test = on_driver (call self_test)

  unfoldable dmm_self_test_should_pass : Library fl T → Answer (Unit {0}) × Library fl T
  dmm_self_test_should_pass lib = judged (run_dmm_self_test lib) (λ r. assert r.passed)

  unfoldable get_dmm_health : Library fl T → Answer HealthReport × Library fl T
  get_dmm_health = on_driver (call heartbeat)

  unfoldable recover_dmm : Library fl T → Answer RecoveryReport × Library fl T
  recover_dmm = on_driver (call recover)

  unfoldable clear_dmm_status : Library fl T → Answer (Unit {0}) × Library fl T
  clear_dmm_status = on_driver (call clear_status)

  unfoldable read_dmm_error : Library fl T → Answer ErrorRecord × Library fl T
  read_dmm_error = on_driver (call read_error)

  -- A count below zero reads nothing.
  pub get_dmm_error_queue : Arg F → Library fl T → Answer (List ErrorRecord) × Library fl T
  get_dmm_error_queue max_errors =
      on_driver (converted (as_int fl max_errors) (λ n. call (drain_error_queue (pos_part n))))

  pub dmm_error_queue_should_be_empty : Library fl T → Answer (Unit {0}) × Library fl T
  dmm_error_queue_should_be_empty lib =
      judged (get_dmm_error_queue (int (pos 25)) lib) (λ found. assert (not (any is_real found)))

  unfoldable clear_device_errors : Library fl T → Answer (Unit {0}) × Library fl T
  clear_device_errors lib =
      judged (after_done (clear_dmm_status lib) (get_dmm_error_queue (int (pos 25)))) (λ _. done tt)

  unfoldable get_dmm_input_terminal : Library fl T → Answer InputTerminal × Library fl T
  get_dmm_input_terminal = on_driver (call query_terminal)

  unfoldable require_dmm_input_terminal :
      MemberOr InputTerminal F → Library fl T → Answer (Unit {0}) × Library fl T
  require_dmm_input_terminal expected =
      on_driver (converted (as_terminal fl expected) (λ t. call (require_terminal t)))

  unfoldable dmm_should_be_connected : Library fl T → Answer (Unit {0})
  dmm_should_be_connected lib = elim lib.session [
    | none ↦ robot driver_state_error
    | some s ↦ if not (is_connected s.driver) then robot hp34401a_robot_error else done tt
  ]

  unfoldable get_dmm_state : Library fl T → Answer CommandState
  get_dmm_state lib = elim lib.session [
    | none ↦ robot driver_state_error
    | some s ↦ done s.driver.state
  ]

  unfoldable dmm_should_have_no_errors : String → Library fl T → Answer (Unit {0}) × Library fl T
  dmm_should_have_no_errors context = on_driver (call (assert_no_error context))

  unfoldable initiate_dmm_measurement : Library fl T → Answer (Unit {0}) × Library fl T
  initiate_dmm_measurement = on_driver (call initiate)

  unfoldable send_dmm_bus_trigger : Library fl T → Answer (Unit {0}) × Library fl T
  send_dmm_bus_trigger = on_driver (call trigger_bus)

  abbrev with_last : Raised (List (MeasurementReading F)) → Session fl T → Session fl T
  with_last (returned rs) s = record s { last_reading = last_or s.last_reading rs }
  with_last _ s = s

  unfoldable fetch_dmm_readings : Library fl T → Answer (List (MeasurementReading F)) × Library fl T
  fetch_dmm_readings =
      with_session (λ s.
        let (r, d) = call fetch s.driver in (execute r, with_last r (record s { driver = d })))
