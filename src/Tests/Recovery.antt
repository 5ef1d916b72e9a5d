-- ===== src/Tests/Recovery.antt =====
-- Tests of recovery, the error queue, connecting and the runtime policy.
use hp34401a_driver.Base.{false, none, some, List, [], ◌∷◌, ◌≡◌, refl}
use hp34401a_driver.Base.Int.{ℤ, pos, negsuc}
use hp34401a_driver.Enums.{volt_dc, plc10, on, range_table}
use hp34401a_driver.Errors.{err, value_error}
use hp34401a_driver.Measurement.{ErrorRecord}
use hp34401a_driver.Parser.{parse_error}
use hp34401a_driver.Transport.{Laws}
use hp34401a_driver.Driver.{init}
use hp34401a_driver.Driver.Guard.{
  guard_safety, is_cal_command, is_rwlock_command, should_retry_timeout_query,
}
use hp34401a_driver.Driver.Raw.{write, query, attempt, send_query, transport_recover}
use hp34401a_driver.Driver.Validate.{is_close}
use hp34401a_driver.Driver.Status.{read_error, drain_error_queue}
use hp34401a_driver.Driver.Settings.{recover}
use hp34401a_driver.Driver.Settings.Rejected.{recover_raises}
use hp34401a_driver.Driver.Status.Queue.{Drained, drain_error_queue-Drained}
use hp34401a_driver.Driver.Connect.{connect}
use hp34401a_driver.Driver.Connect.Outcome.{Settled, connect-Settled}
use hp34401a_driver.Driver.Policy.{RuntimePolicy}
use hp34401a_driver.Tests.Fixtures.{
  whole, scripted, open_script, config, ready_driver, rejected_driver,
}

recover_raises_example :
    (recover (rejected_driver ("stale" ∷ "+0,\"No error\"" ∷ []))).0 ≡ err value_error
unfolding transport_recover range_table is_close drain_error_queue read_error parse_error query
    attempt send_query should_retry_timeout_query write guard_safety is_cal_command
    is_rwlock_command
recover_raises_example =
    recover_raises volt_dc (pos 11) (some plc10) on none
      (rejected_driver ("stale" ∷ "+0,\"No error\"" ∷ [])) refl refl refl

abbrev two_records : List ErrorRecord
two_records =
    record { code = negsuc 112; message = "Undefined header"; raw = "-113,\"Undefined header\"" }
    ∷ record { code = pos 0; message = "No error"; raw = "+0,\"No error\"" }
    ∷ []

drain_error_queue-Drained_example : Drained 25 two_records
unfolding drain_error_queue read_error parse_error query attempt send_query
    should_retry_timeout_query write guard_safety is_cal_command is_rwlock_command
drain_error_queue-Drained_example =
    drain_error_queue-Drained 25
      (ready_driver ("-113,\"Undefined header\"" ∷ "+0,\"No error\"" ∷ [])) two_records refl

scripted-Laws : Laws scripted
scripted-Laws = record { closed = λ s. refl; timeout_keeps_open = λ x s. refl }

connect-Settled_example :
    Settled (connect (init whole scripted (open_script ("FLUKE,45" ∷ [])) config))
connect-Settled_example =
    connect-Settled scripted-Laws (init whole scripted (open_script ("FLUKE,45" ∷ [])) config)

abbrev policy : RuntimePolicy ℤ
policy = record {
  communication_timeout_s = some (some (pos 8));
  self_test_timeout_s = none;
  long_measurement_timeout_s = none;
  retry_queries = some false;
  max_query_retries = some (negsuc 0);
  allow_calibration_commands = none;
  raw_traffic_log = none;
}
