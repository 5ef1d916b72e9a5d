-- ===== src/Tests/Readings.antt =====
-- Tests of readings and of the sequences of a production line.
use hp34401a_driver.Base.{true, false, none, some, [], ◌∷◌, ◌≡◌, refl}
use hp34401a_driver.Base.Int.{ℤ, pos}
use hp34401a_driver.Base.Text.{ends_with, split, strip, rstrip, lstrip, is_space}
use hp34401a_driver.Enums.{
  volt_dc, value, plc10, visa_gpib, connected_remote, overload_threshold, unit,
}
use hp34401a_driver.Errors.{err, protocol}
use hp34401a_driver.Measurement.{MeasurementReading, TestSequenceResult, pass}
use hp34401a_driver.Parser.{
  or_garbled, parse_reading_list, parse_float, fields, float_all, is_overload,
}
use hp34401a_driver.Driver.Guard.{
  guard_safety, is_cal_command, is_rwlock_command, should_retry_timeout_query,
}
use hp34401a_driver.Driver.Raw.{write, query, attempt, send_query}
use hp34401a_driver.Driver.Read.{
  read_once, do_read, ready, read_or_retry, finish_reading, build_reading,
}
use hp34401a_driver.Parser.Readings.{read_fields, parse_reading_list-eq}
use hp34401a_driver.Driver.Read.Sound.{IsSound}
use hp34401a_driver.Driver.Read.Measured.{Comes, read_once-Returns}
use hp34401a_driver.Driver.Bus.{
  read_once_bus, read_query, set_trigger_source, initiate, trigger_bus, fetch,
}
use hp34401a_driver.Driver.Bus.Flow.{read_query-after-read_once_bus}
use hp34401a_driver.Production.{TestStep, TestSequence, step_result}
use hp34401a_driver.Tests.Fixtures.{whole, ready_driver}

-- The reading that the answer "7" gives.
abbrev pub seven : MeasurementReading ℤ
seven = record {
  monotonic_s = pos 0;
  function = volt_dc;
  reading_value = some (pos 7);
  unit_text = "V";
  raw = "7";
  range_value = none;
  nplc = none;
  aperture_s = none;
  is_overload = false;
  is_valid = true;
  was_retried = false;
  retry_count = 0;
  reconnect_count = 0;
  recovery_actions = [];
  terminal = none;
  transport = visa_gpib;
}

read_once-Returns_example :
    IsSound whole seven
    × Comes (ready_driver ("7" ∷ [])) seven (read_once (ready_driver ("7" ∷ []))).1.t
    × ((read_once (ready_driver ("7" ∷ []))).1.state ≡ connected_remote)
unfolding read_once do_read ready read_or_retry finish_reading parse_reading_list parse_float
    ends_with fields split strip rstrip lstrip is_space build_reading is_overload float_all write
    guard_safety is_cal_command is_rwlock_command query attempt should_retry_timeout_query
    send_query unit overload_threshold
read_once-Returns_example = read_once-Returns (ready_driver ("7" ∷ [])) seven refl

read_query-after-read_once_bus_example :
    let after = (read_once_bus (ready_driver ("7" ∷ []))).1 in
    (read_query after ≡ (err protocol, after))
    × (read_query (do_read after).1 ≡ (err protocol, (do_read after).1))
unfolding read_once_bus set_trigger_source initiate trigger_bus fetch read_once ready read_or_retry
    finish_reading parse_reading_list parse_float ends_with fields split strip rstrip lstrip
    is_space build_reading is_overload float_all write guard_safety is_cal_command is_rwlock_command
    query attempt should_retry_timeout_query send_query unit overload_threshold
read_query-after-read_once_bus_example =
    read_query-after-read_once_bus (ready_driver ("7" ∷ [])) seven refl

parse_reading_list-eq_example :
    parse_reading_list whole " 7,8" ≡ or_garbled whole (read_fields whole (fields (strip " 7,8")))
parse_reading_list-eq_example = parse_reading_list-eq whole " 7,8"

abbrev step : TestStep ℤ
step = record {
  name = "rail";
  function = volt_dc;
  range_value = value (pos 10);
  nplc = plc10;
  lower_limit = some (pos 5);
  upper_limit = some (pos 8);
  required_terminal = none;
}

abbrev sequence : TestSequence ℤ
sequence = record { name = "board"; steps = step ∷ [] }

abbrev passing : TestSequenceResult ℤ
passing = record {
  dut_id = "dut";
  station_id = "station";
  step_results =
      step_result whole step "dut" "station" (some (record seven { nplc = some (pos 10) })) pass
        none
      ∷ [];
}
