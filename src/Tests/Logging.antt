-- ===== src/Tests/Logging.antt =====
-- Tests of the CSV log.
use hp34401a_driver.Base.{none, some, [], ◌∷◌, ◌≡◌}
use hp34401a_driver.Base.Int.{ℤ, pos}
use hp34401a_driver.Measurement.{MeasurementReading}
use hp34401a_driver.Logging.{RowContext, header}
use hp34401a_driver.Logging.Resumed.{cells, run_logs, run_logs-eq}
use hp34401a_driver.Tests.Readings.{seven}

abbrev context : RowContext ℤ
context = record {
  timestamp_utc = "2024-01-01T00:00:00+00:00";
  station_id = "station";
  dut_id = "dut";
  step_name = "rail";
  resource = "GPIB0::22::INSTR";
  instrument_idn = "";
  instrument_serial = "";
  software_version = "";
  git_commit = "";
  pass_fail = "PASS";
  lower_limit = none;
  upper_limit = some (pos 8);
  error_code = none;
  error_message = "";
}

abbrev entry : MeasurementReading ℤ × RowContext ℤ
entry = (seven, context)

-- Three runs, of which one logs nothing.
run_logs-eq_example :
    run_logs ((entry ∷ []) ∷ [] ∷ (entry ∷ []) ∷ []) [] ≡ header ∷ cells entry ∷ cells entry ∷ []
run_logs-eq_example = run_logs-eq (entry ∷ []) ([] ∷ (entry ∷ []) ∷ [])
