-- ===== src/Logging.antt =====
-- The CSV log of hp34401a_dmm/logging_utils.py. A file is its lines, and a line its cells: the csv
-- module and the disk are left out, and so is the JSON-lines log.
pub mod Resumed
use hp34401a_driver.Base.{ℕ, String, Bool, Option, none, some, List, [], ◌∷◌, ◌++◌, map, or_else}
use hp34401a_driver.Base.Text.{codes}
use hp34401a_driver.Base.Dict.{Key, find}
use hp34401a_driver.Base.Int.{ℤ}
use hp34401a_driver.Enums.{
  MeasurementFunction, volt_dc, volt_dc_ratio, volt_ac, curr_dc, curr_ac, res_2w, res_4w, freq,
  period, continuity, diode, InputTerminal, front, rear, unknown, TransportType, serial_rs232,
  visa_gpib, prologix_gpib, fake,
}
use hp34401a_driver.Measurement.{MeasurementReading}

-- `CSV_COLUMNS`
abbrev csv_columns : List String
csv_columns =
    "timestamp_utc" ∷ "monotonic_s" ∷ "station_id" ∷ "dut_id" ∷ "step_name" ∷ "transport_type"
    ∷ "resource" ∷ "instrument_idn" ∷ "instrument_serial" ∷ "software_version" ∷ "git_commit"
    ∷ "function" ∷ "value" ∷ "unit" ∷ "is_valid" ∷ "is_overload" ∷ "was_retried" ∷ "retry_count"
    ∷ "reconnect_count" ∷ "range_value" ∷ "nplc" ∷ "aperture_s" ∷ "terminal" ∷ "raw_response"
    ∷ "pass_fail" ∷ "lower_limit" ∷ "upper_limit" ∷ "error_code" ∷ "error_message" ∷ []

-- `function.value`
abbrev function_value : MeasurementFunction → String
function_value volt_dc = "VOLT:DC"
function_value volt_dc_ratio = "VOLT:DC:RATIO"
function_value volt_ac = "VOLT:AC"
function_value curr_dc = "CURR:DC"
function_value curr_ac = "CURR:AC"
function_value res_2w = "RES"
function_value res_4w = "FRES"
function_value freq = "FREQ"
function_value period = "PER"
function_value continuity = "CONT"
function_value diode = "DIOD"

-- `transport.value`
abbrev transport_value : TransportType → String
transport_value serial_rs232 = "SERIAL_RS232"
transport_value visa_gpib = "VISA_GPIB"
transport_value prologix_gpib = "PROLOGIX_GPIB"
transport_value fake = "FAKE"

-- `terminal.value if terminal else ""`
abbrev terminal_value : Option InputTerminal → String
terminal_value none = ""
terminal_value (some front) = "FRONT"
terminal_value (some rear) = "REAR"
terminal_value (some unknown) = "UNKNOWN"

-- A cell, with enumerations and times by their texts, as `_cell` makes them.
pub data Cell (F : Type 0) : Type 0 where
  absent : Cell F
  text : String → Cell F
  number : F → Cell F
  whole : ℤ → Cell F
  count : ℕ → Cell F
  flag : Bool → Cell F

-- The keyword arguments of `reading_to_csv_row`, with the time stamp of the reading.
pub record RowContext (F : Type 0) : Type 0 where
  pub timestamp_utc : String
  pub station_id : String
  pub dut_id : String
  pub step_name : String
  pub resource : String
  pub instrument_idn : String
  pub instrument_serial : String
  pub software_version : String
  pub git_commit : String
  pub pass_fail : String
  pub lower_limit : Option F
  pub upper_limit : Option F
  pub error_code : Option ℤ
  pub error_message : String

abbrev pub Row : Type 0 → Type 0
Row F = List (Key × Cell F)

-- The lines of a file; one that does not exist has none.
abbrev pub File : Type 0 → Type 0
File F = List (List (Cell F))

module _ {F : Type 0} where
  abbrev optional : Option F → Cell F
  optional none = absent
  optional (some x) = number x

  abbrev optional_code : Option ℤ → Cell F
  optional_code none = absent
  optional_code (some n) = whole n

  pub reading_to_csv_row : MeasurementReading F → RowContext F → Row F
  reading_to_csv_row r c =
      (codes "timestamp_utc", text c.timestamp_utc)
      ∷ (codes "monotonic_s", number r.monotonic_s)
      ∷ (codes "station_id", text c.station_id)
      ∷ (codes "dut_id", text c.dut_id)
      ∷ (codes "step_name", text c.step_name)
      ∷ (codes "transport_type", text (transport_value r.transport))
      ∷ (codes "resource", text c.resource)
      ∷ (codes "instrument_idn", text c.instrument_idn)
      ∷ (codes "instrument_serial", text c.instrument_serial)
      ∷ (codes "software_version", text c.software_version)
      ∷ (codes "git_commit", text c.git_commit)
      ∷ (codes "function", text (function_value r.function))
      ∷ (codes "value", optional r.reading_value)
      ∷ (codes "unit", text r.unit_text)
      ∷ (codes "is_valid", flag r.is_valid)
      ∷ (codes "is_overload", flag r.is_overload)
      ∷ (codes "was_retried", flag r.was_retried)
      ∷ (codes "retry_count", count r.retry_count)
      ∷ (codes "reconnect_count", count r.reconnect_count)
      ∷ (codes "range_value", optional r.range_value)
      ∷ (codes "nplc", optional r.nplc)
      ∷ (codes "aperture_s", optional r.aperture_s)
      ∷ (codes "terminal", text (terminal_value r.terminal))
      ∷ (codes "raw_response", text r.raw)
      ∷ (codes "pass_fail", text c.pass_fail)
      ∷ (codes "lower_limit", optional c.lower_limit)
      ∷ (codes "upper_limit", optional c.upper_limit)
      ∷ (codes "error_code", optional_code c.error_code)
      ∷ (codes "error_message", text c.error_message)
      ∷ []

  abbrev pub header : List (Cell F)
  header = map text csv_columns

  -- `CsvMeasurementLog.__init__`: the header goes into a file that is missing or empty.
  pub open_log : File F → File F
  open_log [] = header ∷ []
  open_log (line ∷ lines) = line ∷ lines

  -- `[_cell(row.get(col)) for col in CSV_COLUMNS]`
  pub ordered : Row F → List (Cell F)
  ordered row = map (λ col. or_else (find (codes col) row) absent) csv_columns

  pub write_row : Row F → File F → File F
  unfolding ordered
  write_row row file = file ++ ordered row ∷ []
