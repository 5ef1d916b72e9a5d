-- ===== src/Config.antt =====
-- hp34401a_dmm/config.py: the configuration records and what their `__post_init__` refuses.
use text.Mathlib.Text.{◌==◌ as str_eq}
use hp34401a_driver.Base.{
  ℕ, String, Bool, false, not, ◌&&◌, ◌||◌, Option, none, some, if◌then◌else◌, ◌==◌, ltb,
}
use hp34401a_driver.Base.Int.{ℤ, pos, ltb_ℤ}
use hp34401a_driver.Float.{Float}
use hp34401a_driver.Enums.{Nplc, Range, value, token}
use hp34401a_driver.Errors.{Result, ok, err, value_error}

pub record SerialRs232Config : Type 0 where
  pub baudrate : ℕ
  pub parity : String
  pub data_bits : ℕ
  pub stop_bits : ℕ
  pub use_dtr_dsr : Bool
  pub require_remote_on_connect : Bool
  pub send_local_on_close : Bool
  pub recover_on_connect : Bool

-- `(self.parity, self.data_bits) in valid`
abbrev valid_framing : String → ℕ → Bool
valid_framing parity data_bits =
    str_eq parity "none" && data_bits == 8
    || str_eq parity "even" && data_bits == 7
    || str_eq parity "odd" && data_bits == 7

abbrev valid_baudrate : ℕ → Bool
valid_baudrate b = b == 300 || b == 600 || b == 1200 || b == 2400 || b == 4800 || b == 9600

-- `SerialRs232Config.__post_init__`
unfoldable serial_post_init : SerialRs232Config → Result SerialRs232Config
serial_post_init c =
    if not (valid_framing c.parity c.data_bits)
    then err value_error
    else if not (valid_baudrate c.baudrate)
    then err value_error
    else if not (c.stop_bits == 2)
    then err value_error
    else ok c

pub record DriverConfig (F : Type 0) : Type 0 where
  pub reset_on_connect : Bool
  pub clear_status_on_connect : Bool
  pub verify_identity_on_connect : Bool
  pub drain_error_queue_on_connect : Bool
  pub default_timeout_s : F
  pub long_measurement_timeout_s : F
  pub self_test_timeout_s : F
  pub line_frequency_hz : ℕ
  pub auto_reconnect : Bool
  pub max_reconnect_attempts : ℤ
  pub retry_queries : Bool
  pub max_query_retries : ℤ
  pub query_retry_delay_s : F
  pub retry_all_queries_on_timeout : Bool
  pub retry_writes : Bool
  pub allow_calibration_commands : Bool
  pub thread_safe : Bool
  pub raw_traffic_log : Bool

pub record StabilityProfile (F : Type 0) : Type 0 where
  pub expected_ohm : Option F
  pub range_ohm : Range F
  pub nplc : Nplc
  pub final_nplc : Option Nplc
  pub min_settle_s : F
  pub max_wait_s : F
  pub sample_interval_s : F
  pub window_size : ℕ
  pub max_stdev_ohm : Option F
  pub max_relative_stdev : Option F
  pub max_slope_relative_per_s : Option F
  pub reject_overload : Bool
  pub four_wire : Bool

module _ (fl : Float) where
  open fl use {F, lt, le, lit}

  abbrev pub zero_f : F
  zero_f = lit (pos 0) (pos 0)

  -- `DriverConfig.__post_init__`
  unfoldable pub driver_post_init : DriverConfig F → Result (DriverConfig F)
  driver_post_init c =
      if le c.default_timeout_s zero_f
      then err value_error
      else if le c.long_measurement_timeout_s zero_f
      then err value_error
      else if le c.self_test_timeout_s zero_f
      then err value_error
      else if ltb_ℤ c.max_reconnect_attempts (pos 0)
      then err value_error
      else if ltb_ℤ c.max_query_retries (pos 0)
      then err value_error
      else if lt c.query_retry_delay_s zero_f
      then err value_error
      else ok c

  -- `x is not None and x <= 0`
  abbrev some_le_zero : Option F → Bool
  some_le_zero none = false
  some_le_zero (some x) = le x zero_f

  -- `x is not None and x < 0`
  abbrev some_lt_zero : Option F → Bool
  some_lt_zero none = false
  some_lt_zero (some x) = lt x zero_f

  -- `isinstance(x, (int, float)) and x <= 0`
  abbrev range_le_zero : Range F → Bool
  range_le_zero (value x) = le x zero_f
  range_le_zero (token t) = false

  -- `StabilityProfile.__post_init__`
  unfoldable pub profile_post_init : StabilityProfile F → Result (StabilityProfile F)
  profile_post_init p =
      if some_le_zero p.expected_ohm
      then err value_error
      else if range_le_zero p.range_ohm
      then err value_error
      else if lt p.min_settle_s zero_f
      then err value_error
      else if le p.max_wait_s zero_f
      then err value_error
      else if le p.sample_interval_s zero_f
      then err value_error
      else if ltb p.window_size 2
      then err value_error
      else if some_lt_zero p.max_stdev_ohm
      then err value_error
      else if some_lt_zero p.max_relative_stdev
      then err value_error
      else if some_lt_zero p.max_slope_relative_per_s
      then err value_error
      else ok p
