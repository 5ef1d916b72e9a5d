-- ===== src/Tests/Calling.antt =====
-- Tests of the keywords, on a session whose driver is configured for DC voltage.
use hp34401a_driver.Base.{false, none, some, [], ◌∷◌, ◌≡◌, ◌↔◌, refl}
use hp34401a_driver.Base.Int.{pos}
use hp34401a_driver.Base.Text.{ends_with, split, strip, rstrip, lstrip, is_space}
use hp34401a_driver.Enums.{overload_threshold, unit}
use hp34401a_driver.Parser.{parse_reading_list, parse_float, fields, float_all, is_overload}
use hp34401a_driver.Driver.Guard.{
  guard_safety, is_cal_command, is_rwlock_command, should_retry_timeout_query,
}
use hp34401a_driver.Driver.Raw.{write, query, attempt, send_query}
use hp34401a_driver.Driver.Read.{
  read_once, do_read, ready, read_or_retry, finish_reading, build_reading,
}
use hp34401a_driver.Converters.{int, text, as_int, as_float}
use hp34401a_driver.Keywords.{
  Library, done, read, execute, producing, accept_reading, measure, measure_keyword,
}
use hp34401a_driver.Keywords.Readings.{dmm_reading_should_be_between}
use hp34401a_driver.Keywords.Sound.{IsWorth, measure_keyword-IsWorth}
use hp34401a_driver.Keywords.Assertions.{IsWithin, dmm_reading_should_be_between-IsWithin}
use hp34401a_driver.Keywords.Device.{dmm_error_queue_should_be_empty}
use hp34401a_driver.Keywords.Device.Queue.{IsQuiet, dmm_error_queue_should_be_empty-IsQuiet}
use hp34401a_driver.Tests.Fixtures.{whole, scripted, ready_driver}

abbrev open_library : Library whole scripted
open_library = record {
  session = some (record { driver = ready_driver ("7" ∷ []); last_reading = none });
  allow_raw_io = false;
}

measure_keyword-IsWorth_example : IsWorth (pos 7) (measure_keyword read open_library).1
unfolding measure_keyword measure accept_reading execute producing read_once do_read ready
    read_or_retry finish_reading parse_reading_list parse_float ends_with fields split strip rstrip
    lstrip is_space build_reading is_overload float_all write guard_safety is_cal_command
    is_rwlock_command query attempt should_retry_timeout_query send_query unit overload_threshold
measure_keyword-IsWorth_example = measure_keyword-IsWorth read open_library (pos 7) refl

dmm_reading_should_be_between-IsWithin_example :
    dmm_reading_should_be_between {fl = whole}
        (int (pos 6))
        (text "8")
        (measure_keyword read open_library).1
      ≡ done tt
    ↔ IsWithin (int (pos 6)) (text "8") (measure_keyword read open_library).1
dmm_reading_should_be_between-IsWithin_example =
    dmm_reading_should_be_between-IsWithin (int (pos 6)) (text "8")
      (measure_keyword read open_library).1

abbrev quiet_library : Library whole scripted
quiet_library = record {
  session = some (record { driver = ready_driver ("+0,\"No error\"" ∷ []); last_reading = none });
  allow_raw_io = false;
}

dmm_error_queue_should_be_empty-IsQuiet_example :
    (dmm_error_queue_should_be_empty quiet_library).0 ≡ done tt ↔ IsQuiet quiet_library
unfolding as_int as_float
dmm_error_queue_should_be_empty-IsQuiet_example =
    dmm_error_queue_should_be_empty-IsQuiet quiet_library refl
