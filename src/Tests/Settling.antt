-- ===== src/Tests/Settling.antt =====
-- Tests of the settling loop, on a clock that counts the sleeps.
use hp34401a_driver.Base.Show.{show_ℤ}
use hp34401a_driver.Base.Text.{strip, lstrip, rstrip, is_space}
use hp34401a_driver.Base.{ℕ, suc, ◌+◌, ◌≤◌, false, true, none, some, [], ◌≡◌, refl, arith}
use hp34401a_driver.Base.Int.{ℤ, pos, ltb_ℤ, sub_ℕ}
use hp34401a_driver.Enums.{visa_gpib, fake, res_4w, value, plc1, plc10, nplc_value}
use hp34401a_driver.Errors.{Result, ok}
use hp34401a_driver.Measurement.{MeasurementReading, StableMeasurementResult}
use hp34401a_driver.Config.{StabilityProfile, profile_post_init}
use hp34401a_driver.Transport.{Transport}
use hp34401a_driver.Driver.{init}
use hp34401a_driver.Stability.{Bench, read_stable_resistance}
use hp34401a_driver.Stability.Honest.{HonestIfOk}
use hp34401a_driver.Stability.Settles.{Ticks, read_stable_resistance-Returns}
use hp34401a_driver.Driver.Stable.{bench, read_stable_resistance as driver_read_stable_resistance}
use hp34401a_driver.Driver.Stable.Time.{Clock, read_stable_resistance_returns}
use hp34401a_driver.Converters.{
  no_value, bool, int, plain, str_of, as_bool, as_float, as_int, as_nplc, as_optional_float,
  as_range, as_seconds,
}
use hp34401a_driver.Keywords.{Answer, Library}
use hp34401a_driver.Keywords.Stable.{
  StableArguments, as_nonnegative_seconds, converted_profile,
  read_stable_resistance as read_keyword,
}
use hp34401a_driver.Keywords.Stable.Returned.{IsSettled, read_stable_resistance-Ends}
use hp34401a_driver.Tests.Fixtures.{whole, config}

abbrev profile : StabilityProfile ℤ
profile = record {
  expected_ohm = none;
  range_ohm = value (pos 1000);
  nplc = plc1;
  final_nplc = some plc10;
  min_settle_s = pos 0;
  max_wait_s = pos 3;
  sample_interval_s = pos 1;
  window_size = 2;
  max_stdev_ohm = some (pos 1);
  max_relative_stdev = none;
  max_slope_relative_per_s = none;
  reject_overload = true;
  four_wire = true;
}

abbrev reading : ℕ → MeasurementReading ℤ
reading n = record {
  monotonic_s = pos n;
  function = res_4w;
  reading_value = some (pos 7);
  unit_text = "Ohm";
  raw = "7";
  range_value = none;
  nplc = none;
  aperture_s = none;
  is_overload = false;
  is_valid = true;
  was_retried = false;
  retry_count = 0;
  reconnect_count = 0;
  recovery_actions = [];
  terminal = none;
  transport = fake;
}

abbrev ticking_bench : Bench whole
ticking_bench = record {
  W = ℕ;
  sampler = λ n. (ok (reading n), n);
  final_sampler = none;
  now = λ n. (pos n, n);
  sleep = λ x n. suc n;
}

is_over : (start s : ℕ) → start + 4 ≤ s → ltb_ℤ (pos 3) (sub_ℕ (s + 0) (0 + start)) ≡ true
is_over start s h = ground arith

abbrev ticking_bench_Ticks : Ticks ticking_bench profile
ticking_bench_Ticks = record {
  age = λ n. n;
  limit = 4;
  now_keeps = λ n. omega arith;
  sampler_keeps = λ n. omega arith;
  sleep_keeps = λ x n. omega arith;
  sleep_moves = λ n. omega arith;
  over = is_over;
}

read_stable_resistance-Returns_example :
    (r : Result (StableMeasurementResult ℤ)) × ((read_stable_resistance ticking_bench profile 5 0).0
      ≡ some r)
    × HonestIfOk ticking_bench profile r
read_stable_resistance-Returns_example =
    read_stable_resistance-Returns ticking_bench profile ticking_bench_Ticks 0

-- A transport that answers every query, and on which time is the number of sleeps.
abbrev ticking : Transport ℤ
ticking = record {
  S = ℕ;
  transport_type = visa_gpib;
  recover_on_connect = false;
  clear_on_connect = false;
  send_local_on_close = false;
  open_t = λ s. (ok tt, s);
  close_t = λ s. (ok tt, s);
  is_open = λ s. true;
  write = λ c s. (ok tt, s);
  query = λ c s. (ok "7", s);
  read_raw = λ s. (ok "7", s);
  write_raw = λ c s. (ok tt, s);
  clear = λ s. (ok tt, s);
  set_timeout = λ x s. s;
  sleep = λ x s. suc s;
  monotonic = λ s. pos s;
}

abbrev ticking_Clock : Clock whole ticking profile
ticking_Clock = record {
  age = λ s. s;
  limit = 4;
  write_keeps = λ c s. omega arith;
  query_keeps = λ c s. omega arith;
  read_raw_keeps = λ s. omega arith;
  clear_keeps = λ s. omega arith;
  set_timeout_keeps = λ x s. omega arith;
  sleep_keeps = λ x s. omega arith;
  sleep_moves = λ s. omega arith;
  over = is_over;
}

read_stable_resistance_returns_example :
    (r : Result (StableMeasurementResult ℤ)) × ((driver_read_stable_resistance {fl = whole}
        {T = ticking} profile 5
        (init whole ticking 0 config)).0
      ≡ some r)
    × HonestIfOk (bench whole ticking profile) profile r
read_stable_resistance_returns_example =
    read_stable_resistance_returns {fl = whole} ticking profile ticking_Clock
      (init whole ticking 0 config)

abbrev stable_arguments : StableArguments ℤ
stable_arguments = record {
  expected_ohm = no_value;
  range_value = plain (int (pos 1000));
  nplc = int (pos 1);
  final_nplc = int (pos 10);
  min_settle = int (pos 0);
  max_wait = int (pos 3);
  sample_interval = int (pos 1);
  window_size = int (pos 2);
  max_stdev_ohm = int (pos 1);
  max_relative_stdev = no_value;
  max_slope_relative_per_s = no_value;
  four_wire = bool true;
}

abbrev ticking_library : Library whole ticking
ticking_library = record {
  session = some (record { driver = init whole ticking 0 config; last_reading = none });
  allow_raw_io = false;
}

read_stable_resistance-Ends_example :
    (answer : Answer ℤ) × ((read_keyword {fl = whole} {T = ticking}
        (λ s. none)
        stable_arguments
        5
        ticking_library).0
      ≡ some answer)
    × IsSettled whole ticking profile answer
unfolding converted_profile as_nonnegative_seconds as_seconds as_optional_float as_int as_bool
    as_float as_nplc as_range str_of show_ℤ strip lstrip rstrip is_space profile_post_init
    nplc_value
read_stable_resistance-Ends_example =
    read_stable_resistance-Ends {fl = whole} {T = ticking} (λ s. none) stable_arguments profile
      ticking_Clock ticking_library refl
