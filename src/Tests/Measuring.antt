-- ===== src/Tests/Measuring.antt =====
-- Tests of measurements on an instrument that works.
use hp34401a_driver.Base.{true, none, some, [], ◌∷◌, ◌≡◌, refl}
use hp34401a_driver.Base.Int.{ℤ, pos}
use hp34401a_driver.Base.Show.{show_ℤ}
use hp34401a_driver.Base.Text.{ends_with, split, strip, rstrip, lstrip, is_space}
use hp34401a_driver.Enums.{volt_dc, value, plc10, on, range_table, nplc_value, overload_threshold}
use hp34401a_driver.Parser.{parse_reading_list, parse_float, fields, float_all}
use hp34401a_driver.Driver.{Driver, ◌>>◌, plain, init}
use hp34401a_driver.Driver.Guard.{guard_safety, is_cal_command, is_rwlock_command}
use hp34401a_driver.Driver.Validate.{validate_range, is_close, num}
use hp34401a_driver.Driver.Settings.{configure, configure_mnemonic, sense_mnemonic}
use hp34401a_driver.Driver.Settings.Steps.{settings_commands}
use hp34401a_driver.Driver.Read.{read_once}
use hp34401a_driver.Driver.Read.Returns.{Working, Measured, measure-Measured}
use hp34401a_driver.Transport.BaseTransport.{returned}
use hp34401a_driver.Transport.BaseTransport.Stale.{write_cmd, query_cmd}
use hp34401a_driver.Transport.Fake.{
  Scripted, pop_error_queue, Fake, initial, one_of, is_known_query, fake_transport,
}
use hp34401a_driver.Transport.Fake.History.{taken, times_out, log, issue_all, issue_all-log}
use hp34401a_driver.Transport.Fake.Contract.{simulated, simulated-Works}
use hp34401a_driver.Tests.Fixtures.{whole, config}

-- An instrument that takes every command, and answers known queries from the error queue.
abbrev quiet : Scripted ℤ
quiet = record {
  W = Unit {0};
  build = λ rs w. w;
  open_core = λ w. (returned tt, w);
  close_core = λ w. (returned tt, w);
  client_write = λ h c w queue. (returned tt, w, queue);
  client_query =
      λ h c w queue. let (text, rest) = h pop_error_queue queue in (returned text, w, rest);
  pause = λ x w. w;
  clock = λ w. pos 0;
}

-- It is open, and every other query is answered with "7".
abbrev simulated_seven : Fake quiet
simulated_seven = record (initial quiet [] "7" ("-113,\"Undefined header\"" ∷ []) "HP" tt) {
  is_opened = true;
  has_core = true;
}

-- The query *TST? times out.
abbrev silent_on_test : Fake quiet
silent_on_test = record simulated_seven { timeout_on = "*TST?" ∷ [] }

issue_all-log_example :
    log (
      issue_all
        (write_cmd "*CLS" ∷ query_cmd "SYST:ERR?" ∷ query_cmd "*TST?" ∷ write_cmd "*RST" ∷ [])
        silent_on_test)
    ≡ record {
      history = "*CLS" ∷ "SYST:ERR?" ∷ "*TST?" ∷ [];
      write_history = "*CLS" ∷ [];
      query_history = "SYST:ERR?" ∷ "*TST?" ∷ [];
      timeout_on = "*TST?" ∷ [];
      unread = true;
    }
unfolding taken times_out one_of
issue_all-log_example =
    issue_all-log
      (write_cmd "*CLS" ∷ query_cmd "SYST:ERR?" ∷ query_cmd "*TST?" ∷ write_cmd "*RST" ∷ [])
      silent_on_test refl

abbrev works : Working (fake_transport quiet) "7"
works = simulated quiet "7" (λ h c w queue. refl)

abbrev simulated_driver : Driver whole (fake_transport quiet)
simulated_driver = init whole (fake_transport quiet) simulated_seven config

measure-Measured_example : Measured works volt_dc (pos 7) (
    (configure (plain volt_dc (value (pos 10)) (some plc10) on none) >> read_once) simulated_driver)
unfolding is_known_query configure_mnemonic validate_range range_table is_close num show_ℤ
    settings_commands sense_mnemonic nplc_value guard_safety is_cal_command is_rwlock_command
    parse_reading_list parse_float ends_with fields split strip rstrip lstrip is_space float_all
    overload_threshold
measure-Measured_example =
    measure-Measured works volt_dc (value (pos 10)) (some plc10) on none "CONFigure:VOLTage:DC" "10"
      (pos 7) [] simulated_driver refl refl (refl, (refl, (refl, (refl, tt))))
      (simulated-Works quiet "7" (λ h c w queue. refl) simulated_seven
        record {
          is_open = refl;
          is_read = refl;
          none_silent = refl;
          with_core = refl;
          not_registered = refl;
          default_kept = refl;
        })
      refl
