-- ===== src/Tests/Commands.antt =====
-- Tests of commands and queries.
use hp34401a_driver.Base.{none, some, [], ◌≡◌, refl, ◌≤◌, ◌+◌}
use hp34401a_driver.Base.Int.{pos}
use hp34401a_driver.Base.Show.{show_ℤ}
use hp34401a_driver.Base.Text.{lstrip, is_space, upper, upper_code, codes}
use hp34401a_driver.Enums.{volt_dc, value, plc10, on, range_table, nplc_value}
use hp34401a_driver.Errors.{err, value_error, safety}
use hp34401a_driver.Driver.{Driver, init, plain}
use hp34401a_driver.Driver.Guard.{
  guard_safety, is_cal_command, is_rwlock_command, normalize_scpi_query, starts_with_any,
}
use hp34401a_driver.Driver.Raw.{write, query}
use hp34401a_driver.Driver.Validate.{validate_range, is_close, num}
use hp34401a_driver.Driver.Settings.{apply_configure, configure, configure_mnemonic, sense_mnemonic}
use hp34401a_driver.Driver.Guard.Coverage.{short_form, calibration_refused}
use hp34401a_driver.Driver.Raw.States.{Ends, query-Ends}
use hp34401a_driver.Driver.Raw.Count.{
  reads, counted, sent, query_sent_bounds, non_retryable_sent_once,
}
use hp34401a_driver.Driver.Settings.Sent.{Applied, apply_configure-Applied}
use hp34401a_driver.Driver.Settings.Rejected.{configure_rejected}
use hp34401a_driver.Tests.Fixtures.{whole, scripted, open_script, config, ready_driver}

apply_configure-Applied_example :
    Applied volt_dc
      (value (pos 10))
      (some plc10)
      on
      none
      (ready_driver [])
      (apply_configure volt_dc (value (pos 10)) (some plc10) on none none (ready_driver [])).1
unfolding apply_configure validate_range range_table is_close configure_mnemonic num show_ℤ
    sense_mnemonic nplc_value write guard_safety is_cal_command is_rwlock_command
apply_configure-Applied_example =
    apply_configure-Applied volt_dc (value (pos 10)) (some plc10) on none none (ready_driver [])
      refl

-- No answer to the first round, which recovers and asks again.
query-Ends_example : Ends (query "*IDN?" (ready_driver []))
unfolding write guard_safety is_cal_command is_rwlock_command
query-Ends_example = query-Ends "*IDN?" (ready_driver []) refl

abbrev counting_driver : Driver whole (counted scripted)
counting_driver = init whole (counted scripted) (open_script [], 0) config

query_sent_bounds_example :
    (0 + 1 ≤ sent scripted (query "SENS:FUNC?" counting_driver).1)
    × (sent scripted (query "SENS:FUNC?" counting_driver).1 ≤ 0 + 1 + 1)
unfolding write guard_safety is_cal_command is_rwlock_command
query_sent_bounds_example = query_sent_bounds scripted "SENS:FUNC?" counting_driver refl

non_retryable_sent_once_example : sent scripted (query "read?" counting_driver).1 ≡ 1
unfolding write guard_safety is_cal_command is_rwlock_command normalize_scpi_query starts_with_any
non_retryable_sent_once_example =
    non_retryable_sent_once scripted "read?" counting_driver refl (reads refl)

calibration_refused_example : guard_safety config " cal:val 1" ≡ err safety
unfolding upper upper_code lstrip is_space
calibration_refused_example =
    calibration_refused config short_form " cal:val 1" (codes ":VAL 1") refl refl refl

configure_rejected_example :
    let setup = plain volt_dc (value (pos 11)) (some plc10) on none in
    configure setup (ready_driver [])
    ≡ (err value_error, record (ready_driver []) { last_configure = some setup })
unfolding range_table is_close
configure_rejected_example =
    configure_rejected volt_dc (pos 11) (some plc10) on none (ready_driver []) refl
