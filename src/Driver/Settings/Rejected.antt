-- ===== src/Driver/Settings/Rejected.antt =====
-- `configure_*` and `recover` with a range that the table of the function does not have.
use hp34401a_driver.Base.{false, Option, some, [], ◌≡◌, arith}
use hp34401a_driver.Float.{Float}
use hp34401a_driver.Enums.{MeasurementFunction, value, Nplc, AutozeroMode, AcFilterHz, range_table}
use hp34401a_driver.Errors.{ok, err, value_error}
use hp34401a_driver.Transport.{Transport}
use hp34401a_driver.Driver.{Driver, plain, append_action}
use hp34401a_driver.Driver.Raw.{transport_recover}
use hp34401a_driver.Driver.Raw.Memory.{transport_recover-book}
use hp34401a_driver.Driver.Validate.{in_table, validate_range}
use hp34401a_driver.Driver.Status.{drain_all}
use hp34401a_driver.Driver.Status.Queue.{drain_all-book}
use hp34401a_driver.Driver.Settings.{
  apply_configure, run_configure, configure, recover_steps, recover,
}

module _ {fl : Float} {T : Transport fl.F} where
  open fl use {F}

  run_configure_rejected :
      (function : MeasurementFunction) (x : F) (nplc : Option Nplc) (autozero : AutozeroMode)
      (hz : Option AcFilterHz) (d : Driver fl T)
      → in_table fl (range_table fl function) x ≡ false
      → run_configure (plain function (value x) nplc autozero hz) d ≡ (err value_error, d)
  unfolding run_configure apply_configure validate_range
  run_configure_rejected function x nplc autozero hz d h = rw h

  -- A range that the table of the function does not have is refused with a ValueError before
  -- anything is sent, and yet becomes the set-up that recovery will apply.
  pub configure_rejected :
      (function : MeasurementFunction) (x : F) (nplc : Option Nplc) (autozero : AutozeroMode)
      (hz : Option AcFilterHz) (d : Driver fl T)
      → in_table fl (range_table fl function) x ≡ false
      → let setup = plain function (value x) nplc autozero hz in
        configure setup d ≡ (err value_error, record d { last_configure = some setup })
  unfolding configure
  configure_rejected function x nplc autozero hz d h =
      run_configure_rejected function x nplc autozero hz
        (record d { last_configure = some (plain function (value x) nplc autozero hz) }) h

  -- While a set-up with a range that the table does not have is remembered, a `recover` whose
  -- transport recovery succeeds raises a ValueError instead of returning a report.
  pub recover_raises :
      (function : MeasurementFunction) (x : F) (nplc : Option Nplc) (autozero : AutozeroMode)
      (hz : Option AcFilterHz) (d : Driver fl T)
      → in_table fl (range_table fl function) x ≡ false
      → d.last_configure ≡ some (plain function (value x) nplc autozero hz)
      → (transport_recover append_action (some drain_all) (record d { actions = [] })).0 ≡ ok tt
      → (recover d).0 ≡ err value_error
  unfolding recover recover_steps
  recover_raises function x nplc autozero hz d h e r =
      let d' = (transport_recover append_action (some drain_all) (record d { actions = [] })).1 in
      ground (
        arith,
        run_configure_rejected function x nplc autozero hz d' h,
        transport_recover-book drain_all drain_all-book (record d { actions = [] }),
      )
