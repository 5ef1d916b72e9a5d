-- ===== src/Driver/Read.antt =====
-- Measurements of hp34401a_dmm/legacy_driver.py: `_build_reading`, `read_once` with its one fresh
-- measurement after a timeout, and the `measure_*` methods.
pub mod Sound
pub mod Measured
pub mod Book
pub mod Returns
use hp34401a_driver.Base.{
  ℕ, zero, suc, ◌+◌, String, Bool, true, false, not, ◌&&◌, Option, none, some, List, [], ◌∷◌,
  if◌then◌else◌, or_else, is_some, ltb,
}
use hp34401a_driver.Base.Int.{ℤ, pos}
use hp34401a_driver.Float.{Float}
use hp34401a_driver.Enums.{
  MeasurementFunction, volt_dc, Nplc, AcFilterHz, Range, unit, on, error_recovery, connected_remote,
  is_readable,
}
use hp34401a_driver.Errors.{
  Error, Result, ok, err, connection, timeout, protocol, other, is_timeout,
}
use hp34401a_driver.Measurement.{MeasurementReading}
use hp34401a_driver.Config.{zero_f}
use hp34401a_driver.Parser.{is_overload, parse_reading_list}
use hp34401a_driver.Transport.{Transport}
use hp34401a_driver.Driver.{
  Driver, M, pure, raise, lift, modify, ◌>>=◌, ◌>>◌, finally, set_state, set_timeout, append_action,
}
use hp34401a_driver.Driver.Raw.{write, query, transport_recover}
use hp34401a_driver.Driver.Status.{is_connected, drain_all}
use hp34401a_driver.Driver.Estimate.{max_f, estimate_measurement_timeout_s, default_margin_s}
use hp34401a_driver.Driver.Settings.{
  reconfigure, configure_dc_voltage, configure_ac_voltage, configure_dc_current,
  configure_2wire_resistance, configure_4wire_resistance,
}

module _ (fl : Float) where
  open fl use {F}

  abbrev overload_of : Option F → Bool
  overload_of none = false
  overload_of (some v) = is_overload fl v

  abbrev unless_overload : Option F → Option F
  unless_overload v = if overload_of v then none else v

  -- `values[0]`; an empty list is an IndexError
  abbrev first_value : List F → Result F
  first_value [] = err other
  first_value (v ∷ vs) = ok v

module _ {fl : Float} {T : Transport fl.F} where
  open fl use {F}

  -- `_build_reading`; the retry count and the actions are those that `read_once` passes
  unfoldable pub build_reading :
      Option F → String → ℕ → List String → Driver fl T → MeasurementReading F
  build_reading v raw retries actions d = record {
    monotonic_s = T.monotonic d.t;
    function = or_else d.active_function volt_dc;
    reading_value = unless_overload fl v;
    unit_text = unit (or_else d.active_function volt_dc);
    raw = raw;
    range_value = none;
    nplc = d.active_nplc;
    aperture_s = d.active_aperture;
    is_overload = overload_of fl v;
    is_valid = is_some v && not (overload_of fl v);
    was_retried = ltb 0 retries;
    retry_count = retries;
    reconnect_count = d.reconnect_count;
    recovery_actions = actions;
    terminal = d.terminal;
    transport = T.transport_type;
  }

  -- The guards of `read_once` and `read_once_bus`.
  unfoldable pub ready : Driver fl T → Result (Unit {0})
  ready d =
      if not (is_connected d)
      then err connection
      else if not (is_some d.active_function)
      then err protocol
      else if not (is_readable d.state)
      then err protocol
      else ok tt

  abbrev pub active_timeout : Driver fl T → F
  active_timeout d =
      max_f fl
        (estimate_measurement_timeout_s fl (or_else d.active_function volt_dc) d.active_nplc
          d.active_aperture 1 1 (zero_f fl) d.active_ac_filter d.cfg.line_frequency_hz
          d.active_autozero (default_margin_s fl))
        d.cfg.default_timeout_s

  -- `_do_read`
  unfoldable pub do_read : M fl T String
  do_read = do
    write "TRIGger:SOURce IMMediate"
    write "TRIGger:COUNt 1"
    write "SAMPle:COUNt 1"
    query "READ?"

  -- The handler of a timeout: recover, configure again, and measure afresh.
  unfoldable pub measure_again : F → M fl T (String × ℕ)
  measure_again wait = do
    transport_recover append_action (some drain_all)
    set_timeout wait
    λ d. reconfigure d.last_configure d
    raw ← do_read
    pure (raw, 1)

  -- The `try` of `read_once`: the response, and how often it was retried.
  unfoldable pub read_or_retry : F → M fl T (String × ℕ)
  read_or_retry wait d =
      let (r, d') = do_read d in
      elim r [
        | ok raw ↦ (ok (raw, 0), d')
        | err e ↦
            if is_timeout e
            then (if d.cfg.retry_queries
                then measure_again wait d'
                else (err e, record d' { state = error_recovery }))
            else (err e, d')
      ]

  -- What follows the `try`.
  unfoldable pub finish_reading : String × ℕ → M fl T (MeasurementReading F)
  finish_reading (raw, retries) = do
    values ← lift (parse_reading_list fl raw)
    v ← lift (first_value fl values)
    λ d.
        (ok (build_reading (some v) raw retries d.actions d), record d { state = connected_remote })

  unfoldable pub read_once : M fl T (MeasurementReading F)
  read_once d =
      (do
        lift (ready d)
        set_timeout (active_timeout d)
        modify (λ d'. record d' { actions = [] })
        found ← finally (read_or_retry (active_timeout d)) (set_timeout d.cfg.default_timeout_s)
        finish_reading found)
        d

  abbrev pub measure_dc_voltage : Range F → Nplc → M fl T (MeasurementReading F)
  measure_dc_voltage range nplc = do configure_dc_voltage range nplc on; read_once

  abbrev pub measure_ac_voltage : Range F → AcFilterHz → M fl T (MeasurementReading F)
  measure_ac_voltage range hz = do configure_ac_voltage range hz; read_once

  abbrev pub measure_dc_current : Range F → Nplc → M fl T (MeasurementReading F)
  measure_dc_current range nplc = do configure_dc_current range nplc on; read_once

  abbrev pub measure_2wire_resistance : Range F → Nplc → M fl T (MeasurementReading F)
  measure_2wire_resistance range nplc = do configure_2wire_resistance range nplc on; read_once

  abbrev pub measure_4wire_resistance : Range F → Nplc → M fl T (MeasurementReading F)
  measure_4wire_resistance range nplc = do configure_4wire_resistance range nplc on; read_once
