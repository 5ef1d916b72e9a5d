-- ===== src/Driver/Settings.antt =====
-- The configuration of a measurement in hp34401a_dmm/legacy_driver.py: `_apply_configure`, the
-- `configure_*` methods, and `recover`, which configures again.
pub mod Steps
pub mod Sent
pub mod Rejected
use Prim.Native.String.{◌++◌ as append}
use hp34401a_driver.Base.{
  ℕ, String, Bool, true, false, Option, none, some, if◌then◌else◌, is_some, or_else, List, [],
}
use hp34401a_driver.Base.Int.{ℤ, pos}
use hp34401a_driver.Base.Show.{show}
use hp34401a_driver.Float.{Float}
use hp34401a_driver.Enums.{
  MeasurementFunction, volt_dc, volt_ac, curr_dc, curr_ac, res_2w, res_4w, freq, continuity, diode,
  in_nplc_functions, Nplc, nplc_value, Aperture, aperture_value, AcFilterHz, ac_filter_value,
  AutozeroMode, on, autozero_value, Range, value, token, auto, def_range, immediate, configured,
  connected_remote,
}
use hp34401a_driver.Enums
use hp34401a_driver.Errors.{Result, ok, err, key_error, is_hp_error}
use hp34401a_driver.Measurement.{RecoveryReport}
use hp34401a_driver.Transport.{Transport}
use hp34401a_driver.Driver.{
  Driver, M, Configure, plain, frequency, period, pure, lift, modify, ◌>>=◌, ◌>>◌, when,
  append_action,
}
use hp34401a_driver.Driver.Raw.{write, transport_recover}
use hp34401a_driver.Driver.Status.{drain_all}
use hp34401a_driver.Driver.Validate.{num, validate_range}

-- `_CONFIGURE_MNEMONIC[function]`; a function that is missing is a KeyError
unfoldable pub configure_mnemonic : MeasurementFunction → Option String
configure_mnemonic volt_dc = some "CONFigure:VOLTage:DC"
configure_mnemonic volt_ac = some "CONFigure:VOLTage:AC"
configure_mnemonic curr_dc = some "CONFigure:CURRent:DC"
configure_mnemonic curr_ac = some "CONFigure:CURRent:AC"
configure_mnemonic res_2w = some "CONFigure:RESistance"
configure_mnemonic res_4w = some "CONFigure:FRESistance"
configure_mnemonic freq = some "CONFigure:FREQuency"
configure_mnemonic Enums.period = some "CONFigure:PERiod"
configure_mnemonic continuity = some "CONFigure:CONTinuity"
configure_mnemonic diode = some "CONFigure:DIODe"
configure_mnemonic _ = none

-- `_SENSE_MNEMONIC.get(function)`
unfoldable pub sense_mnemonic : MeasurementFunction → Option String
sense_mnemonic volt_dc = some "VOLTage:DC"
sense_mnemonic curr_dc = some "CURRent:DC"
sense_mnemonic res_2w = some "RESistance"
sense_mnemonic res_4w = some "FRESistance"
sense_mnemonic volt_ac = some "VOLTage:AC"
sense_mnemonic curr_ac = some "CURRent:AC"
sense_mnemonic freq = some "FREQuency"
sense_mnemonic Enums.period = some "PERiod"
sense_mnemonic _ = none

abbrev pub or_key_error : Option String → Result String
or_key_error none = err key_error
or_key_error (some m) = ok m

-- `function in (MeasurementFunction.CONTINUITY, MeasurementFunction.DIODE)`
abbrev takes_no_range : MeasurementFunction → Bool
takes_no_range continuity = true
takes_no_range diode = true
takes_no_range _ = false

-- A name in an f-string, where a missing one prints as None.
abbrev printed : Option String → String
printed s = or_else s "None"

-- The first command.
abbrev pub conf_command : MeasurementFunction → String → String → String
conf_command function conf range =
    if takes_no_range function then conf else append conf (append " " (append range ",DEF"))

abbrev pub sense_auto : String → String → String
sense_auto sense switch = append "SENSe:" (append sense (append ":RANGe:AUTO " switch))

module _ (fl : Float) where
  open fl use {F, of_int}

  abbrev some_nplc : Option Nplc → Option F
  some_nplc none = none
  some_nplc (some n) = some (nplc_value fl n)

  abbrev some_aperture : Option Aperture → Option F
  some_aperture none = none
  some_aperture (some a) = some (aperture_value fl a)

  abbrev some_filter : Option AcFilterHz → Option F
  some_filter none = none
  some_filter (some hz) = some (of_int (pos (ac_filter_value hz)))

module _ {fl : Float} {T : Transport fl.F} where
  open fl use {F}

  -- The explicit autorange setting: nothing is sent for MIN, MAX and DEF.
  unfoldable pub write_autorange : Option String → Range F → M fl T (Unit {0})
  write_autorange none range = pure tt
  write_autorange (some sense) (value x) = write (sense_auto sense "OFF")
  write_autorange (some sense) (token auto) = write (sense_auto sense "ON")
  write_autorange (some sense) (token t) = pure tt

  unfoldable pub write_nplc : MeasurementFunction → Option Nplc → M fl T (Unit {0})
  write_nplc function none = pure tt
  write_nplc function (some nplc) = when (in_nplc_functions function) (
      write (
        append "SENSe:" (
          append (printed (sense_mnemonic function))
            (append ":NPLCycles " (num fl (nplc_value fl nplc))))))

  unfoldable pub write_autozero : MeasurementFunction → AutozeroMode → M fl T (Unit {0})
  write_autozero function autozero =
      when (in_nplc_functions function)
        (write (append "SENSe:ZERO:AUTO " (autozero_value autozero)))

  unfoldable pub write_ac_filter : Option AcFilterHz → M fl T (Unit {0})
  write_ac_filter none = pure tt
  write_ac_filter (some hz) = write (append "SENSe:DETector:BANDwidth " (show (ac_filter_value hz)))

  -- What `_apply_configure` records at its end.
  abbrev pub remember :
      MeasurementFunction
      → Option Nplc
      → AutozeroMode
      → Option AcFilterHz
      → Option Aperture
      → Driver fl T
      → Driver fl T
  remember function nplc autozero hz aperture d = record d {
    active_function = some function;
    active_nplc = some_nplc fl nplc;
    active_aperture = some_aperture fl aperture;
    active_autozero = autozero;
    active_ac_filter = some_filter fl hz;
    trigger_source = immediate;
    state = configured;
  }

  unfoldable pub apply_configure :
      MeasurementFunction
      → Range F
      → Option Nplc
      → AutozeroMode
      → Option AcFilterHz
      → Option Aperture
      → M fl T (Unit {0})
  unfolding write_autorange write_nplc write_autozero write_ac_filter
  apply_configure function range nplc autozero hz aperture = do
    range_token ← lift (validate_range fl function range)
    conf ← lift (or_key_error (configure_mnemonic function))
    write (conf_command function conf range_token)
    write_autorange (sense_mnemonic function) range
    write_nplc function nplc
    write_autozero function autozero
    write_ac_filter hz
    modify (remember function nplc autozero hz aperture)

  -- A call of `_last_configure`.
  unfoldable pub run_configure : Configure F → M fl T (Unit {0})
  run_configure (plain function range nplc autozero hz) =
      apply_configure function range nplc autozero hz none
  run_configure (frequency range aperture) = do
    apply_configure freq range none on none (some aperture)
    write (append "SENSe:FREQuency:APERture " (num fl (aperture_value fl aperture)))
  run_configure (period range aperture) = do
    apply_configure Enums.period range none on none (some aperture)
    write (append "SENSe:PERiod:APERture " (num fl (aperture_value fl aperture)))

  -- What each `configure_*` does: the closure is stored before it is called.
  unfoldable pub configure : Configure F → M fl T (Unit {0})
  configure c = do modify (λ d. record d { last_configure = some c }); run_configure c

  abbrev pub configure_dc_voltage : Range F → Nplc → AutozeroMode → M fl T (Unit {0})
  configure_dc_voltage range nplc autozero =
      configure (plain volt_dc range (some nplc) autozero none)

  abbrev pub configure_ac_voltage : Range F → AcFilterHz → M fl T (Unit {0})
  configure_ac_voltage range hz = configure (plain volt_ac range none on (some hz))

  abbrev pub configure_dc_current : Range F → Nplc → AutozeroMode → M fl T (Unit {0})
  configure_dc_current range nplc autozero =
      configure (plain curr_dc range (some nplc) autozero none)

  abbrev pub configure_ac_current : Range F → AcFilterHz → M fl T (Unit {0})
  configure_ac_current range hz = configure (plain curr_ac range none on (some hz))

  abbrev pub configure_2wire_resistance : Range F → Nplc → AutozeroMode → M fl T (Unit {0})
  configure_2wire_resistance range nplc autozero =
      configure (plain res_2w range (some nplc) autozero none)

  abbrev pub configure_4wire_resistance : Range F → Nplc → AutozeroMode → M fl T (Unit {0})
  configure_4wire_resistance range nplc autozero =
      configure (plain res_4w range (some nplc) autozero none)

  abbrev pub configure_frequency : Range F → Aperture → M fl T (Unit {0})
  configure_frequency range aperture = configure (frequency range aperture)

  abbrev pub configure_period : Range F → Aperture → M fl T (Unit {0})
  configure_period range aperture = configure (period range aperture)

  abbrev pub configure_continuity : M fl T (Unit {0})
  configure_continuity = configure (plain continuity (token def_range) none on none)

  abbrev pub configure_diode : M fl T (Unit {0})
  configure_diode = configure (plain diode (token def_range) none on none)

  -- `if self._last_configure is not None: self._last_configure(); actions.append("reconfigure")`
  abbrev pub reconfigure : Option (Configure F) → M fl T (Unit {0})
  reconfigure none = pure tt
  reconfigure (some c) = do run_configure c; append_action "reconfigure"

  pub recover_steps : M fl T (Unit {0})
  recover_steps = do
    transport_recover append_action (some drain_all)
    λ d. reconfigure d.last_configure d
    modify (λ d. record d {
      state = if is_some d.last_configure then configured else connected_remote;
    })

  pub recover : M fl T RecoveryReport
  recover d =
      let (r, d') = recover_steps (record d { actions = [] }) in
      elim r [
        | ok _ ↦ (
          ok (record {
            succeeded = true;
            actions = d'.actions;
            final_state = d'.state;
            message = none;
          }),
          d',
        )
        | err e ↦ (
          if is_hp_error e
              then ok (record {
                succeeded = false;
                actions = d'.actions;
                final_state = d'.state;
                message = some e;
              })
              else err e,
          d',
        )
      ]
