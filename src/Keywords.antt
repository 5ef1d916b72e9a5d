-- ===== src/Keywords.antt =====
-- rf_hp34401a/legacy_library.py and rf_hp34401a/exceptions.py: the keywords that configure, measure
-- and test, over the session that their alias names, if it is open. What they return is the record of
-- the driver in place of a dictionary; log calls are left out, and the evidence is in Evidence.
pub mod Sound
pub mod Readings
pub mod Stable
pub mod Device
pub mod Assertions
use hp34401a_driver.Base.{
  ℕ, String, Bool, true, false, not, ◌&&◌, ◌||◌, Option, none, some, List, [], ◌∷◌, if◌then◌else◌,
  is_some,
}
use hp34401a_driver.Base.Text.{codes, lower, contains}
use hp34401a_driver.Float.{Float}
use hp34401a_driver.Enums.{AutozeroMode, AutoRange, TriggerSource}
use hp34401a_driver.Errors.{
  Error, connection, timeout, transport, protocol, overload, not_stable, safety, recovery, base,
  scpi, value_error, os_error, key_error, other, ScpiClass, command_error, execution_error,
  query_error, device_error, scpi_error, Result, ok, err,
}
use hp34401a_driver.Measurement.{MeasurementReading}
use hp34401a_driver.Transport.{Transport}
use hp34401a_driver.Driver.{Driver, M}
use hp34401a_driver.Converters.{
  Arg, MemberOr, as_range, as_nplc, as_autozero, as_ac_filter, as_aperture, as_trigger_source,
  as_float,
}
use hp34401a_driver.Driver.{◌>>◌}
use hp34401a_driver.Driver.Raw.{write, query}
use hp34401a_driver.Driver.Settings.{
  configure_dc_voltage, configure_ac_voltage, configure_dc_current, configure_ac_current,
  configure_2wire_resistance, configure_4wire_resistance, configure_frequency, configure_period,
  configure_continuity, configure_diode,
}
use hp34401a_driver.Driver.Read.{
  read_once, measure_dc_voltage, measure_ac_voltage, measure_dc_current, measure_2wire_resistance,
  measure_4wire_resistance,
}
use hp34401a_driver.Driver.Bus.{read_once_bus, set_trigger_source, initiate, trigger_bus}

-- The subclasses of RFDSDriverError that the keywords raise or could raise, by their names.
pub data RobotClass : Type 0 where
  hp34401a_robot_error driver_validation_error driver_configuration_error driver_state_error
        driver_connection_error driver_transport_error driver_protocol_error driver_device_error
        driver_timeout_error driver_safety_error driver_unsupported_operation_error
        driver_cleanup_error :
      RobotClass

-- `default_retryable`
abbrev pub default_retryable : RobotClass → Bool
default_retryable driver_connection_error = true
default_retryable driver_timeout_error = true
default_retryable _ = false

-- `type(exc).__name__.lower()`; of those that are no Hp34401AError, no name has one of the words
-- that are looked for.
unfoldable class_name : Error → List ℕ
class_name connection = lower "InstrumentConnectionError"
class_name timeout = lower "InstrumentTimeoutError"
class_name transport = lower "TransportError"
class_name protocol = lower "ProtocolError"
class_name overload = lower "OverloadError"
class_name not_stable = lower "MeasurementNotStableError"
class_name safety = lower "SafetyError"
class_name recovery = lower "RecoveryError"
class_name base = lower "Hp34401AError"
class_name (scpi command_error n s t) = lower "CommandError"
class_name (scpi execution_error n s t) = lower "ExecutionError"
class_name (scpi query_error n s t) = lower "QueryError"
class_name (scpi device_error n s t) = lower "DeviceError"
class_name (scpi scpi_error n s t) = lower "ScpiError"
class_name _ = []

abbrev is_value_error : Error → Bool
is_value_error value_error = true
is_value_error _ = false

abbrev is_os_error : Error → Bool
is_os_error os_error = true
is_os_error _ = false

-- The handler of `_execute`.
pub translate : Error → RobotClass
unfolding class_name
translate e =
    let has = λ (word : String). contains (codes word) (class_name e) in
    if is_value_error e
    then driver_validation_error
    else if has "timeout"
    then driver_timeout_error
    else if is_os_error e || has "connection"
    then driver_connection_error
    else if has "protocol" || has "parse"
    then driver_protocol_error
    else if has "device" || has "overload"
    then driver_device_error
    else hp34401a_robot_error

-- What a call under `_execute` does: it returns, or raises an RFDSDriverError or another exception.
pub data Raised (A : Type 0) : Type 0 where
  returned : A → Raised A
  rfds : RobotClass → Raised A
  native : Error → Raised A

-- What a keyword does: `untranslated` are exceptions that pass no `_execute`.
pub data Answer (A : Type 0) : Type 0 where
  done : A → Answer A
  robot : RobotClass → Answer A
  assertion_failed : Answer A
  untranslated : Error → Answer A

-- `_execute`
unfoldable pub execute : {A : Type 0} → Raised A → Answer A
execute (returned a) = done a
execute (rfds c) = robot c
execute (native e) = robot (translate e)

abbrev pub raised_of : {A : Type 0} → Result A → Raised A
raised_of (ok a) = returned a
raised_of (err e) = native e

-- The keywords that configure, each with its arguments but for the alias.
pub data ConfigureCall (F : Type 0) : Type 0 where
  call_dc_voltage call_dc_current call_2wire_resistance call_4wire_resistance :
      MemberOr AutoRange F → Arg F → MemberOr AutozeroMode F → ConfigureCall F
  call_ac_voltage call_ac_current : MemberOr AutoRange F → Arg F → ConfigureCall F
  call_frequency call_period : MemberOr AutoRange F → Arg F → ConfigureCall F
  call_continuity call_diode : ConfigureCall F

-- The keywords that measure, all but the one with a bus trigger.
pub data MeasureCall (F : Type 0) : Type 0 where
  read : MeasureCall F
  dc_voltage ac_voltage dc_current ac_current two_wire four_wire frequency period :
      MemberOr AutoRange F → Arg F → MeasureCall F
  continuity diode : MeasureCall F

module _ (fl : Float) (T : Transport fl.F) where
  pub record Session : Type 0 where
    pub driver : Driver fl T
    pub last_reading : Option (MeasurementReading fl.F)

  -- The session is that of the alias of the calls.
  pub record Library : Type 0 where
    pub session : Option Session
    pub allow_raw_io : Bool

  abbrev pub Producer : Type 0 → Type 0
  Producer A = Driver fl T → Raised A × Driver fl T

  abbrev Keyword : Type 0 → Type 0
  Keyword A = Library → Answer A × Library

module _ {fl : Float} {T : Transport fl.F} where
  open fl use {F, lt, le}

  -- A call of the driver.
  abbrev pub call : {A : Type 0} → M fl T A → Producer fl T A
  call m d = let (r, d') = m d in (raised_of r, d')

  -- An argument, which is converted before the driver is called.
  abbrev pub converted : {A B : Type 0} → Option A → (A → Producer fl T B) → Producer fl T B
  converted none f d = (rfds driver_validation_error, d)
  converted (some a) f d = f a d

  -- `self._session(alias)`
  abbrev pub with_session : {A : Type 0} → (Session fl T → Answer A × Session fl T) → Keyword fl T A
  with_session f lib = elim lib.session [
    | none ↦ (robot driver_state_error, lib)
    | some s ↦ let (a, s') = f s in (a, record lib { session = some s' })
  ]

  -- `self._execute(...)` of a call of the driver
  pub on_driver : {A : Type 0} → Producer fl T A → Keyword fl T A
  on_driver p = with_session (λ s. let (r, d) = p s.driver in (execute r, record s { driver = d }))

  -- `_accept_reading`
  unfoldable pub accept_reading : MeasurementReading F → Session fl T → Raised F × Session fl T
  accept_reading reading s =
      let s' = record s { last_reading = some reading } in
      if reading.is_overload
      then (native overload, s')
      else if not reading.is_valid
      then (rfds hp34401a_robot_error, s')
      else elim reading.reading_value [
        | none ↦ (rfds hp34401a_robot_error, s')
        | some v ↦ (returned v, s')
      ]

  abbrev accept_raised : Raised (MeasurementReading F) → Session fl T → Raised F × Session fl T
  accept_raised (returned reading) s = accept_reading reading s
  accept_raised (rfds c) s = (rfds c, s)
  accept_raised (native e) s = (native e, s)

  -- `_measure`
  unfoldable pub measure : Producer fl T (MeasurementReading F) → Keyword fl T F
  measure p = with_session (λ s.
      let (r, d) = p s.driver in
      let (x, s') = accept_raised r (record s { driver = d }) in (execute x, s'))

  -- What each keyword that configures calls under `_execute`.
  unfoldable configuring : ConfigureCall F → Producer fl T (Unit {0})
  configuring (call_dc_voltage range nplc autozero) = converted (as_range fl range) (λ r.
      converted (as_nplc fl nplc)
        (λ n. converted (as_autozero fl autozero) (λ z. call (configure_dc_voltage r n z))))
  configuring (call_dc_current range nplc autozero) = converted (as_range fl range) (λ r.
      converted (as_nplc fl nplc)
        (λ n. converted (as_autozero fl autozero) (λ z. call (configure_dc_current r n z))))
  configuring (call_2wire_resistance range nplc autozero) = converted (as_range fl range) (λ r.
      converted (as_nplc fl nplc)
        (λ n. converted (as_autozero fl autozero) (λ z. call (configure_2wire_resistance r n z))))
  configuring (call_4wire_resistance range nplc autozero) = converted (as_range fl range) (λ r.
      converted (as_nplc fl nplc)
        (λ n. converted (as_autozero fl autozero) (λ z. call (configure_4wire_resistance r n z))))
  configuring (call_ac_voltage range hz) =
      converted (as_range fl range)
        (λ r. converted (as_ac_filter fl hz) (λ h. call (configure_ac_voltage r h)))
  configuring (call_ac_current range hz) =
      converted (as_range fl range)
        (λ r. converted (as_ac_filter fl hz) (λ h. call (configure_ac_current r h)))
  configuring (call_frequency range aperture) =
      converted (as_range fl range)
        (λ r. converted (as_aperture fl aperture) (λ a. call (configure_frequency r a)))
  configuring (call_period range aperture) =
      converted (as_range fl range)
        (λ r. converted (as_aperture fl aperture) (λ a. call (configure_period r a)))
  configuring call_continuity = call configure_continuity
  configuring call_diode = call configure_diode

  configure_keyword : ConfigureCall F → Keyword fl T (Unit {0})
  configure_keyword c = on_driver (configuring c)

  -- What each keyword that measures calls.
  unfoldable pub producing : MeasureCall F → Producer fl T (MeasurementReading F)
  producing read = call read_once
  producing (dc_voltage range nplc) =
      converted (as_range fl range)
        (λ r. converted (as_nplc fl nplc) (λ n. call (measure_dc_voltage r n)))
  producing (ac_voltage range hz) =
      converted (as_range fl range)
        (λ r. converted (as_ac_filter fl hz) (λ h. call (measure_ac_voltage r h)))
  producing (dc_current range nplc) =
      converted (as_range fl range)
        (λ r. converted (as_nplc fl nplc) (λ n. call (measure_dc_current r n)))
  producing (ac_current range hz) =
      converted (as_range fl range)
        (λ r. converted (as_ac_filter fl hz) (λ h. call (configure_ac_current r h >> read_once)))
  producing (two_wire range nplc) =
      converted (as_range fl range)
        (λ r. converted (as_nplc fl nplc) (λ n. call (measure_2wire_resistance r n)))
  producing (four_wire range nplc) =
      converted (as_range fl range)
        (λ r. converted (as_nplc fl nplc) (λ n. call (measure_4wire_resistance r n)))
  producing (frequency range aperture) =
      converted (as_range fl range) (λ r.
        converted (as_aperture fl aperture) (λ a. call (configure_frequency r a >> read_once)))
  producing (period range aperture) =
      converted (as_range fl range)
        (λ r. converted (as_aperture fl aperture) (λ a. call (configure_period r a >> read_once)))
  producing continuity = call (configure_continuity >> read_once)
  producing diode = call (configure_diode >> read_once)

  unfoldable pub measure_keyword : MeasureCall F → Keyword fl T F
  measure_keyword c = measure (producing c)

  -- The triggers.
  read_dmm_once_with_bus_trigger : Keyword fl T F
  read_dmm_once_with_bus_trigger = measure (call read_once_bus)

  set_dmm_trigger_source : MemberOr TriggerSource F → Keyword fl T (Unit {0})
  set_dmm_trigger_source source =
      on_driver (converted (as_trigger_source fl source) (λ t. call (set_trigger_source t)))

  -- `_require_raw_io`, then the call
  abbrev guarded : {A : Type 0} → Keyword fl T A → Keyword fl T A
  guarded k lib = if not lib.allow_raw_io then (robot driver_state_error, lib) else k lib

  unfoldable write_dmm_command : String → Keyword fl T (Unit {0})
  write_dmm_command command = guarded (on_driver (call (write command)))

  unfoldable query_dmm_command : String → Keyword fl T String
  query_dmm_command command = guarded (on_driver (call (query command)))
