-- ===== src/Driver/Bus.antt =====
-- The BUS-triggered flow of hp34401a_dmm/legacy_driver.py: INITiate, *TRG, FETCh?, and the guard
-- that keeps READ? away from a BUS trigger.
pub mod Flow
use Prim.Native.String.{◌++◌ as append}
use hp34401a_driver.Base.{
  String, Bool, true, false, not, Option, none, some, List, [], ◌∷◌, if◌then◌else◌, map,
}
use hp34401a_driver.Base.Int.{pos, negsuc}
use hp34401a_driver.Float.{Float}
use hp34401a_driver.Enums.{
  TriggerSource, bus, is_bus, trigger_source_value, waiting_for_trigger, connected_remote,
}
use hp34401a_driver.Errors.{Result, ok, err, protocol}
use hp34401a_driver.Measurement.{MeasurementReading}
use hp34401a_driver.Parser.{parse_reading_list}
use hp34401a_driver.Transport.{Transport}
use hp34401a_driver.Driver.{Driver, M, pure, raise, lift, modify, ◌>>=◌, ◌>>◌, set_state, is_serial}
use hp34401a_driver.Driver.Raw.{write, query}
use hp34401a_driver.Driver.Read.{build_reading, ready}

-- `readings[0]` behind its test
abbrev first_reading : {A : Type 0} → List A → Result A
first_reading [] = err protocol
first_reading (r ∷ rs) = ok r

-- `time.sleep(0.05 if self._is_serial else 0.02)`
abbrev bus_pause : (fl : Float) → Bool → fl.F
bus_pause fl serial = if serial then fl.lit (pos 5) (negsuc 1) else fl.lit (pos 2) (negsuc 1)

module _ {fl : Float} {T : Transport fl.F} where
  open fl use {F}

  unfoldable pub set_trigger_source : TriggerSource → M fl T (Unit {0})
  set_trigger_source source = do
    write (append "TRIGger:SOURce " (trigger_source_value source))
    modify (λ d. record d { trigger_source = source })

  unfoldable pub initiate : M fl T (Unit {0})
  initiate = do
    write "DATA:FEED RDG_STORE,\"CALC\""
    write "INITiate"
    set_state waiting_for_trigger

  unfoldable pub trigger_bus : M fl T (Unit {0})
  trigger_bus d = if not (is_bus d.trigger_source) then (err protocol, d) else write "*TRG" d

  -- One reading for each value.
  readings_of : String → List F → Driver fl T → List (MeasurementReading F)
  readings_of raw values d = map (λ v. build_reading (some v) raw 0 [] d) values

  unfoldable pub fetch : M fl T (List (MeasurementReading F))
  unfolding readings_of
  fetch = do
    raw ← query "FETCh?"
    values ← lift (parse_reading_list fl raw)
    λ d. (ok (readings_of raw values d), d)

  unfoldable pub read_once_bus : M fl T (MeasurementReading F)
  read_once_bus = do
    λ d. (ready d, d)
    set_trigger_source bus
    write "TRIGger:COUNt 1"
    write "SAMPle:COUNt 1"
    initiate
    modify (λ d. record d { t = T.sleep (bus_pause fl (is_serial fl T)) d.t })
    trigger_bus
    readings ← fetch
    reading ← lift (first_reading readings)
    set_state connected_remote
    pure reading

  pub read_query : M fl T String
  read_query d = if is_bus d.trigger_source then (err protocol, d) else query "READ?" d
