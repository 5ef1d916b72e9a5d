-- ===== src/Enums.antt =====
-- hp34401a_dmm/enums.py: the enumerations with the values that go to the wire, the range tables
-- and the bounds of the instrument. `Nplc` and `Aperture` carry their float values as literals.
use hp34401a_driver.Base.{ℕ, String, Bool, true, false, Option, none, some, List, [], ◌∷◌}
use hp34401a_driver.Base.Int.{pos, negsuc}
use hp34401a_driver.Float.{Float}

pub data MeasurementFunction : Type 0 where
  volt_dc volt_dc_ratio volt_ac curr_dc curr_ac res_2w res_4w : MeasurementFunction
  freq period continuity diode : MeasurementFunction

unfoldable pub unit : MeasurementFunction → String
unit volt_dc = "V"
unit volt_dc_ratio = ""
unit volt_ac = "V"
unit curr_dc = "A"
unit curr_ac = "A"
unit res_2w = "Ohm"
unit res_4w = "Ohm"
unit freq = "Hz"
unit period = "s"
unit continuity = "Ohm"
unit diode = "V"

-- `function in NPLC_FUNCTIONS`
abbrev pub in_nplc_functions : MeasurementFunction → Bool
in_nplc_functions volt_dc = true
in_nplc_functions curr_dc = true
in_nplc_functions res_2w = true
in_nplc_functions res_4w = true
in_nplc_functions _ = false

pub data Nplc : Type 0 where
  plc0_02 plc0_2 plc1 plc10 plc100 : Nplc

pub data Aperture : Type 0 where
  aper0_01 aper0_1 aper1 : Aperture

pub data AcFilterHz : Type 0 where
  hz3 hz20 hz200 : AcFilterHz

abbrev pub ac_filter_value : AcFilterHz → ℕ
ac_filter_value hz3 = 3
ac_filter_value hz20 = 20
ac_filter_value hz200 = 200

pub data TriggerSource : Type 0 where
  immediate bus external : TriggerSource

abbrev pub trigger_source_value : TriggerSource → String
trigger_source_value immediate = "IMMediate"
trigger_source_value bus = "BUS"
trigger_source_value external = "EXTernal"

abbrev pub is_bus : TriggerSource → Bool
is_bus bus = true
is_bus _ = false

pub data AutozeroMode : Type 0 where
  off once on : AutozeroMode

abbrev pub autozero_value : AutozeroMode → String
autozero_value off = "OFF"
autozero_value once = "ONCE"
autozero_value on = "ON"

pub data InputTerminal : Type 0 where
  front rear unknown : InputTerminal

-- `actual != expected`, negated
abbrev pub same_terminal : InputTerminal → InputTerminal → Bool
same_terminal front front = true
same_terminal rear rear = true
same_terminal unknown unknown = true
same_terminal _ _ = false

pub data TransportType : Type 0 where
  serial_rs232 visa_gpib prologix_gpib fake : TransportType

-- `transport_type.name == "SERIAL_RS232"`
abbrev pub is_serial_type : TransportType → Bool
is_serial_type serial_rs232 = true
is_serial_type _ = false

pub data AutoRange : Type 0 where
  auto min_range max_range def_range : AutoRange

abbrev pub auto_range_value : AutoRange → String
auto_range_value auto = "AUTO"
auto_range_value min_range = "MIN"
auto_range_value max_range = "MAX"
auto_range_value def_range = "DEF"

pub data CommandState : Type 0 where
  closed connected_local connected_remote configured waiting_for_trigger : CommandState
  measuring has_unread_output error_recovery : CommandState

-- `state != CommandState.CLOSED`
abbrev pub is_not_closed : CommandState → Bool
is_not_closed closed = false
is_not_closed _ = true

-- `state in (CommandState.CONFIGURED, CommandState.CONNECTED_REMOTE)`
abbrev pub is_readable : CommandState → Bool
is_readable configured = true
is_readable connected_remote = true
is_readable _ = false

abbrev pub max_internal_readings : ℕ
max_internal_readings = 512

abbrev pub max_count : ℕ
max_count = 50000

-- `float | AutoRange`, the argument of a range
pub data Range (F : Type 0) : Type 0 where
  value : F → Range F
  token : AutoRange → Range F

module _ (fl : Float) where
  open fl use {F, lit}

  unfoldable pub nplc_value : Nplc → F
  nplc_value plc0_02 = lit (pos 2) (negsuc 1)
  nplc_value plc0_2 = lit (pos 2) (negsuc 0)
  nplc_value plc1 = lit (pos 1) (pos 0)
  nplc_value plc10 = lit (pos 10) (pos 0)
  nplc_value plc100 = lit (pos 100) (pos 0)

  pub aperture_value : Aperture → F
  aperture_value aper0_01 = lit (pos 1) (negsuc 1)
  aperture_value aper0_1 = lit (pos 1) (negsuc 0)
  aperture_value aper1 = lit (pos 1) (pos 0)

  voltage_dc_ranges : List F
  voltage_dc_ranges =
      lit (pos 1) (negsuc 0)
      ∷ lit (pos 1) (pos 0)
      ∷ lit (pos 10) (pos 0)
      ∷ lit (pos 100) (pos 0)
      ∷ lit (pos 1000) (pos 0)
      ∷ []

  voltage_ac_ranges : List F
  voltage_ac_ranges =
      lit (pos 1) (negsuc 0)
      ∷ lit (pos 1) (pos 0)
      ∷ lit (pos 10) (pos 0)
      ∷ lit (pos 100) (pos 0)
      ∷ lit (pos 750) (pos 0)
      ∷ []

  resistance_ranges : List F
  resistance_ranges =
      lit (pos 100) (pos 0)
      ∷ lit (pos 1) (pos 3)
      ∷ lit (pos 10) (pos 3)
      ∷ lit (pos 100) (pos 3)
      ∷ lit (pos 1) (pos 6)
      ∷ lit (pos 10) (pos 6)
      ∷ lit (pos 100) (pos 6)
      ∷ []

  current_dc_ranges : List F
  current_dc_ranges =
      lit (pos 1) (negsuc 1)
      ∷ lit (pos 1) (negsuc 0)
      ∷ lit (pos 1) (pos 0)
      ∷ lit (pos 3) (pos 0)
      ∷ []

  current_ac_ranges : List F
  current_ac_ranges = lit (pos 1) (pos 0) ∷ lit (pos 3) (pos 0) ∷ []

  -- `RANGE_TABLES.get(function)`
  unfoldable pub range_table : MeasurementFunction → Option (List F)
  unfolding voltage_dc_ranges voltage_ac_ranges resistance_ranges current_dc_ranges
      current_ac_ranges
  range_table volt_dc = some voltage_dc_ranges
  range_table volt_ac = some voltage_ac_ranges
  range_table res_2w = some resistance_ranges
  range_table res_4w = some resistance_ranges
  range_table curr_dc = some current_dc_ranges
  range_table curr_ac = some current_ac_ranges
  range_table _ = none

  unfoldable pub overload_threshold : F
  overload_threshold = lit (pos 98) (pos 36)
