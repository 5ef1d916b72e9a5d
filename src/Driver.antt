-- ===== src/Driver.antt =====
-- The state of Hp34401A (hp34401a_dmm/legacy_driver.py) and the shape of its methods: functions of
-- the state that return or raise, and keep what was written before a raise. The methods are in
-- the modules below. The reentrant lock makes each public method atomic, so it does not show.
pub mod Guard
pub mod Frame
pub mod Raw
pub mod Status
pub mod Estimate
pub mod Validate
pub mod Settings
pub mod Read
pub mod Bus
pub mod Connect
pub mod Policy
pub mod Stable
use hp34401a_driver.Base.{
  ℕ, String, Bool, true, false, Option, none, some, List, [], ◌∷◌, ◌++◌, if◌then◌else◌,
}
use hp34401a_driver.Float.{Float}
use hp34401a_driver.Enums.{
  MeasurementFunction, InputTerminal, TriggerSource, AutozeroMode, AcFilterHz, Aperture, Nplc,
  CommandState, Range, immediate, on, closed, is_serial_type,
}
use hp34401a_driver.Errors.{Error, Result, ok, err, is_hp_error}
use hp34401a_driver.Measurement.{Identity}
use hp34401a_driver.Config.{DriverConfig}
use hp34401a_driver.Transport.{Transport}

pub data Direction : Type 0 where
  outbound inbound : Direction

-- What `_last_configure` closes over: the arguments of `_apply_configure`, or the two closures
-- that set an aperture after it.
pub data Configure (F : Type 0) : Type 0 where
  plain :
      MeasurementFunction → Range F → Option Nplc → AutozeroMode → Option AcFilterHz → Configure F
  frequency period : Range F → Aperture → Configure F

abbrev pub Calls : Type 0
Calls = List (Direction × String)

abbrev pub traced : Direction → String → Option Calls → Option Calls
traced way text none = none
traced way text (some calls) = some (calls ++ (way, text) ∷ [])

module _ (fl : Float) (T : Transport fl.F) where
  open fl use {F}
  open T use {S}

  -- `trace` is what the trace callback was called with, if one is set. `actions` is the list
  -- object that the running `recover` or `read_once` appends its actions to.
  pub record Driver : Type 0 where
    pub t : S
    pub cfg : DriverConfig F
    pub state : CommandState
    pub identity : Option Identity
    pub scpi_version : Option String
    pub reconnect_count : ℕ
    pub trigger_source : TriggerSource
    pub terminal : Option InputTerminal
    pub last_configure : Option (Configure F)
    pub active_function : Option MeasurementFunction
    pub active_nplc : Option F
    pub active_aperture : Option F
    pub active_autozero : AutozeroMode
    pub active_ac_filter : Option F
    pub in_recovery : Bool
    pub trace : Option Calls
    pub actions : List String

  abbrev pub M : Type 0 → Type 0
  M A = Driver → Result A × Driver

  -- `Hp34401A.__init__`
  abbrev pub init : S → DriverConfig F → Driver
  init s c = record {
    t = s;
    cfg = c;
    state = closed;
    identity = none;
    scpi_version = none;
    reconnect_count = 0;
    trigger_source = immediate;
    terminal = none;
    last_configure = none;
    active_function = none;
    active_nplc = none;
    active_aperture = none;
    active_autozero = on;
    active_ac_filter = none;
    in_recovery = false;
    trace = none;
    actions = [];
  }

  abbrev pub is_serial : Bool
  is_serial = is_serial_type T.transport_type

module _ {fl : Float} {T : Transport fl.F} where
  abbrev pub pure : {A : Type 0} → A → M fl T A
  pure a d = (ok a, d)

  abbrev pub raise : {A : Type 0} → Error → M fl T A
  raise e d = (err e, d)

  abbrev pub lift : {A : Type 0} → Result A → M fl T A
  lift r d = (r, d)

  abbrev pub modify : (Driver fl T → Driver fl T) → M fl T (Unit {0})
  modify f d = (ok tt, f d)

  infixl 5 ◌>>=◌ ◌>>◌
  abbrev pub ◌>>=◌ : {A B : Type 0} → M fl T A → (A → M fl T B) → M fl T B
  ◌>>=◌ m f d = let (r, d') = m d in elim r [ ok a ↦ f a d' | err e ↦ (err e, d') ]

  abbrev pub ◌>>◌ : {A B : Type 0} → M fl T A → M fl T B → M fl T B
  m >> k = m >>= λ _. k

  abbrev pub when : Bool → M fl T (Unit {0}) → M fl T (Unit {0})
  when b m = if b then m else pure tt

  -- `try: m` with `except Hp34401AError: pass`
  abbrev pub suppress_hp : M fl T (Unit {0}) → M fl T (Unit {0})
  suppress_hp m d =
      let (r, d') = m d in
      elim r [ ok a ↦ (ok tt, d') | err e ↦ (if is_hp_error e then ok tt else err e, d') ]

  -- `try: m` with `finally: k`; an exception of `k` takes the place of what `m` gave
  abbrev pub finally : {A : Type 0} → M fl T A → M fl T (Unit {0}) → M fl T A
  finally m k d =
      let (r, d') = m d in
      let (r', d'') = k d' in elim r' [ ok _ ↦ (r, d'') | err e ↦ (err e, d'') ]

  -- A call of the transport.
  abbrev pub on_transport : {A : Type 0} → (T.S → Result A × T.S) → M fl T A
  on_transport f d = let (r, s) = f d.t in (r, record d { t = s })

  abbrev pub set_state : CommandState → M fl T (Unit {0})
  set_state st = modify (λ d. record d { state = st })

  abbrev pub set_timeout : fl.F → M fl T (Unit {0})
  set_timeout x = modify (λ d. record d { t = T.set_timeout x d.t })

  -- `if self.trace_callback is not None: self.trace_callback(way, text)`
  abbrev pub call_trace : Direction → String → M fl T (Unit {0})
  call_trace way text = modify (λ d. record d { trace = traced way text d.trace })

  -- `actions.append(name)`
  abbrev pub append_action : String → M fl T (Unit {0})
  append_action name = modify (λ d. record d { actions = d.actions ++ name ∷ [] })
