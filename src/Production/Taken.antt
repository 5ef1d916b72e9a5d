-- ===== src/Production/Taken.antt =====
-- How the reading of a test step came about: on which terminals, with which set-up.
use hp34401a_driver.Base.{
  true, false, Option, none, some, ◌≡◌, refl, inl, inr, ◌⊎◌, Bool, if◌then◌else◌,
}
use hp34401a_driver.Float.{Float}
use hp34401a_driver.Enums.{
  MeasurementFunction, volt_dc, volt_ac, curr_dc, res_2w, res_4w, InputTerminal, same_terminal,
  AcFilterHz, Range, Nplc, hz20, on,
}
use hp34401a_driver.Errors.{Result, ok, err, base}
use hp34401a_driver.Measurement.{MeasurementReading}
use hp34401a_driver.Transport.{Transport}
use hp34401a_driver.Driver.{Driver, M, lift, ◌>>=◌, ◌>>◌, plain}
use hp34401a_driver.Driver.Status.{query_terminal, require_terminal}
use hp34401a_driver.Driver.Settings.{configure}
use hp34401a_driver.Driver.Read.{read_once}
use hp34401a_driver.Driver.Read.Sound.{IsSound, Reads, read_once-Reads}
use hp34401a_driver.Production.{TestStep, dispatch, require_if, take_reading}

module _ {fl : Float} {T : Transport fl.F} where
  open fl use {F}

  -- The function was configured with the range and the integration time, an AC voltage with the
  -- filter in place of the time, and then the reading was taken once.
  pub record Measures (function : MeasurementFunction) (range : Range F) (nplc : Nplc)
      (before : Driver fl T) (r : MeasurementReading F) : Type 0 where
    pub time : Option Nplc
    pub filter : Option AcFilterHz
    pub time_or_filter : (time ≡ some nplc) ⊎ ((function ≡ volt_ac) × (filter ≡ some hz20))
    pub configured : Driver fl T
    pub after : Driver fl T
    pub is_configured : configure (plain function range time on filter) before ≡ (ok tt, configured)
    pub is_read : read_once configured ≡ (ok r, after)

  -- The instrument reported the terminals that are required, if any are.
  pub data OnTerminals (before : Driver fl T) : Option InputTerminal → Driver fl T → Type 0 where
    any : OnTerminals before none before
    found :
        (expected actual : InputTerminal) (after : Driver fl T)
        → query_terminal before ≡ (ok actual, after)
        → same_terminal actual expected ≡ true
        → OnTerminals before (some expected) after

module _ (fl : Float) (T : Transport fl.F) where
  open fl use {F}

  -- From the terminals to the reading of a step.
  pub record Taken (step : TestStep F) (r : MeasurementReading F) : Type 0 where
    pub start : Driver fl T
    pub arrived : Driver fl T
    pub on_terminals : OnTerminals start step.required_terminal arrived
    pub measures : Measures step.function step.range_value step.nplc arrived r

module _ {fl : Float} {T : Transport fl.F} where
  open fl use {F}

  MeasuresIfOk :
      MeasurementFunction
      → Range F
      → Nplc
      → Driver fl T
      → Result (MeasurementReading F) × Driver fl T
      → Type 0
  MeasuresIfOk function range nplc d (ok r, d') = IsSound fl r × Measures function range nplc d r
  MeasuresIfOk function range nplc d (err e, d') = Unit

  module _ (function : MeasurementFunction) (range : Range F) (nplc : Nplc) (time : Option Nplc)
      (filter : Option AcFilterHz)
      (which : (time ≡ some nplc) ⊎ ((function ≡ volt_ac) × (filter ≡ some hz20))) where
    read_then :
        (d d' : Driver fl T) (p : Result (MeasurementReading F) × Driver fl T)
        → configure (plain function range time on filter) d ≡ (ok tt, d')
        → read_once d' ≡ p
        → Reads p
        → MeasuresIfOk function range nplc d p
    unfolding MeasuresIfOk
    read_then d d' (ok r, d'') c e (s, _, _) = (
      s,
      record {
        time = time;
        filter = filter;
        time_or_filter = which;
        configured = d';
        after = d'';
        is_configured = c;
        is_read = e;
      },
    )
    read_then d d' (err x, d'') c e s = tt

    configure_then :
        (d : Driver fl T) (p : Result (Unit {0}) × Driver fl T)
        → configure (plain function range time on filter) d ≡ p
        → MeasuresIfOk function range nplc d (((λ _. p) >> read_once) d)
    unfolding MeasuresIfOk
    configure_then d (ok _, d') c = read_then d d' (read_once d') c refl (read_once-Reads d')
    configure_then d (err x, d') c = tt

  dispatch-Measures :
      (function : MeasurementFunction) (range : Range F) (nplc : Nplc) (d : Driver fl T)
      → MeasuresIfOk function range nplc d (dispatch function range nplc d)
  unfolding MeasuresIfOk
  dispatch-Measures volt_dc range nplc d =
      configure_then volt_dc range nplc (some nplc) none (inl refl) d _ refl
  dispatch-Measures volt_ac range nplc d =
      configure_then volt_ac range nplc none (some hz20) (inr (refl, refl)) d _ refl
  dispatch-Measures curr_dc range nplc d =
      configure_then curr_dc range nplc (some nplc) none (inl refl) d _ refl
  dispatch-Measures res_2w range nplc d =
      configure_then res_2w range nplc (some nplc) none (inl refl) d _ refl
  dispatch-Measures res_4w range nplc d =
      configure_then res_4w range nplc (some nplc) none (inl refl) d _ refl
  dispatch-Measures _ range nplc d = tt

  -- What an attempt to take the reading of a step gives.
  abbrev pub TakenIfOk : TestStep F → Result (MeasurementReading F) × Driver fl T → Type 0
  TakenIfOk step (ok r, d) = IsSound fl r × Taken fl T step r
  TakenIfOk step (err e, d) = Unit

  on_terminals-Taken :
      (step : TestStep F) (d d' : Driver fl T) (p : Result (MeasurementReading F) × Driver fl T)
      → OnTerminals d step.required_terminal d'
      → MeasuresIfOk step.function step.range_value step.nplc d' p
      → TakenIfOk step p
  unfolding MeasuresIfOk
  on_terminals-Taken step d d' (ok r, d'') reached (s, m) =
      (s, record { start = d; arrived = d'; on_terminals = reached; measures = m })
  on_terminals-Taken step d d' (err e, d'') reached h = tt

  -- What `require_terminal` makes of the answer of the instrument.
  judged_terminal :
      (d : Driver fl T) (expected actual : InputTerminal) (b : Bool) (d' : Driver fl T)
      (m : M fl T (MeasurementReading F)) (step : TestStep F)
      → query_terminal d ≡ (ok actual, d')
      → same_terminal actual expected ≡ b
      → (OnTerminals d (some expected) d' → TakenIfOk step (m d'))
      → TakenIfOk step ((lift (if b then ok tt else err base) >> m) d')
  judged_terminal d expected actual true d' m step q s k = k (found expected actual d' q s)
  judged_terminal d expected actual false d' m step q s k = tt

  after_terminal :
      (d : Driver fl T) (expected : InputTerminal) (p : Result InputTerminal × Driver fl T)
      (m : M fl T (MeasurementReading F)) (step : TestStep F)
      → query_terminal d ≡ p
      → ((d' : Driver fl T) → OnTerminals d (some expected) d' → TakenIfOk step (m d'))
      → TakenIfOk step (
          (((λ _. p) >>= λ actual. lift (if same_terminal actual expected then ok tt else err base))
              >> m)
            d)
  after_terminal d expected (ok actual, d') m step q k =
      judged_terminal d expected actual (same_terminal actual expected) d' m step q refl (k d')
  after_terminal d expected (err e, d') m step q k = tt

  required :
      (o : Option InputTerminal) (d : Driver fl T) (m : M fl T (MeasurementReading F))
      (step : TestStep F)
      → ((d' : Driver fl T) → OnTerminals d o d' → TakenIfOk step (m d'))
      → TakenIfOk step ((require_if o >> m) d)
  unfolding require_terminal
  required none d m step k = k d any
  required (some expected) d m step k = after_terminal d expected (query_terminal d) m step refl k

  pub take_reading-Taken :
      (step : TestStep F) (d : Driver fl T) → TakenIfOk step (take_reading step d)
  unfolding take_reading
  take_reading-Taken step d =
      let m = dispatch step.function step.range_value step.nplc in
      required step.required_terminal d m step (λ d' reached.
        on_terminals-Taken step d d' (m d') reached
          (dispatch-Measures step.function step.range_value step.nplc d'))
