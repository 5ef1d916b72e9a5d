-- ===== src/Keywords/Sound.antt =====
-- What the number of a measuring keyword is worth.
use mathlib.Core.Path.{subst}
use hp34401a_driver.Base.{
  true, false, Option, none, some, ◌≡◌, refl, inl, inr, Bool-cases, Option-cases,
}
use hp34401a_driver.Float.{Float}
use hp34401a_driver.Errors.{Result, ok, err}
use hp34401a_driver.Measurement.{MeasurementReading}
use hp34401a_driver.Transport.{Transport}
use hp34401a_driver.Driver.{Driver, M, ◌>>◌}
use hp34401a_driver.Driver.Read.{read_once}
use hp34401a_driver.Driver.Read.Sound.{IsSound, Reads, read_once-Reads}
use hp34401a_driver.Enums.{on}
use hp34401a_driver.Driver.Settings.{
  configure_dc_voltage, configure_ac_voltage, configure_dc_current, configure_ac_current,
  configure_2wire_resistance, configure_4wire_resistance, configure_frequency, configure_period,
  configure_continuity, configure_diode,
}
use hp34401a_driver.Converters.{as_range, as_nplc, as_ac_filter, as_aperture}
use hp34401a_driver.Keywords.{
  raised_of, Raised, returned, rfds, native, Answer, done, robot, assertion_failed, untranslated,
  execute, Session, Library, Producer, call, converted, accept_reading, accept_raised, measure,
  MeasureCall, read, dc_voltage, ac_voltage, dc_current, ac_current, two_wire, four_wire, frequency,
  period, continuity, diode, producing, measure_keyword,
}

module _ {fl : Float} {T : Transport fl.F} where
  open fl use {F}

  -- A producer that gives readings of `read_once` only.
  abbrev Yields : Raised (MeasurementReading F) × Driver fl T → Type 0
  Yields (returned r, d) = IsSound fl r
  Yields (rfds c, d) = Unit
  Yields (native e, d) = Unit

  abbrev AllSound : Producer fl T (MeasurementReading F) → Type 0
  AllSound p = (d : Driver fl T) → Yields (p d)

  converted-Yields :
      {A : Type 0} (o : Option A) (f : A → Producer fl T (MeasurementReading F))
      → ((a : A) → AllSound (f a))
      → AllSound (converted o f)
  converted-Yields none f h d = tt
  converted-Yields (some a) f h d = h a d

  reading-Yields :
      (x : Result (MeasurementReading F) × Driver fl T) → Reads x → Yields (raised_of x.0, x.1)
  reading-Yields (ok r, d) (sound, few, remote) = sound
  reading-Yields (err e, d) h = tt

  read-Yields : AllSound (call read_once)
  read-Yields d = reading-Yields (read_once d) (read_once-Reads d)

  after_setup :
      (p : Result (Unit {0}) × Driver fl T) (d : Driver fl T)
      → Yields (call ((λ _. p) >> read_once) d)
  after_setup (ok _, d') d = read-Yields d'
  after_setup (err e, d') d = tt

  setup-Yields : (m : M fl T (Unit {0})) → AllSound (call (m >> read_once))
  setup-Yields m d = after_setup (m d) d

  two_arguments :
      {A B : Type 0} (a : Option A) (b : Option B) (m : A → B → M fl T (Unit {0}))
      → AllSound (converted a (λ x. converted b (λ y. call (m x y >> read_once))))
  two_arguments a b m =
      converted-Yields a (λ x. converted b (λ y. call (m x y >> read_once)))
        (λ x. converted-Yields b (λ y. call (m x y >> read_once)) (λ y. setup-Yields (m x y)))

  producing-Yields : (c : MeasureCall F) → AllSound (producing c)
  unfolding producing
  producing-Yields read = read-Yields
  producing-Yields (dc_voltage range nplc) =
      two_arguments (as_range fl range) (as_nplc fl nplc) (λ r n. configure_dc_voltage r n on)
  producing-Yields (ac_voltage range hz) =
      two_arguments (as_range fl range) (as_ac_filter fl hz) configure_ac_voltage
  producing-Yields (dc_current range nplc) =
      two_arguments (as_range fl range) (as_nplc fl nplc) (λ r n. configure_dc_current r n on)
  producing-Yields (ac_current range hz) =
      two_arguments (as_range fl range) (as_ac_filter fl hz) configure_ac_current
  producing-Yields (two_wire range nplc) =
      two_arguments (as_range fl range) (as_nplc fl nplc) (λ r n. configure_2wire_resistance r n on)
  producing-Yields (four_wire range nplc) =
      two_arguments (as_range fl range) (as_nplc fl nplc) (λ r n. configure_4wire_resistance r n on)
  producing-Yields (frequency range aperture) =
      two_arguments (as_range fl range) (as_aperture fl aperture) configure_frequency
  producing-Yields (period range aperture) =
      two_arguments (as_range fl range) (as_aperture fl aperture) configure_period
  producing-Yields continuity = setup-Yields configure_continuity
  producing-Yields diode = setup-Yields configure_diode

  -- The number is that of the reading which the session now remembers, which is no overload and
  -- what its own response says.
  pub record IsWorth (x : F) (lib : Library fl T) : Type 0 where
    pub session : Session fl T
    pub reading : MeasurementReading F
    pub is_session : lib.session ≡ some session
    pub remembered : session.last_reading ≡ some reading
    pub has_value : reading.reading_value ≡ some x
    pub no_overload : reading.is_overload ≡ false
    pub valid : reading.is_valid ≡ true
    pub sound : IsSound fl reading

  abbrev WorthIfDone : Answer F × Library fl T → Type 0
  WorthIfDone (done x, lib) = IsWorth x lib
  WorthIfDone (robot c, lib) = Unit
  WorthIfDone (assertion_failed, lib) = Unit
  WorthIfDone (untranslated e, lib) = Unit

  -- What `with_session` makes of the end of `_measure`.
  abbrev answered : Library fl T → Raised F × Session fl T → Answer F × Library fl T
  answered lib (x, s) = (execute x, record lib { session = some s })

  accepted :
      (lib : Library fl T) (s : Session fl T) (r : MeasurementReading F)
      → IsSound fl r
      → WorthIfDone (answered lib (accept_reading r s))
  unfolding accept_reading execute
  accepted lib s r sound = elim (Bool-cases r.is_overload) [
    | inl e ↦ rw e tt
    | inr e ↦ elim (Bool-cases r.is_valid) [
      | inr bad ↦ rw (e, bad) tt
      | inl good ↦ elim (Option-cases r.reading_value) [
        | inl n ↦ rw (e, good, n) tt
        | inr (x, n) ↦
            rw (e, good, n)
              (record {
                session = record s { last_reading = some r };
                reading = r;
                is_session = refl;
                remembered = refl;
                has_value = n;
                no_overload = e;
                valid = good;
                sound = sound;
              })
      ]
    ]
  ]

  after_producer :
      (lib : Library fl T) (s : Session fl T) (y : Raised (MeasurementReading F) × Driver fl T)
      → Yields y
      → WorthIfDone (answered lib (accept_raised y.0 (record s { driver = y.1 })))
  unfolding execute
  after_producer lib s (returned r, d) h = accepted lib (record s { driver = d }) r h
  after_producer lib s (rfds c, d) h = tt
  after_producer lib s (native e, d) h = tt

  measured :
      (c : MeasureCall F) (lib : Library fl T) (o : Option (Session fl T))
      → lib.session ≡ o
      → WorthIfDone (measure_keyword c lib)
  unfolding measure_keyword measure
  measured c lib none e = rw e tt
  measured c lib (some s) e =
      rw e (after_producer lib s (producing c s.driver) (producing-Yields c s.driver))

  -- A number that a measuring keyword returns is never made up: it is the value of the reading that
  -- the session now remembers, valid and no overload, and the first number of that reading's own
  -- response.
  pub measure_keyword-IsWorth :
      (c : MeasureCall F) (lib : Library fl T) (x : F)
      → (measure_keyword c lib).0 ≡ done x
      → IsWorth x (measure_keyword c lib).1
  measure_keyword-IsWorth c lib x h =
      subst (λ a. WorthIfDone (a, (measure_keyword c lib).1)) h (measured c lib lib.session refl)
