-- ===== src/Driver/Frame.antt =====
-- Rules for a preorder on the states of the driver that every step of a method respects, one for
-- each way to build a method, and the record of what the driver remembers about its set-up.
use hp34401a_driver.Base.{ℕ, Bool, true, false, Option, String, ◌≡◌, refl, ◌∙◌}
use hp34401a_driver.Float.{Float}
use hp34401a_driver.Enums.{InputTerminal, MeasurementFunction, TriggerSource, AutozeroMode}
use hp34401a_driver.Errors.{Result, ok, err}
use hp34401a_driver.Measurement.{Identity}
use hp34401a_driver.Config.{DriverConfig}
use hp34401a_driver.Transport.{Transport}
use hp34401a_driver.Driver.{Driver, M, Configure, ◌>>=◌, ◌>>◌, when, suppress_hp, finally}

module _ {fl : Float} {T : Transport fl.F} (R : Driver fl T → Driver fl T → Type 0) where
  abbrev pub Respects : {A : Type 0} → M fl T A → Type 0
  Respects m = (d : Driver fl T) → R d (m d).1

  module _ (R-refl : (d : Driver fl T) → R d d)
      (R-trans : (a b c : Driver fl T) → R a b → R b c → R a c) where
    after_bind :
        {A B : Type 0} (d d' : Driver fl T) (r : Result A) (f : A → M fl T B)
        → R d d'
        → ((a : A) → Respects (f a))
        → R d (((λ _. (r, d')) >>= f) d).1
    after_bind d d' (ok a) f h k = R-trans d d' (f a d').1 h (k a d')
    after_bind d d' (err e) f h k = h

    pub Respects-bind :
        {A B : Type 0} (m : M fl T A) (f : A → M fl T B)
        → Respects m
        → ((a : A) → Respects (f a))
        → Respects (m >>= f)
    Respects-bind m f h k d = after_bind d (m d).1 (m d).0 f (h d) k

    pub Respects-then :
        {A B : Type 0} (m : M fl T A) (k : M fl T B) → Respects m → Respects k → Respects (m >> k)
    Respects-then m k h l = Respects-bind m (λ _. k) h (λ _. l)

    pub Respects-when : (b : Bool) (m : M fl T (Unit {0})) → Respects m → Respects (when b m)
    Respects-when true m h = h
    Respects-when false m h = R-refl

    after_suppress :
        (d d' : Driver fl T) (r : Result (Unit {0})) → R d d' → R d (suppress_hp (λ _. (r, d')) d).1
    after_suppress d d' (ok _) h = h
    after_suppress d d' (err e) h = h

    pub Respects-suppress_hp : (m : M fl T (Unit {0})) → Respects m → Respects (suppress_hp m)
    Respects-suppress_hp m h d = after_suppress d (m d).1 (m d).0 (h d)

    finally_from :
        {A : Type 0} (d d' : Driver fl T) (r : Result A) (p : Result (Unit {0}) × Driver fl T)
        → R d p.1
        → R d (finally (λ _. (r, d')) (λ _. p) d).1
    finally_from d d' r (ok _, d'') h = h
    finally_from d d' r (err e, d'') h = h

    pub Respects-finally :
        {A : Type 0} (m : M fl T A) (k : M fl T (Unit {0}))
        → Respects m
        → Respects k
        → Respects (finally m k)
    Respects-finally m k h l d =
        finally_from d (m d).1 (m d).0 (k (m d).1)
          (R-trans d (m d).1 (k (m d).1).1 (h d) (l (m d).1))

-- What the driver remembers: all but the transport, the state, the recovery flag, the trace and
-- the list of actions.
pub record Book (F : Type 0) : Type 0 where
  pub cfg : DriverConfig F
  pub identity : Option Identity
  pub scpi_version : Option String
  pub reconnect_count : ℕ
  pub trigger_source : TriggerSource
  pub terminal : Option InputTerminal
  pub last_configure : Option (Configure F)
  pub active_function : Option MeasurementFunction
  pub active_nplc : Option F
  pub active_aperture : Option F
  pub active_autozero : AutozeroMode
  pub active_ac_filter : Option F

module _ {fl : Float} {T : Transport fl.F} where
  abbrev pub book : Driver fl T → Book fl.F
  book d = record {
    cfg = d.cfg;
    identity = d.identity;
    scpi_version = d.scpi_version;
    reconnect_count = d.reconnect_count;
    trigger_source = d.trigger_source;
    terminal = d.terminal;
    last_configure = d.last_configure;
    active_function = d.active_function;
    active_nplc = d.active_nplc;
    active_aperture = d.active_aperture;
    active_autozero = d.active_autozero;
    active_ac_filter = d.active_ac_filter;
  }

  abbrev pub SameBook : Driver fl T → Driver fl T → Type 0
  SameBook d d' = book d ≡ book d'

  pub SameBook-refl : (d : Driver fl T) → SameBook d d
  SameBook-refl d = refl

  pub SameBook-trans : (a b c : Driver fl T) → SameBook a b → SameBook b c → SameBook a c
  SameBook-trans a b c p q = p ∙ q

  -- `m` leaves what the driver remembers alone, whether it returns or raises.
  abbrev pub KeepsBook : {A : Type 0} → M fl T A → Type 0
  KeepsBook m = Respects SameBook m

  pub KeepsBook-bind :
      {A B : Type 0} (m : M fl T A) (f : A → M fl T B)
      → KeepsBook m
      → ((a : A) → KeepsBook (f a))
      → KeepsBook (m >>= f)
  KeepsBook-bind = Respects-bind SameBook SameBook-refl SameBook-trans

  pub KeepsBook-then :
      {A B : Type 0} (m : M fl T A) (k : M fl T B) → KeepsBook m → KeepsBook k → KeepsBook (m >> k)
  KeepsBook-then m k h l = KeepsBook-bind m (λ _. k) h (λ _. l)
