-- ===== src/Driver/Stable.antt =====
-- `query_float`, `query_int` and `read_stable_resistance` of hp34401a_dmm/legacy_driver.py: the
-- settling loop of stability.py over the driver's own measurements and clock.
pub mod Steps
pub mod Time
use hp34401a_driver.Base.{ℕ, String, Option, none, some, if◌then◌else◌}
use hp34401a_driver.Base.Int.{ℤ}
use hp34401a_driver.Float.{Float}
use hp34401a_driver.Enums.{Nplc}
use hp34401a_driver.Errors.{Result, ok, err, other}
use hp34401a_driver.Measurement.{MeasurementReading, StableMeasurementResult}
use hp34401a_driver.Config.{StabilityProfile}
use hp34401a_driver.Parser.{parse_float}
use hp34401a_driver.Transport.{Transport}
use hp34401a_driver.Driver.{Driver, M, pure, lift, ◌>>=◌, ◌>>◌}
use hp34401a_driver.Driver.Raw.{query}
use hp34401a_driver.Driver.Read.{measure_4wire_resistance, measure_2wire_resistance}
use hp34401a_driver.Stability
use hp34401a_driver.Stability.{Bench}

-- `int(round(x))`, which raises on an infinity or a NaN
abbrev to_int : (fl : Float) → fl.F → Result ℤ
to_int fl x = if fl.is_finite x then ok (fl.round x) else err other

module _ {fl : Float} {T : Transport fl.F} where
  open fl use {F}

  abbrev query_float : String → M fl T F
  query_float command = do raw ← query command; lift (parse_float fl raw)

  abbrev query_int : String → M fl T ℤ
  query_int command = do x ← query_float command; lift (to_int fl x)

  -- `measure` at the profile's range
  pub sample_at : StabilityProfile F → Nplc → M fl T (MeasurementReading F)
  sample_at p nplc =
      if p.four_wire
      then measure_4wire_resistance p.range_ohm nplc
      else measure_2wire_resistance p.range_ohm nplc

  -- `final_sampler if profile.final_nplc is not None else None`
  abbrev final_at : StabilityProfile F → Option Nplc → Option (M fl T (MeasurementReading F))
  final_at p none = none
  final_at p (some nplc) = some (sample_at p nplc)

-- What `read_stable_resistance` passes to the loop.
abbrev pub bench : (fl : Float) (T : Transport fl.F) → StabilityProfile fl.F → Bench fl
bench fl T p = record {
  W = Driver fl T;
  sampler = sample_at p p.nplc;
  final_sampler = final_at p p.final_nplc;
  now = λ d. (T.monotonic d.t, d);
  sleep = λ x d. record d { t = T.sleep x d.t };
}

abbrev pub read_stable_resistance :
    {fl : Float} {T : Transport fl.F}
    → StabilityProfile fl.F
    → ℕ
    → Driver fl T
    → Option (Result (StableMeasurementResult fl.F)) × Driver fl T
read_stable_resistance {fl} {T} p fuel d = Stability.read_stable_resistance (bench fl T p) p fuel d
