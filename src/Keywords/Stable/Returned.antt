-- ===== src/Keywords/Stable/Returned.antt =====
-- What the number of `Read Stable Resistance` is worth, and that the keyword ends.
use hp34401a_driver.Base.{
  suc, String, true, Option, none, some, ◌≡◌, refl, Bool-cases, Option-cases, inl, inr,
}
use hp34401a_driver.Float.{Float}
use hp34401a_driver.Errors.{Result, ok, err}
use hp34401a_driver.Measurement.{StableMeasurementResult}
use hp34401a_driver.Config.{StabilityProfile}
use hp34401a_driver.Transport.{Transport}
use hp34401a_driver.Stability.Honest.{IsHonest, HonestIfOk}
use hp34401a_driver.Driver.Stable.{bench, read_stable_resistance as settle}
use hp34401a_driver.Driver.Stable.Time.{Clock, read_stable_resistance_returns}
use hp34401a_driver.Keywords.{
  Answer, done, robot, Session, Library, execute, translate, driver_state_error,
}
use hp34401a_driver.Keywords.Stable.{
  StableArguments, stable_profile, kept, settled_with, number_of, number_if_ended,
  try_read_stable_resistance, read_stable_resistance,
}

module _ (fl : Float) (T : Transport fl.F) where
  open fl use {F}

  -- The number is the value of a result that is stable, and honest about it.
  abbrev pub IsSettled : StabilityProfile F → Answer F → Type 0
  IsSettled p (done x) =
      (r : StableMeasurementResult F) × (r.stable ≡ true)
      × (r.result_value ≡ some x)
      × IsHonest (bench fl T p) p r
  IsSettled p _ = Unit

  number_of-IsSettled :
      (p : StabilityProfile F) (r : StableMeasurementResult F)
      → IsHonest (bench fl T p) p r
      → IsSettled p (number_of (done r))
  number_of-IsSettled p r h = elim (Bool-cases r.stable) [
    | inr e ↦ rw e tt
    | inl e ↦ elim (Option-cases r.result_value) [
      | inl n ↦ rw (e, n) tt
      | inr (x, n) ↦ rw (e, n) (r, e, n, h)
    ]
  ]

  -- An answer, behind a loop that ended.
  abbrev Ends : StabilityProfile F → Option (Answer F) → Type 0
  Ends p o = (answer : Answer F) × (o ≡ some answer) × IsSettled p answer

  kept-Ends :
      (p : StabilityProfile F) (o : Option (Result (StableMeasurementResult F))) (s : Session fl T)
      (r : Result (StableMeasurementResult F))
      → o ≡ some r
      → HonestIfOk (bench fl T p) p r
      → Ends p (number_if_ended (kept o s).0)
  unfolding execute
  kept-Ends p o s (ok r) e h = rw e (number_of (done r), refl, number_of-IsSettled p r h)
  kept-Ends p o s (err x) e h = rw e (robot (translate x), refl, tt)

module _ {fl : Float} {T : Transport fl.F} (timestr : String → Option fl.F) where
  open fl use {F}

  with_profile-Ends :
      (p : StabilityProfile F) (clock : Clock fl T p) (s : Session fl T)
      → Ends fl T p (number_if_ended (settled_with (done p) (suc clock.limit) s).0)
  with_profile-Ends p clock s =
      let (r, back, h) = read_stable_resistance_returns T p clock s.driver in
      kept-Ends fl T p (settle p (suc clock.limit) s.driver).0
        (record s { driver = (settle p (suc clock.limit) s.driver).1 }) r back h

  ends :
      (a : StableArguments F) (p : StabilityProfile F) (clock : Clock fl T p) (lib : Library fl T)
      (o : Option (Session fl T))
      → lib.session ≡ o
      → stable_profile fl timestr a ≡ done p
      → Ends fl T p (read_stable_resistance timestr a (suc clock.limit) lib).0
  unfolding read_stable_resistance try_read_stable_resistance
  ends a p clock lib none e h = rw e (robot driver_state_error, refl, tt)
  ends a p clock lib (some s) e h = rw (e, h) (with_profile-Ends p clock s)

  -- Where the arguments convert to the profile `p`, on a clock that runs, `Read Stable Resistance`
  -- ends within as many rounds as the longest wait of `p` has sleeps, and one more. If it returns a
  -- number, that is the value of a stable result, and of the reading that the result carries, which
  -- the driver measured and which is no overload, behind a full window: the times and values of the
  -- driver's own measurements, which exceed none of the limits of `p`.
  pub read_stable_resistance-Ends :
      (a : StableArguments F) (p : StabilityProfile F) (clock : Clock fl T p) (lib : Library fl T)
      → stable_profile fl timestr a ≡ done p
      → (answer : Answer F) × ((read_stable_resistance timestr a (suc clock.limit) lib).0
          ≡ some answer)
        × IsSettled fl T p answer
  read_stable_resistance-Ends a p clock lib h = ends a p clock lib lib.session refl h
