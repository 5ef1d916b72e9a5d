-- ===== src/Driver/Stable/Time.antt =====
-- The settling loop of the driver ends, on a transport whose clock runs.
use hp34401a_driver.Base.{ℕ, suc, ◌+◌, ◌≤◌, ◌<◌, String, true, some, ◌≡◌, arith}
use hp34401a_driver.Float.{Float}
use hp34401a_driver.Errors.{Result}
use hp34401a_driver.Measurement.{StableMeasurementResult}
use hp34401a_driver.Config.{StabilityProfile}
use hp34401a_driver.Transport.{Transport}
use hp34401a_driver.Driver.{Driver}
use hp34401a_driver.Stability.Honest.{HonestIfOk}
use hp34401a_driver.Stability.Settles.{Ticks, read_stable_resistance-Returns}
use hp34401a_driver.Driver.Stable.{sample_at, bench, read_stable_resistance}
use hp34401a_driver.Driver.Stable.Steps.{Steps}
use hp34401a_driver.Driver.Stable.Steps.Measuring.{sample_at-Keeps}

-- `time.monotonic` and `time.sleep` behind a transport: no call sets the clock back, a sleep of the
-- sample interval moves it on, and after `limit` such steps the longest wait is over.
pub record Clock (fl : Float) (T : Transport fl.F) (p : StabilityProfile fl.F) : Type 0 where
  pub age : T.S → ℕ
  pub limit : ℕ
  pub write_keeps : (c : String) (s : T.S) → age s ≤ age (T.write c s).1
  pub query_keeps : (c : String) (s : T.S) → age s ≤ age (T.query c s).1
  pub read_raw_keeps : (s : T.S) → age s ≤ age (T.read_raw s).1
  pub clear_keeps : (s : T.S) → age s ≤ age (T.clear s).1
  pub set_timeout_keeps : (x : fl.F) (s : T.S) → age s ≤ age (T.set_timeout x s)
  pub sleep_keeps : (x : fl.F) (s : T.S) → age s ≤ age (T.sleep x s)
  pub sleep_moves : (s : T.S) → age s < age (T.sleep p.sample_interval_s s)
  pub over :
      (start s : T.S)
      → age start + limit ≤ age s
      → fl.lt p.max_wait_s (fl.sub (T.monotonic s) (T.monotonic start)) ≡ true

module _ {fl : Float} (T : Transport fl.F) (p : StabilityProfile fl.F) (clock : Clock fl T p) where
  open clock use {age, limit}

  -- The clock goes on through every call of the transport.
  forward : Steps T
  forward = record {
    P = λ s s'. age s ≤ age s';
    P-refl = λ s. omega arith;
    P-trans = λ a b c h k. omega arith;
    P-write = clock.write_keeps;
    P-query = clock.query_keeps;
    P-read_raw = clock.read_raw_keeps;
    P-clear = clock.clear_keeps;
    P-set_timeout = clock.set_timeout_keeps;
    P-sleep = clock.sleep_keeps;
  }

  sample_keeps_age : (d : Driver fl T) → age d.t ≤ age (sample_at p p.nplc d).1.t
  unfolding forward
  sample_keeps_age d = sample_at-Keeps forward p p.nplc d

  ticks : Ticks (bench fl T p) p
  ticks = record {
    age = λ d. age d.t;
    limit = limit;
    now_keeps = λ d. omega arith;
    sampler_keeps = sample_keeps_age;
    sleep_keeps = λ x d. clock.sleep_keeps x d.t;
    sleep_moves = λ d. clock.sleep_moves d.t;
    over = λ a d h. clock.over a.t d.t h;
  }

  -- On a clock that runs, the driver's `read_stable_resistance` ends, within as many rounds as its
  -- longest wait has sleeps, and one more: with an exception of a measurement, with a result that
  -- has no value, or with the value of the reading that it carries, which the driver measured at
  -- the profile's range and which is no overload, behind a full window: the times and values of the
  -- driver's own measurements, which exceed none of the limits of the profile.
  pub read_stable_resistance_returns :
      (d : Driver fl T)
      → (r : Result (StableMeasurementResult fl.F)) × ((read_stable_resistance p (suc limit) d).0
          ≡ some r)
        × HonestIfOk (bench fl T p) p r
  unfolding ticks
  read_stable_resistance_returns d = read_stable_resistance-Returns (bench fl T p) p ticks d
