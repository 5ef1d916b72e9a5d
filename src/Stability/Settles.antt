-- ===== src/Stability/Settles.antt =====
-- The settling loop ends: its clock runs out.
use hp34401a_driver.Base.{
  ℕ, zero, suc, ◌+◌, ◌≤◌, ◌<◌, true, Option, none, some, [], ◌≡◌, refl, inl, inr, Bool-cases, arith,
}
use hp34401a_driver.Float.{Float}
use hp34401a_driver.Errors.{Result, ok, err}
use hp34401a_driver.Measurement.{MeasurementReading, StableMeasurementResult, no_samples}
use hp34401a_driver.Config.{StabilityProfile}
use hp34401a_driver.Stability.{
  Bench, Window, Round, finished, again, settle, judge_window, with_reading, take_sample, round,
  loop, read_stable_resistance,
}
use hp34401a_driver.Stability.Honest.{HonestIfOk, Fits, Ends, round-Ends}

-- What `time.monotonic` and `time.sleep` do: a clock that no call sets back, that a sleep of the
-- sample interval moves on, and on which the longest wait is over after `limit` such steps.
pub record Ticks {fl : Float} (b : Bench fl) (p : StabilityProfile fl.F) : Type 0 where
  pub age : b.W → ℕ
  pub limit : ℕ
  pub now_keeps : (s : b.W) → age s ≤ age (b.now s).1
  pub sampler_keeps : (s : b.W) → age s ≤ age (b.sampler s).1
  pub sleep_keeps : (x : fl.F) (s : b.W) → age s ≤ age (b.sleep x s)
  pub sleep_moves : (s : b.W) → age s < age (b.sleep p.sample_interval_s s)
  pub over :
      (start s : b.W)
      → age start + limit ≤ age s
      → fl.lt p.max_wait_s (fl.sub (b.now s).0 (b.now start).0) ≡ true

module _ {fl : Float} (b : Bench fl) (p : StabilityProfile fl.F) (clock : Ticks b p) where
  open b use {W}
  open clock use {age, limit}

  -- A round that goes on goes on no earlier than `n`.
  abbrev Later : ℕ → Round fl × W → Type 0
  Later n (finished x, s) = Unit
  Later n (again w, s) = n ≤ age s

  judge_window-Later :
      (t : fl.F) (r : MeasurementReading fl.F) (w : Window fl) (s : W)
      → Later (age s) (judge_window b p t r w s)
  unfolding judge_window settle
  judge_window-Later t r w s = ground arith

  Later-of : {m n : ℕ} (x : Round fl × W) → n ≤ m → Later m x → Later n x
  Later-of (finished y, s) h l = tt
  Later-of (again w, s) h l = omega arith

  take_sample-Later :
      (t : fl.F) (r : MeasurementReading fl.F) (w : Window fl) (s : W)
      → Later (age s) (take_sample b p t r w s)
  unfolding take_sample
  take_sample-Later t r w s = ground (arith, judge_window-Later t r (with_reading fl p r w) s)

  after_sampler :
      (n : ℕ) (x : Result (MeasurementReading fl.F) × W) (t : fl.F) (w : Window fl)
      → n ≤ age x.1
      → Later n (elim x.0 [
        | err e ↦ (finished (err e), x.1)
        | ok reading ↦ take_sample b p t reading w x.1
      ])
  after_sampler n (ok r, s) t w h = Later-of (take_sample b p t r w s) h (take_sample-Later t r w s)
  after_sampler n (err e, s) t w h = tt

  round-Later : (start s : W) (w : Window fl) → Later (age s) (round b p (b.now start).0 w s)
  unfolding round
  round-Later start s w =
      elim (Bool-cases (fl.lt p.max_wait_s (fl.sub (b.now s).0 (b.now start).0))) [
        | inl late ↦ rw late tt
        | inr early ↦ rw early (
            after_sampler (age s) (b.sampler (b.now s).1) (b.now start).0 w
              (omega (arith, clock.now_keeps s, clock.sampler_keeps (b.now s).1)))
      ]

  -- When the time is over, the round is the last.
  IsLast : Round fl × W → Type 0
  IsLast (finished x, s) = Unit
  IsLast (again w, s) = ⊥

  round-IsLast :
      (start s : W) (w : Window fl)
      → age start + limit ≤ age s
      → IsLast (round b p (b.now start).0 w s)
  unfolding round IsLast
  round-IsLast start s w h = rw (clock.over start s h) tt

  -- What the loop gives back with enough fuel.
  abbrev Returns : Option (Result (StableMeasurementResult fl.F)) × W → Type 0
  Returns (some x, s) = HonestIfOk b p x
  Returns (none, s) = ⊥

  continue_loop :
      (start : W) (fuel : ℕ) (n : ℕ) (x : Round fl × W)
      → Later n x
      → Ends b p (b.now start).0 x
      → age start + limit ≤ n + suc fuel
      → ((w : Window fl) (s : W)
          → Fits b p w
          → age start + limit ≤ age s + fuel
          → Returns (loop b p (b.now start).0 (suc fuel) w s))
      → Returns (elim x.0 [
        | finished y ↦ (some y, x.1)
        | again w ↦ loop b p (b.now start).0 (suc fuel) w (b.sleep p.sample_interval_s x.1)
      ])
  continue_loop start fuel n (finished (ok y), s) l e h k = e
  continue_loop start fuel n (finished (err y), s) l e h k = tt
  continue_loop start fuel n (again w, s) l e h k =
      k w (b.sleep p.sample_interval_s s) e (omega (arith, clock.sleep_moves s))

  last_round :
      (start : W) (fuel : ℕ) (x : Round fl × W)
      → IsLast x
      → Ends b p (b.now start).0 x
      → Returns (elim x.0 [
        | finished y ↦ (some y, x.1)
        | again w ↦ loop b p (b.now start).0 fuel w (b.sleep p.sample_interval_s x.1)
      ])
  unfolding IsLast
  last_round start fuel (finished (ok y), s) l e = e
  last_round start fuel (finished (err y), s) l e = tt
  last_round start fuel (again w, s) l e = absurd l

  loop-Returns :
      (start : W) (fuel : ℕ) (w : Window fl) (s : W)
      → Fits b p w
      → age start + limit ≤ age s + fuel
      → Returns (loop b p (b.now start).0 (suc fuel) w s)
  unfolding loop
  loop-Returns start zero w s fits h =
      last_round start zero (round b p (b.now start).0 w s) (round-IsLast start s w (omega arith))
        (round-Ends b p (b.now start).0 w s fits)
  loop-Returns start (suc fuel) w s fits h =
      continue_loop start fuel (age s) (round b p (b.now start).0 w s) (round-Later start s w)
        (round-Ends b p (b.now start).0 w s fits) (omega arith) (loop-Returns start fuel)

  returned :
      (x : Option (Result (StableMeasurementResult fl.F)) × W)
      → Returns x
      → (r : Result (StableMeasurementResult fl.F)) × (x.0 ≡ some r) × HonestIfOk b p r
  returned (some r, s) h = (r, refl, h)
  returned (none, s) h = absurd h

  -- On a clock that runs, `read_stable_resistance` ends, within as many rounds as its longest wait
  -- has steps of the clock, and one more. What it returns has no value and is not stable, or it is the
  -- value of a reading that a sampler gave and that is no overload, behind a full window: the times
  -- and values of readings of the sampler that are no overload, which exceed none of the limits of the
  -- profile. Nothing is claimed of an exception that a sampler raised.
  pub read_stable_resistance-Returns :
      (s : W)
      → (r : Result (StableMeasurementResult fl.F)) × ((read_stable_resistance b p (suc limit) s).0
          ≡ some r)
        × HonestIfOk b p r
  unfolding read_stable_resistance
  read_stable_resistance-Returns s =
      let s' = b.sleep p.min_settle_s (b.now s).1 in
      returned
        (loop b p (b.now s).0 (suc limit)
          (record { times = []; samples = []; last_reason = no_samples }) s')
        (loop-Returns s limit (record { times = []; samples = []; last_reason = no_samples }) s'
          (omega arith, refl, tt)
          (omega (arith, clock.now_keeps s, clock.sleep_keeps p.min_settle_s (b.now s).1)))
