-- ===== src/Stability.antt =====
-- hp34401a_dmm/stability.py: the settling loop of a resistance measurement, and its call in
-- `Hp34401A.read_stable_resistance`. The samplers, the clock and `sleep` are parameters of the code.
-- The loop runs on fuel; `none` is fuel that ran out.
pub mod Honest
pub mod Settles
use hp34401a_driver.Base.{
  ℕ, zero, suc, String, Bool, true, false, not, ◌&&◌, Option, none, some, List, [], ◌∷◌, ◌++◌, map,
  length, ltb, ◌==◌, if◌then◌else◌,
}
use hp34401a_driver.Base.Int.{pos}
use hp34401a_driver.Float.{Float}
use hp34401a_driver.Errors.{Result, ok, err, other}
use hp34401a_driver.Measurement.{
  MeasurementReading, StableMeasurementResult, WindowReason, no_samples, stable_window, stdev_above,
  relative_stdev_above, slope_above, StableReason, stable_reading, overload_rejected,
  final_overload, not_in_time,
}
use hp34401a_driver.Config.{StabilityProfile, zero_f}

-- `pop(0)` of a window that is too long
abbrev drop_first : {A : Type 0} → List A → List A
drop_first [] = []
drop_first (x ∷ xs) = xs

module _ (fl : Float) where
  open fl use {F, lt, eq, add, sub, mul, div, abs, of_int, sum, pstdev, inf}

  -- What the caller of `read_stable_resistance` passes, over the state `W` of the world.
  pub record Bench : Type 1 where
    pub W : Type 0
    pub sampler : W → Result (MeasurementReading F) × W
    pub final_sampler : Option (W → Result (MeasurementReading F) × W)
    pub now : W → F × W
    pub sleep : F → W → W

  -- The two lists that slide, and the reason why the window was not stable.
  pub record Window : Type 0 where
    pub times : List F
    pub samples : List F
    pub last_reason : WindowReason F

  -- `(stdev, rel_stdev, rel_slope)`
  pub record Metrics : Type 0 where
    pub stdev : F
    pub relative_stdev : F
    pub relative_slope : F

  abbrev mean : List F → F
  mean xs = div (sum xs) (of_int (pos (length xs)))

  -- `sum((t - mean_t) * (v - mean_v) for t, v in zip(times, values))`
  abbrev products : F → F → List F → List F → List F
  products mean_t mean_v [] vs = []
  products mean_t mean_v (t ∷ ts) [] = []
  products mean_t mean_v (t ∷ ts) (v ∷ vs) =
      mul (sub t mean_t) (sub v mean_v) ∷ products mean_t mean_v ts vs

  abbrev square : F → F
  square x = mul x x

  -- `_linear_slope`
  unfoldable pub linear_slope : List F → List F → F
  linear_slope times values =
      if ltb (length times) 2
      then zero_f fl
      else (let denom = sum (map (λ t. square (sub t (mean times))) times) in
          if eq denom (zero_f fl)
          then zero_f fl
          else div (sum (products (mean times) (mean values) times values)) denom)

  -- `x if mean_v else inf`
  abbrev per_mean : F → F → F
  per_mean mean_v x = if eq mean_v (zero_f fl) then inf else x

  unfoldable pub metrics_of : List F → List F → Metrics
  metrics_of times values =
      let stdev = if ltb 1 (length values) then pstdev values else zero_f fl in
      let mean_v = mean values in
      record {
        stdev = stdev;
        relative_stdev = per_mean mean_v (div stdev (abs mean_v));
        relative_slope = per_mean mean_v (abs (div (linear_slope times values) mean_v));
      }

  -- `limit is not None and x > limit`
  abbrev pub exceeds : F → Option F → Bool
  exceeds x none = false
  exceeds x (some limit) = lt limit x

  abbrev limit_of : Option F → F
  limit_of none = zero_f fl
  limit_of (some limit) = limit

  -- The three tests of `_evaluate`.
  pub verdict : StabilityProfile F → Metrics → Bool × WindowReason F
  verdict p m =
      if exceeds m.stdev p.max_stdev_ohm
      then (false, stdev_above m.stdev (limit_of p.max_stdev_ohm))
      else if exceeds m.relative_stdev p.max_relative_stdev
      then (false, relative_stdev_above m.relative_stdev (limit_of p.max_relative_stdev))
      else if exceeds m.relative_slope p.max_slope_relative_per_s
      then (false, slope_above m.relative_slope (limit_of p.max_slope_relative_per_s))
      else (true, stable_window)

  -- `_safe_stdev` and `_safe_rel_stdev`
  abbrev safe_stdev : List F → Option F
  safe_stdev values = if ltb 1 (length values) then some (pstdev values) else none

  abbrev safe_rel_stdev : List F → Option F
  safe_rel_stdev values =
      if ltb (length values) 2
      then none
      else if eq (mean values) (zero_f fl)
      then none
      else some (div (pstdev values) (abs (mean values)))

  -- A value and its time are appended, and the oldest go.
  pub slide : ℕ → F → F → Window → Window
  slide size t v w =
      let times = w.times ++ t ∷ [] in
      let samples = w.samples ++ v ∷ [] in
      if ltb size (length samples)
      then record w { times = drop_first times; samples = drop_first samples }
      else record w { times = times; samples = samples }

  -- The window after a reading that was not rejected.
  pub with_reading : StabilityProfile F → MeasurementReading F → Window → Window
  with_reading p reading w = if reading.is_overload then w else elim reading.reading_value [
    | none ↦ w
    | some v ↦ slide p.window_size reading.monotonic_s v w
  ]

  -- A result without a value.
  pub no_value :
      List F → Option F → Option F → Option F → F → StableReason F → StableMeasurementResult F
  no_value samples stdev relative_stdev slope elapsed reason = record {
    stable = false;
    result_value = none;
    unit_text = "Ohm";
    samples = samples;
    stdev = stdev;
    relative_stdev = relative_stdev;
    slope_relative_per_s = slope;
    elapsed_s = elapsed;
    reason = reason;
    reading = none;
  }

  -- The last return of the loop, for the final reading.
  pub conclude : List F → Metrics → F → MeasurementReading F → StableMeasurementResult F
  conclude samples m elapsed r =
      let refused =
        no_value samples (some m.stdev) (some m.relative_stdev) (some m.relative_slope) elapsed
          final_overload in
      if r.is_overload then refused else elim r.reading_value [
        | none ↦ refused
        | some v ↦ record {
          stable = true;
          result_value = some v;
          unit_text = "Ohm";
          samples = samples;
          stdev = some m.stdev;
          relative_stdev = some m.relative_stdev;
          slope_relative_per_s = some m.relative_slope;
          elapsed_s = elapsed;
          reason = stable_reading;
          reading = some r;
        }
      ]

  -- One round: the loop ends, with a result or an exception, or it goes on with a window.
  pub data Round : Type 0 where
    finished : Result (StableMeasurementResult F) → Round
    again : Window → Round

module _ {fl : Float} (b : Bench fl) (p : StabilityProfile fl.F) (t_start : fl.F) where
  open fl use {F, lt, sub}
  open b use {W, sampler, final_sampler, now}

  abbrev with_elapsed : (F → StableMeasurementResult F) → W → Round fl × W
  with_elapsed result s = let (t, s') = now s in (finished (ok (result (sub t t_start))), s')

  -- The final reading: the last one, or one more sample.
  unfoldable pub take_final : MeasurementReading F → W → Result (MeasurementReading F) × W
  take_final reading s = elim p.final_nplc [
    | none ↦ (ok reading, s)
    | some n ↦ elim final_sampler [ none ↦ sampler s | some f ↦ f s ]
  ]

  -- A window that is stable.
  pub settle : MeasurementReading F → Window fl → Metrics fl → W → Round fl × W
  settle reading w m s =
      let (r, s') = take_final reading s in
      elim r [
        | err e ↦ (finished (err e), s')
        | ok final ↦ with_elapsed (λ elapsed. conclude fl w.samples m elapsed final) s'
      ]

  -- Where the window is full it is judged; of an empty one the mean is a ZeroDivisionError.
  pub judge_window : MeasurementReading F → Window fl → W → Round fl × W
  judge_window reading w s =
      if ltb (length w.samples) p.window_size
      then (again w, s)
      else if length w.samples == 0
      then (finished (err other), s)
      else (let m = metrics_of fl w.times w.samples in
          let (stable, reason) = verdict fl p m in
          if stable then settle reading w m s else (again (record w { last_reason = reason }), s))

  pub take_sample : MeasurementReading F → Window fl → W → Round fl × W
  take_sample reading w s =
      if reading.is_overload && p.reject_overload
      then with_elapsed (λ elapsed. no_value fl w.samples none none none elapsed overload_rejected)
          s
      else judge_window reading (with_reading fl p reading w) s

  pub round : Window fl → W → Round fl × W
  round w s =
      let (t, s') = now s in
      let elapsed = sub t t_start in
      if lt p.max_wait_s elapsed
      then (
        finished (
            ok (
              no_value fl w.samples (safe_stdev fl w.samples) (safe_rel_stdev fl w.samples) none
                elapsed (not_in_time p.max_wait_s w.last_reason))),
        s',
      )
      else (let (r, s'') = sampler s' in
          elim r [ err e ↦ (finished (err e), s'') | ok reading ↦ take_sample reading w s'' ])

  pub loop : ℕ → Window fl → W → Option (Result (StableMeasurementResult F)) × W
  loop zero w s = (none, s)
  loop (suc fuel) w s =
      let (r, s') = round w s in
      elim r [
        | finished x ↦ (some x, s')
        | again w' ↦ loop fuel w' (b.sleep p.sample_interval_s s')
      ]

-- `read_stable_resistance`, with the fuel of its loop.
pub read_stable_resistance :
    {fl : Float} (b : Bench fl)
    → StabilityProfile fl.F
    → ℕ
    → b.W
    → Option (Result (StableMeasurementResult fl.F)) × b.W
read_stable_resistance {fl} b p fuel s =
    let (t_start, s') = b.now s in
    loop b p t_start fuel (record { times = []; samples = []; last_reason = no_samples })
      (b.sleep p.min_settle_s s')
