-- ===== src/Stability/Honest.antt =====
-- What a result of the settling loop is worth.
use hp34401a_driver.Base.{
  ◌≤◌, Bool, true, false, Option, none, some, List, [], ◌∷◌, ◌++◌, ◌≡◌, refl, ◌&&◌, ap, inl, inr,
  Bool-cases, Option-cases, arith, length, ltb, ◌==◌, if◌then◌else◌, length-append,
}
use hp34401a_driver.Float.{Float}
use hp34401a_driver.Enums.{Nplc}
use hp34401a_driver.Errors.{Result, ok, err}
use hp34401a_driver.Measurement.{MeasurementReading, StableMeasurementResult, WindowReason}
use hp34401a_driver.Config.{StabilityProfile}
use hp34401a_driver.Stability.{
  Bench, Window, Metrics, metrics_of, exceeds, verdict, drop_first, slide, no_value, conclude,
  Round, finished, again, with_elapsed, take_final, settle, judge_window, with_reading, take_sample,
  round,
}

module _ {fl : Float} (b : Bench fl) (p : StabilityProfile fl.F) where
  open fl use {F}

  -- A reading that the sampler gave, that is no overload and has this time and value.
  abbrev Sampled : F → F → Type 0
  Sampled t v =
      (r : MeasurementReading F) × (s : b.W) × ((b.sampler s).0 ≡ ok r)
      × (r.is_overload ≡ false)
      × (r.monotonic_s ≡ t)
      × (r.reading_value ≡ some v)

  -- Times and values of such readings, one by one.
  abbrev pub AllSampled : List F → List F → Type 0
  AllSampled [] [] = Unit
  AllSampled (t ∷ ts) (v ∷ vs) = Sampled t v × AllSampled ts vs
  AllSampled _ _ = ⊥

  -- A reading that the sampler gave, or the sampler of the final reading.
  pub data Taken (r : MeasurementReading F) : Type 0 where
    by_sampler : (s : b.W) → (b.sampler s).0 ≡ ok r → Taken r
    by_final :
        (f : b.W → Result (MeasurementReading F) × b.W) (s : b.W)
        → b.final_sampler ≡ some f
        → (f s).0 ≡ ok r
        → Taken r

  -- Either there is no value, or the value is that of a reading that was taken and is no overload,
  -- behind a full window of samples whose metrics exceed none of the limits that the profile sets.
  pub data IsHonest (result : StableMeasurementResult F) : Type 0 where
    unstable : result.stable ≡ false → result.result_value ≡ none → IsHonest result
    settled :
        (v : F) (r : MeasurementReading F) (times : List F)
        → result.stable ≡ true
        → result.result_value ≡ some v
        → result.reading ≡ some r
        → r.reading_value ≡ some v
        → r.is_overload ≡ false
        → Taken r
        → AllSampled times result.samples
        → length result.samples ≡ p.window_size
        → length times ≡ p.window_size
        → exceeds fl (metrics_of fl times result.samples).stdev p.max_stdev_ohm ≡ false
        → exceeds fl (metrics_of fl times result.samples).relative_stdev p.max_relative_stdev
          ≡ false
        → exceeds fl (metrics_of fl times result.samples).relative_slope p.max_slope_relative_per_s
          ≡ false
        → IsHonest result

  -- A window that is not too long, with a time for each sample.
  abbrev pub Fits : Window fl → Type 0
  Fits w =
      (length w.samples ≤ p.window_size)
      × (length w.times ≡ length w.samples)
      × AllSampled w.times w.samples

  AllSampled-append :
      (t v : F) (ts vs : List F)
      → Sampled t v
      → AllSampled ts vs
      → AllSampled (ts ++ t ∷ []) (vs ++ v ∷ [])
  AllSampled-append t v [] [] x h = (x, tt)
  AllSampled-append t v (_ ∷ ts) (_ ∷ vs) x (y, h) = (y, AllSampled-append t v ts vs x h)
  AllSampled-append t v [] (_ ∷ vs) x h = absurd h
  AllSampled-append t v (_ ∷ ts) [] x h = absurd h

  AllSampled-drop_first :
      (ts vs : List F) → AllSampled ts vs → AllSampled (drop_first ts) (drop_first vs)
  AllSampled-drop_first [] [] h = tt
  AllSampled-drop_first (_ ∷ ts) (_ ∷ vs) (_, h) = h
  AllSampled-drop_first [] (_ ∷ vs) h = absurd h
  AllSampled-drop_first (_ ∷ ts) [] h = absurd h

  choose_drop :
      (drop : Bool) (ts vs : List F) (w : Window fl)
      → AllSampled ts vs
      → let w' =
          if drop
          then record w { times = drop_first ts; samples = drop_first vs }
          else record w { times = ts; samples = vs } in
        AllSampled w'.times w'.samples
  choose_drop true ts vs w h = AllSampled-drop_first ts vs h
  choose_drop false ts vs w h = h

  length-drop_first :
      {A : Type 0} (x : A) (xs : List A) → length (drop_first (xs ++ x ∷ [])) ≡ length xs
  length-drop_first x [] = refl
  length-drop_first x (y ∷ ys) = omega (arith, length-append ys (x ∷ []))

  slide-bounds :
      (t v : F) (w : Window fl)
      → length w.samples ≤ p.window_size
      → length w.times ≡ length w.samples
      → let w' = slide fl p.window_size t v w in
        (length w'.samples ≤ p.window_size) × (length w'.times ≡ length w'.samples)
  unfolding slide
  slide-bounds t v w h k = ground (
    arith,
    length-append w.samples (v ∷ []),
    length-append w.times (t ∷ []),
    length-drop_first v w.samples,
    length-drop_first t w.times,
  )

  slide-Sampled :
      (t v : F) (w : Window fl)
      → Sampled t v
      → AllSampled w.times w.samples
      → let w' = slide fl p.window_size t v w in AllSampled w'.times w'.samples
  unfolding slide
  slide-Sampled t v w x h =
      let vs = w.samples ++ v ∷ [] in
      choose_drop (ltb p.window_size (length vs)) (w.times ++ t ∷ []) vs w
        (AllSampled-append t v w.times w.samples x h)

  slide-Fits :
      (t v : F) (w : Window fl) → Sampled t v → Fits w → Fits (slide fl p.window_size t v w)
  slide-Fits t v w x (h, k, l) =
      let (m, n) = slide-bounds t v w h k in (m, n, slide-Sampled t v w x l)

  with_reading-Fits :
      (r : MeasurementReading F) (w : Window fl) (s : b.W)
      → (b.sampler s).0 ≡ ok r
      → Fits w
      → Fits (with_reading fl p r w)
  unfolding with_reading
  with_reading-Fits r w s g h = elim (Bool-cases r.is_overload) [
    | inl e ↦ rw e h
    | inr e ↦ elim (Option-cases r.reading_value) [
      | inl n ↦ rw (e, n) h
      | inr (v, n) ↦ rw (e, n) (slide-Fits r.monotonic_s v w (r, s, g, e, refl, n) h)
    ]
  ]

  verdict-exceeds :
      (m : Metrics fl)
      → (verdict fl p m).0 ≡ true
      → (exceeds fl m.stdev p.max_stdev_ohm ≡ false)
        × (exceeds fl m.relative_stdev p.max_relative_stdev ≡ false)
        × (exceeds fl m.relative_slope p.max_slope_relative_per_s ≡ false)
  unfolding verdict
  verdict-exceeds m h = ground arith

  -- What the last reading makes of a full window that is stable.
  conclude-IsHonest :
      (w : Window fl) (elapsed : F) (r : MeasurementReading F)
      → Taken r
      → Fits w
      → length w.samples ≡ p.window_size
      → (verdict fl p (metrics_of fl w.times w.samples)).0 ≡ true
      → IsHonest (conclude fl w.samples (metrics_of fl w.times w.samples) elapsed r)
  unfolding conclude no_value
  conclude-IsHonest w elapsed r from fits full good = elim (Bool-cases r.is_overload) [
    | inl e ↦ rw e (unstable refl refl)
    | inr e ↦ elim (Option-cases r.reading_value) [
      | inl n ↦ rw (e, n) (unstable refl refl)
      | inr (v, n) ↦
          let (x, y, z) = verdict-exceeds (metrics_of fl w.times w.samples) good in
          rw (e, n) (settled v r w.times refl refl refl n e from fits.2 full (omega arith) x y z)
    ]
  ]

module _ {fl : Float} (b : Bench fl) (p : StabilityProfile fl.F) (t_start : fl.F) where
  open fl use {F}
  open b use {W}

  -- How a round ends.
  abbrev pub Ends : Round fl × W → Type 0
  Ends (finished (ok result), s) = IsHonest b p result
  Ends (finished (err e), s) = Unit
  Ends (again w, s) = Fits b p w

  -- What an attempt to sample gives.
  abbrev TakenIfOk : Result (MeasurementReading F) → Type 0
  TakenIfOk (ok r) = Taken b p r
  TakenIfOk (err e) = Unit

  by_sampler_if : (s : W) (x : Result (MeasurementReading F)) → (b.sampler s).0 ≡ x → TakenIfOk x
  by_sampler_if s (ok r) e = by_sampler s e
  by_sampler_if s (err x) e = tt

  by_final_if :
      (f : W → Result (MeasurementReading F) × W) (s : W) (x : Result (MeasurementReading F))
      → b.final_sampler ≡ some f
      → (f s).0 ≡ x
      → TakenIfOk x
  by_final_if f s (ok r) k e = by_final f s k e
  by_final_if f s (err x) k e = tt

  taken_finally :
      (r : MeasurementReading F) (s : W) (n : Option Nplc)
      (k : Option (W → Result (MeasurementReading F) × W))
      → Taken b p r
      → b.final_sampler ≡ k
      → TakenIfOk
          (elim n as (λ _. Result (MeasurementReading F) × W) [
            | none ↦ (ok r, s)
            | some _ ↦ elim k as (λ _. Result (MeasurementReading F) × W) [
              | none ↦ b.sampler s
              | some f ↦ f s
            ]
          ]).0
  taken_finally r s none k from e = from
  taken_finally r s (some n) none from e = by_sampler_if s (b.sampler s).0 refl
  taken_finally r s (some n) (some f) from e = by_final_if f s (f s).0 e refl

  take_final-Taken :
      (r : MeasurementReading F) (s : W) → Taken b p r → TakenIfOk (take_final b p t_start r s).0
  unfolding take_final
  take_final-Taken r s from = taken_finally r s p.final_nplc b.final_sampler from refl

  after_final :
      (x : Result (MeasurementReading F) × W) (w : Window fl)
      → TakenIfOk x.0
      → Fits b p w
      → length w.samples ≡ p.window_size
      → (verdict fl p (metrics_of fl w.times w.samples)).0 ≡ true
      → Ends (elim x.0 [
        | err e ↦ (finished (err e), x.1)
        | ok final ↦
            with_elapsed b p t_start
              (λ elapsed. conclude fl w.samples (metrics_of fl w.times w.samples) elapsed final)
              x.1
      ])
  after_final (ok final, s) w from fits full good =
      conclude-IsHonest b p w (fl.sub (b.now s).0 t_start) final from fits full good
  after_final (err e, s) w from fits full good = tt

  judged :
      (r : MeasurementReading F) (w : Window fl) (s : W) (v : Bool × WindowReason F)
      → Taken b p r
      → Fits b p w
      → length w.samples ≡ p.window_size
      → verdict fl p (metrics_of fl w.times w.samples) ≡ v
      → Ends (
          if v.0
          then settle b p t_start r w (metrics_of fl w.times w.samples) s
          else (again (record w { last_reason = v.1 }), s))
  unfolding settle
  judged r w s (true, reason) from fits full e =
      after_final (take_final b p t_start r s) w (take_final-Taken r s from) fits full
        (ap (λ x. x.0) e)
  judged r w s (false, reason) from fits full e = fits

  judge_window-Ends :
      (r : MeasurementReading F) (w : Window fl) (s : W)
      → Taken b p r
      → Fits b p w
      → Ends (judge_window b p t_start r w s)
  unfolding judge_window
  judge_window-Ends r w s from fits = elim (Bool-cases (ltb (length w.samples) p.window_size)) [
    | inl short ↦ rw short fits
    | inr full ↦ elim (Bool-cases (length w.samples == 0)) [
      | inl empty ↦ rw (full, empty) tt
      | inr some_left ↦
          rw (full, some_left)
            (judged r w s (verdict fl p (metrics_of fl w.times w.samples)) from fits (ground arith)
              refl)
    ]
  ]

  take_sample-Ends :
      (r : MeasurementReading F) (w : Window fl) (s s' : W)
      → (b.sampler s').0 ≡ ok r
      → Fits b p w
      → Ends (take_sample b p t_start r w s)
  unfolding take_sample no_value
  take_sample-Ends r w s s' from fits = elim (Bool-cases (r.is_overload && p.reject_overload)) [
    | inl e ↦ rw e (unstable refl refl)
    | inr e ↦ rw e (
        judge_window-Ends r (with_reading fl p r w) s (by_sampler s' from)
          (with_reading-Fits b p r w s' from fits))
  ]

  after_sample :
      (x : Result (MeasurementReading F) × W) (w : Window fl) (s' : W)
      → (b.sampler s').0 ≡ x.0
      → Fits b p w
      → Ends (elim x.0 [
        | err e ↦ (finished (err e), x.1)
        | ok reading ↦ take_sample b p t_start reading w x.1
      ])
  after_sample (ok reading, s) w s' from fits = take_sample-Ends reading w s s' from fits
  after_sample (err e, s) w s' from fits = tt

  pub round-Ends : (w : Window fl) (s : W) → Fits b p w → Ends (round b p t_start w s)
  unfolding round no_value
  round-Ends w s fits = elim (Bool-cases (fl.lt p.max_wait_s (fl.sub (b.now s).0 t_start))) [
    | inl late ↦ rw late (unstable refl refl)
    | inr early ↦ rw early (after_sample (b.sampler (b.now s).1) w (b.now s).1 refl fits)
  ]

-- What the loop may give back: nothing is claimed of an exception of a sampler.
abbrev pub HonestIfOk :
    {fl : Float} (b : Bench fl)
    → StabilityProfile fl.F
    → Result (StableMeasurementResult fl.F)
    → Type 0
HonestIfOk b p (ok result) = IsHonest b p result
HonestIfOk b p (err e) = Unit
