-- ===== src/Driver/Read/Sound.antt =====
-- `read_once`: what a reading is worth, and what a call leaves behind.
use mathlib.Core.Path.{subst}
use hp34401a_driver.Base.{
  ℕ, String, Bool, true, false, not, none, some, List, [], ◌∷◌, ◌≡◌, refl, inl, inr, arith,
  if◌then◌else◌, ltb, ◌≤◌,
}
use hp34401a_driver.Float.{Float}
use hp34401a_driver.Enums.{connected_remote, error_recovery}
use hp34401a_driver.Errors.{Result, ok, err, timeout, is_timeout, Result-cases}
use hp34401a_driver.Measurement.{MeasurementReading}
use hp34401a_driver.Parser.{is_overload, parse_reading_list}
use hp34401a_driver.Transport.{Transport}
use hp34401a_driver.Driver.{Driver, M, pure, ◌>>=◌, ◌>>◌, finally, set_timeout, append_action}
use hp34401a_driver.Driver.Raw.{transport_recover}
use hp34401a_driver.Driver.Status.{drain_all}
use hp34401a_driver.Driver.Settings.{reconfigure}
use hp34401a_driver.Driver.Read.{
  build_reading, ready, active_timeout, do_read, measure_again, read_or_retry, finish_reading,
  read_once,
}

module _ (fl : Float) where
  open fl use {F}

  -- A reading is what its own response says: the first number of the list, or no number at all if
  -- that is an overload.
  pub record IsSound (r : MeasurementReading F) : Type 0 where
    pub first : F
    pub others : List F
    pub parsed : parse_reading_list fl r.raw ≡ ok (first ∷ others)
    pub value_of_first : r.reading_value ≡ (if is_overload fl first then none else some first)
    pub overload_of_first : r.is_overload ≡ is_overload fl first
    pub valid_of_first : r.is_valid ≡ not (is_overload fl first)
    pub retried_of_count : r.was_retried ≡ ltb 0 r.retry_count

module _ {fl : Float} {T : Transport fl.F} where
  open fl use {F}

  -- At most one retry, in what the `try` of `read_once` gives.
  abbrev AtMostOne : Result (String × ℕ) × Driver fl T → Type 0
  AtMostOne (ok (raw, k), d) = k ≤ 1
  AtMostOne (err e, d) = Unit

  AtMostOne-bind :
      {A : Type 0} (p : Result A × Driver fl T) (f : A → M fl T (String × ℕ)) (d : Driver fl T)
      → ((a : A) (d' : Driver fl T) → AtMostOne (f a d'))
      → AtMostOne (((λ _. p) >>= f) d)
  AtMostOne-bind (ok a, d') f d h = h a d'
  AtMostOne-bind (err e, d') f d h = tt

  measure_again-AtMostOne : (wait : F) (d : Driver fl T) → AtMostOne (measure_again wait d)
  unfolding measure_again
  measure_again-AtMostOne wait d =
      let last : M fl T (String × ℕ) = do_read >>= λ raw. pure (raw, 1) in
      let again : M fl T (String × ℕ) = (λ d'. reconfigure d'.last_configure d') >> last in
      AtMostOne-bind (transport_recover append_action (some drain_all) d)
        (λ _. set_timeout wait >> again) d
        (λ _ d'.
          let d'' : Driver fl T = record d' { t = T.set_timeout wait d'.t } in
          AtMostOne-bind (reconfigure d''.last_configure d'') (λ _. last) d''
            (λ _ d'. AtMostOne-bind (do_read d') (λ raw. pure (raw, 1)) d' (λ raw _. omega arith)))

  retry_case :
      (wait : F) (b : Bool) (d : Driver fl T)
      → AtMostOne
          (if b then measure_again wait d else (err timeout, record d { state = error_recovery }))
  retry_case wait true d = measure_again-AtMostOne wait d
  retry_case wait false d = tt

  after_do_read :
      (wait : F) (b : Bool) (p : Result String × Driver fl T)
      → AtMostOne (elim p.0 [
        | ok raw ↦ (ok (raw, 0), p.1)
        | err e ↦
            if is_timeout e
            then (if b
                then measure_again wait p.1
                else (err e, record p.1 { state = error_recovery }))
            else (err e, p.1)
      ])
  after_do_read wait b (ok raw, d) = omega arith
  after_do_read wait b (err timeout, d) = retry_case wait b d
  after_do_read wait b (err e, d) = tt

  read_or_retry-AtMostOne : (wait : F) (d : Driver fl T) → AtMostOne (read_or_retry wait d)
  unfolding read_or_retry
  read_or_retry-AtMostOne wait d = after_do_read wait d.cfg.retry_queries (do_read d)

  -- What `read_once` gives: on an exception, nothing is claimed.
  abbrev pub Reads : Result (MeasurementReading F) × Driver fl T → Type 0
  Reads (ok r, d) = IsSound fl r × (r.retry_count ≤ 1) × (d.state ≡ connected_remote)
  Reads (err e, d) = Unit

  finish_reading-Reads :
      (raw : String) (k : ℕ) (d : Driver fl T) → k ≤ 1 → Reads (finish_reading (raw, k) d)
  unfolding finish_reading build_reading
  finish_reading-Reads raw k d h = elim (Result-cases (parse_reading_list fl raw)) [
    | inr (e, bad) ↦ rw bad tt
    | inl ([], e) ↦ rw e tt
    | inl (v ∷ vs, e) ↦ rw e (
      record {
        first = v;
        others = vs;
        parsed = e;
        value_of_first = refl;
        overload_of_first = refl;
        valid_of_first = refl;
        retried_of_count = refl;
      },
      h,
      refl,
    )
  ]

  after_try :
      (p : Result (String × ℕ) × Driver fl T) (x : F) (d : Driver fl T)
      → AtMostOne p
      → Reads ((finally (λ _. p) (set_timeout x) >>= finish_reading) d)
  after_try (ok (raw, k), d') x d h =
      finish_reading-Reads raw k (record d' { t = T.set_timeout x d'.t }) h
  after_try (err e, d') x d h = tt

  pub read_once-Reads : (d : Driver fl T) → Reads (read_once d)
  unfolding read_once
  read_once-Reads d = elim (Result-cases (ready d)) [
    | inr (e, bad) ↦ rw bad tt
    | inl (_, e) ↦
        let d' : Driver fl T = record d {
          t = T.set_timeout (active_timeout d) d.t;
          actions = [];
        } in
        rw e (
          after_try (read_or_retry (active_timeout d) d') d.cfg.default_timeout_s d'
            (read_or_retry-AtMostOne (active_timeout d) d'))
  ]

  -- The same of a reading that was returned.
  pub read_once-IsSound :
      (d : Driver fl T) (r : MeasurementReading F)
      → (read_once d).0 ≡ ok r
      → IsSound fl r × (r.retry_count ≤ 1) × ((read_once d).1.state ≡ connected_remote)
  read_once-IsSound d r h = subst (λ x. Reads (x, (read_once d).1)) h (read_once-Reads d)

  finally_timeout :
      (p : Result (String × ℕ) × Driver fl T) (x : F) (d : Driver fl T)
      → (s : T.S) × (((finally (λ _. p) (set_timeout x) >>= finish_reading) d).1.t
          ≡ T.set_timeout x s)
  unfolding finish_reading
  finally_timeout (ok (raw, k), d') x d = (d'.t, ground arith)
  finally_timeout (err e, d') x d = (d'.t, refl)

  -- An allowed call ends with the transport at the default timeout, however the measurement and
  -- its recovery went: setting it is the last thing that is done to the transport.
  read_once_restores_timeout :
      (d : Driver fl T)
      → ready d ≡ ok tt
      → (s : T.S) × ((read_once d).1.t ≡ T.set_timeout d.cfg.default_timeout_s s)
  unfolding read_once
  read_once_restores_timeout d e =
      let d' : Driver fl T = record d { t = T.set_timeout (active_timeout d) d.t; actions = [] } in
      rw e (finally_timeout (read_or_retry (active_timeout d) d') d.cfg.default_timeout_s d')
