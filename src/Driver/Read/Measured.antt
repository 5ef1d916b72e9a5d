-- ===== src/Driver/Read/Measured.antt =====
-- `read_once`: which response of the instrument a reading is, and what came before it.
use mathlib.Core.Path.{subst}
use hp34401a_driver.Base.{
  ℕ, String, Bool, true, false, some, [], ◌∷◌, ◌≡◌, refl, arith, ap, inl, inr, if◌then◌else◌,
}
use hp34401a_driver.Base.Text.{starts_with, upper, upper_code, strip, lstrip, rstrip, is_space}
use hp34401a_driver.Float.{Float}
use hp34401a_driver.Enums.{connected_remote, error_recovery, has_unread_output}
use hp34401a_driver.Errors.{Result, ok, err, timeout, is_timeout, is_hp_error, Result-cases}
use hp34401a_driver.Measurement.{MeasurementReading}
use hp34401a_driver.Parser.{parse_reading_list}
use hp34401a_driver.Transport.{Transport}
use hp34401a_driver.Driver.{
  Driver, M, pure, ◌>>=◌, ◌>>◌, finally, set_timeout, append_action, traced, outbound, inbound,
  call_trace,
}
use hp34401a_driver.Driver.Guard.{
  guard_safety, normalize_scpi_query, starts_with_any, should_retry_timeout_query,
}
use hp34401a_driver.Driver.Raw.{write, query, attempt, attempts_left, send_query, transport_recover}
use hp34401a_driver.Driver.Status.{drain_all}
use hp34401a_driver.Driver.Settings.{reconfigure}
use hp34401a_driver.Driver.Read.{
  ready, active_timeout, do_read, measure_again, read_or_retry, finish_reading, build_reading,
  read_once,
}
use hp34401a_driver.Driver.Read.Sound.{IsSound, read_once-IsSound}

module _ {fl : Float} {T : Transport fl.F} where
  open fl use {F}

  -- What stands before the second measurement: recovery, the timeout, and the last set-up.
  abbrev prepare : F → M fl T (Unit {0})
  prepare wait = transport_recover append_action (some drain_all) >>= λ _.
      set_timeout wait >> λ d. reconfigure d.last_configure d

  -- How a response was measured, from `d` to `after`: at once, or afresh after one timeout.
  pub data Measured (wait : F) (d : Driver fl T) (raw : String) (k : ℕ) (after : Driver fl T)
      : Type 0 where
    at_once : do_read d ≡ (ok raw, after) → k ≡ 0 → Measured wait d raw k after
    afresh :
        (d1 d2 : Driver fl T)
        → do_read d ≡ (err timeout, d1)
        → d.cfg.retry_queries ≡ true
        → prepare wait d1 ≡ (ok tt, d2)
        → do_read d2 ≡ (ok raw, after)
        → k ≡ 1
        → Measured wait d raw k after

  abbrev IsMeasured : F → Driver fl T → Result (String × ℕ) × Driver fl T → Type 0
  IsMeasured wait d (ok (raw, k), d') = Measured wait d raw k d'
  IsMeasured wait d (err e, d') = Unit

  third :
      (wait : F) (d d1 d2 : Driver fl T) (p : Result String × Driver fl T)
      → do_read d ≡ (err timeout, d1)
      → d.cfg.retry_queries ≡ true
      → prepare wait d1 ≡ (ok tt, d2)
      → do_read d2 ≡ p
      → IsMeasured wait d (((λ _. p) >>= λ raw. pure (raw, 1)) d2)
  third wait d d1 d2 (ok raw, d3) e r h k = afresh d1 d2 e r h k refl
  third wait d d1 d2 (err x, d3) e r h k = tt

  abbrev last : M fl T (String × ℕ)
  last = do_read >>= λ raw. pure (raw, 1)

  second :
      (wait : F) (d d1 d' : Driver fl T) (p : Result (Unit {0}) × Driver fl T)
      → do_read d ≡ (err timeout, d1)
      → d.cfg.retry_queries ≡ true
      → prepare wait d1 ≡ p
      → IsMeasured wait d (((λ _. p) >> last) d')
  second wait d d1 d' (ok _, d2) e r h = third wait d d1 d2 (do_read d2) e r h refl
  second wait d d1 d' (err x, d2) e r h = tt

  first :
      (wait : F) (d d1 : Driver fl T) (p : Result (Unit {0}) × Driver fl T)
      → do_read d ≡ (err timeout, d1)
      → d.cfg.retry_queries ≡ true
      → transport_recover append_action (some drain_all) d1 ≡ p
      → IsMeasured wait d (
          ((λ _. p) >>= λ _. set_timeout wait >> ((λ d'. reconfigure d'.last_configure d') >> last))
            d1)
  first wait d d1 (ok _, d') e r h =
      let d'' : Driver fl T = record d' { t = T.set_timeout wait d'.t } in
      second wait d d1 d'' (reconfigure d''.last_configure d'') e r (
        ap
          (λ (q : Result (Unit {0}) × Driver fl T).
            ((λ _. q) >>= λ _. set_timeout wait >> λ x. reconfigure x.last_configure x) d1)
          h)
  first wait d d1 (err x, d') e r h = tt

  measure_again-IsMeasured :
      (wait : F) (d d1 : Driver fl T)
      → do_read d ≡ (err timeout, d1)
      → d.cfg.retry_queries ≡ true
      → IsMeasured wait d (measure_again wait d1)
  unfolding measure_again
  measure_again-IsMeasured wait d d1 e r =
      first wait d d1 (transport_recover append_action (some drain_all) d1) e r refl

  abbrev or_failed : F → Bool → Driver fl T → Result (String × ℕ) × Driver fl T
  or_failed wait b d1 =
      if b then measure_again wait d1 else (err timeout, record d1 { state = error_recovery })

  retry_case :
      (wait : F) (b : Bool) (d d1 : Driver fl T)
      → do_read d ≡ (err timeout, d1)
      → d.cfg.retry_queries ≡ b
      → IsMeasured wait d (or_failed wait b d1)
  retry_case wait true d d1 e r = measure_again-IsMeasured wait d d1 e r
  retry_case wait false d d1 e r = tt

  after_do_read :
      (wait : F) (b : Bool) (d : Driver fl T) (p : Result String × Driver fl T)
      → d.cfg.retry_queries ≡ b
      → do_read d ≡ p
      → IsMeasured wait d (elim p.0 [
        | ok raw ↦ (ok (raw, 0), p.1)
        | err e ↦
            if is_timeout e
            then (if b
                then measure_again wait p.1
                else (err e, record p.1 { state = error_recovery }))
            else (err e, p.1)
      ])
  after_do_read wait b d (ok raw, d') r e = at_once e refl
  after_do_read wait b d (err timeout, d') r e = retry_case wait b d d' e r
  after_do_read wait b d (err x, d') r e = tt

  read_or_retry-IsMeasured : (wait : F) (d : Driver fl T) → IsMeasured wait d (read_or_retry wait d)
  unfolding read_or_retry
  read_or_retry-IsMeasured wait d = after_do_read wait d.cfg.retry_queries d (do_read d) refl refl

  -- A response that `do_read` returns is one that the transport gave to READ?, as its last call.
  abbrev Answers : Result String × Driver fl T → Type 0
  Answers (ok raw, d) = (s : T.S) × (T.query "READ?" s ≡ (ok raw, d.t))
  Answers (err e, d) = Unit

  after_query :
      (d : Driver fl T) (p : Result String × T.S)
      → T.query "READ?" d.t ≡ p
      → Answers (elim p.0 [
        | ok resp ↦
            (call_trace inbound resp >>= λ _. pure resp)
              (record d { t = p.1; state = connected_remote })
        | err e ↦ (
          err e,
          record d { t = p.1; state = if is_hp_error e then error_recovery else has_unread_output },
        )
      ])
  after_query d (ok raw, s) e = (d.t, e)
  after_query d (err x, s) e = tt

  send_query-Answers : (d : Driver fl T) → Answers (send_query "READ?" d)
  unfolding send_query
  send_query-Answers d = after_query d (T.query "READ?" d.t) refl

  never_again : (d : Driver fl T) → attempts_left d "READ?" ≡ 0
  unfolding should_retry_timeout_query starts_with_any normalize_scpi_query starts_with upper
      upper_code strip lstrip rstrip is_space
  never_again d = ground arith

  query-Answers : (d : Driver fl T) → Answers (query "READ?" d)
  unfolding query attempt
  query-Answers d =
      let d' : Driver fl T = record d { trace = traced outbound "READ?" d.trace } in
      elim (Result-cases (guard_safety d.cfg "READ?")) [
        | inr (e, bad) ↦ rw bad tt
        | inl (_, e) ↦ rw (e, never_again d') (send_query-Answers d')
      ]

  then-Answers :
      (p : Result (Unit {0}) × Driver fl T) (m : M fl T String) (d : Driver fl T)
      → ((d' : Driver fl T) → Answers (m d'))
      → Answers (((λ _. p) >> m) d)
  then-Answers (ok _, d') m d h = h d'
  then-Answers (err e, d') m d h = tt

  do_read-Answers : (d : Driver fl T) → Answers (do_read d)
  unfolding do_read
  do_read-Answers d =
      let one : M fl T String = query "READ?" in
      let two : M fl T String = write "SAMPle:COUNt 1" >> one in
      let three : M fl T String = write "TRIGger:COUNt 1" >> two in
      then-Answers (write "TRIGger:SOURce IMMediate" d) three d (λ d'.
        then-Answers (write "TRIGger:COUNt 1" d') two d'
          (λ d''. then-Answers (write "SAMPle:COUNt 1" d'') one d'' query-Answers))

  answered :
      (wait : F) (d after : Driver fl T) (raw : String) (k : ℕ)
      → Measured wait d raw k after
      → (s : T.S) × (T.query "READ?" s ≡ (ok raw, after.t))
  answered wait d after raw k (at_once e _) = subst Answers e (do_read-Answers d)
  answered wait d after raw k (afresh d1 d2 _ _ _ e _) = subst Answers e (do_read-Answers d2)

  -- Where a reading comes from.
  pub record Comes (d : Driver fl T) (r : MeasurementReading F) (final : T.S) : Type 0 where
    pub after : Driver fl T
    pub measured :
        Measured
          (active_timeout d)
          (record d { t = T.set_timeout (active_timeout d) d.t; actions = [] })
          r.raw
          r.retry_count
          after
    pub asked : T.S
    pub answer : T.query "READ?" asked ≡ (ok r.raw, after.t)
    pub restored : final ≡ T.set_timeout d.cfg.default_timeout_s after.t

  abbrev ComesIfOk : Driver fl T → Result (MeasurementReading F) × Driver fl T → Type 0
  ComesIfOk d (ok r, d') = Comes d r d'.t
  ComesIfOk d (err e, d') = Unit

  finish-Comes :
      (d d1 : Driver fl T) (raw : String) (k : ℕ)
      → Measured
          (active_timeout d)
          (record d { t = T.set_timeout (active_timeout d) d.t; actions = [] })
          raw
          k
          d1
      → ComesIfOk d
          (finish_reading (raw, k) (record d1 { t = T.set_timeout d.cfg.default_timeout_s d1.t }))
  unfolding finish_reading build_reading
  finish-Comes d d1 raw k h = elim (Result-cases (parse_reading_list fl raw)) [
    | inr (e, bad) ↦ rw bad tt
    | inl ([], e) ↦ rw e tt
    | inl (v ∷ vs, e) ↦
        let d' : Driver fl T = record d {
          t = T.set_timeout (active_timeout d) d.t;
          actions = [];
        } in
        let (s, q) = answered (active_timeout d) d' d1 raw k h in
        rw e (record { after = d1; measured = h; asked = s; answer = q; restored = refl })
  ]

  after_try :
      (d d' : Driver fl T) (p : Result (String × ℕ) × Driver fl T)
      → IsMeasured
          (active_timeout d)
          (record d { t = T.set_timeout (active_timeout d) d.t; actions = [] })
          p
      → ComesIfOk d ((finally (λ _. p) (set_timeout d.cfg.default_timeout_s) >>= finish_reading) d')
  after_try d d' (ok (raw, k), d1) h = finish-Comes d d1 raw k h
  after_try d d' (err e, d1) h = tt

  read_once-Comes : (d : Driver fl T) → ComesIfOk d (read_once d)
  unfolding read_once
  read_once-Comes d = elim (Result-cases (ready d)) [
    | inr (e, bad) ↦ rw bad tt
    | inl (_, e) ↦
        let d' : Driver fl T = record d {
          t = T.set_timeout (active_timeout d) d.t;
          actions = [];
        } in
        rw e (
          after_try d d' (read_or_retry (active_timeout d) d')
            (read_or_retry-IsMeasured (active_timeout d) d'))
  ]

  -- A reading that `read_once` returns is the first number of a response that the transport gave to
  -- READ?, or no number, for an overload. The response is that of the first measurement, or, after a
  -- timeout of the first and where retries are configured, that of the one measurement behind the
  -- recovery and the last set-up; the retry count says which. Only the default timeout is set after
  -- it, and the driver is remote.
  pub read_once-Returns :
      (d : Driver fl T) (r : MeasurementReading F)
      → (read_once d).0 ≡ ok r
      → IsSound fl r × Comes d r (read_once d).1.t × ((read_once d).1.state ≡ connected_remote)
  read_once-Returns d r h =
      let (sound, _, remote) = read_once-IsSound d r h in
      (sound, subst (λ x. ComesIfOk d (x, (read_once d).1)) h (read_once-Comes d), remote)
