-- ===== src/Driver/Stable/Steps/Measuring.antt =====
-- The methods that configure and read, under a preorder of the transport's states: each respects it.
use hp34401a_driver.Base.{
  ℕ, String, Bool, Option, none, some, [], ◌∷◌, arith, if◌then◌else◌, inl, inr,
}
use hp34401a_driver.Float.{Float}
use hp34401a_driver.Enums.{
  MeasurementFunction, AutozeroMode, Nplc, AcFilterHz, Aperture, Range, value, token, auto,
  min_range, max_range, def_range, in_nplc_functions, freq, res_2w, res_4w, error_recovery, on,
}
use hp34401a_driver.Enums
use hp34401a_driver.Errors.{Result, ok, err, Result-cases, is_timeout}
use hp34401a_driver.Measurement.{MeasurementReading}
use hp34401a_driver.Config.{StabilityProfile}
use hp34401a_driver.Transport.{Transport}
use hp34401a_driver.Driver.{
  Driver, M, Configure, plain, frequency, period, pure, lift, modify, ◌>>=◌, ◌>>◌, finally,
  set_timeout, append_action,
}
use hp34401a_driver.Parser.{parse_reading_list}
use hp34401a_driver.Driver.Validate.{validate_range}
use hp34401a_driver.Driver.Raw.{write, query, transport_recover}
use hp34401a_driver.Driver.Status.{drain_all}
use hp34401a_driver.Driver.Settings.{
  sense_auto, conf_command, or_key_error, configure_mnemonic, sense_mnemonic, write_autorange,
  write_nplc, write_autozero, write_ac_filter, remember, apply_configure, run_configure, configure,
  reconfigure,
}
use hp34401a_driver.Driver.Read.{
  do_read, measure_again, read_or_retry, finish_reading, ready, active_timeout, read_once,
  measure_4wire_resistance, measure_2wire_resistance,
}
use hp34401a_driver.Driver.Stable.{sample_at}
use hp34401a_driver.Driver.Stable.Steps.{
  Steps, finally_rule, R, Keeps, R-refl, R-trans, bind_rule, then_rule, lift_rule, write-Keeps,
  recover_with, query-Keeps, when_rule, cond_rule, drain_all-Keeps,
}

module _ {fl : Float} {T : Transport fl.F} (steps : Steps T) where
  open steps use {P, P-set_timeout}

  write_autorange-Keeps :
      (sense : Option String) (r : Range fl.F)
      → Keeps {fl = fl} {T = T} steps (write_autorange {fl = fl} {T = T} sense r)
  unfolding write_autorange
  write_autorange-Keeps none r = (R-refl steps)
  write_autorange-Keeps (some sense) (value x) = write-Keeps steps (sense_auto sense "OFF")
  write_autorange-Keeps (some sense) (token auto) = write-Keeps steps (sense_auto sense "ON")
  write_autorange-Keeps (some sense) (token min_range) = (R-refl steps)
  write_autorange-Keeps (some sense) (token max_range) = (R-refl steps)
  write_autorange-Keeps (some sense) (token def_range) = (R-refl steps)

  write_nplc-Keeps :
      (f : MeasurementFunction) (n : Option Nplc)
      → Keeps {fl = fl} {T = T} steps (write_nplc {fl = fl} {T = T} f n)
  unfolding write_nplc
  write_nplc-Keeps f none = (R-refl steps)
  write_nplc-Keeps f (some n) =
      when_rule steps (in_nplc_functions f) (write _) (write-Keeps steps _)

  write_autozero-Keeps :
      (f : MeasurementFunction) (z : AutozeroMode)
      → Keeps {fl = fl} {T = T} steps (write_autozero {fl = fl} {T = T} f z)
  unfolding write_autozero
  write_autozero-Keeps f z = when_rule steps (in_nplc_functions f) (write _) (write-Keeps steps _)

  write_ac_filter-Keeps :
      (hz : Option AcFilterHz)
      → Keeps {fl = fl} {T = T} steps (write_ac_filter {fl = fl} {T = T} hz)
  unfolding write_ac_filter
  write_ac_filter-Keeps none = (R-refl steps)
  write_ac_filter-Keeps (some hz) = write-Keeps steps _

  apply_configure-Keeps :
      (f : MeasurementFunction) (r : Range fl.F) (n : Option Nplc) (z : AutozeroMode)
      (hz : Option AcFilterHz) (a : Option Aperture)
      → Keeps {fl = fl} {T = T} steps (apply_configure {fl = fl} {T = T} f r n z hz a)
  unfolding apply_configure
  apply_configure-Keeps f r n z hz a =
      let done : M fl T (Unit {0}) = modify (remember f n z hz a) in
      let filter : M fl T (Unit {0}) = write_ac_filter hz >> done in
      let zeroed : M fl T (Unit {0}) = write_autozero f z >> filter in
      let cycles : M fl T (Unit {0}) = write_nplc f n >> zeroed in
      let ranged : M fl T (Unit {0}) = write_autorange (sense_mnemonic f) r >> cycles in
      bind_rule steps (lift (validate_range fl f r)) _ (R-refl steps) (λ text.
        bind_rule steps (lift (or_key_error (configure_mnemonic f))) _ (R-refl steps) (λ conf.
          then_rule steps (write (conf_command f conf text)) ranged (write-Keeps steps _) (
            then_rule steps (write_autorange (sense_mnemonic f) r) cycles
              (write_autorange-Keeps _ r)
              (then_rule steps (write_nplc f n) zeroed (write_nplc-Keeps f n) (
                then_rule steps (write_autozero f z) filter (write_autozero-Keeps f z) (
                  then_rule steps (write_ac_filter hz) done (write_ac_filter-Keeps hz)
                    (R-refl steps)))))))

  run_configure-Keeps :
      (c : Configure fl.F) → Keeps {fl = fl} {T = T} steps (run_configure {fl = fl} {T = T} c)
  unfolding run_configure
  run_configure-Keeps (plain f r n z hz) = apply_configure-Keeps f r n z hz none
  run_configure-Keeps (frequency r a) =
      then_rule steps (apply_configure freq r none on none (some a)) (write _)
        (apply_configure-Keeps freq r none on none (some a)) (write-Keeps steps _)
  run_configure-Keeps (period r a) =
      then_rule steps (apply_configure Enums.period r none on none (some a)) (write _)
        (apply_configure-Keeps Enums.period r none on none (some a)) (write-Keeps steps _)

  configure-Keeps :
      (c : Configure fl.F) → Keeps {fl = fl} {T = T} steps (configure {fl = fl} {T = T} c)
  unfolding configure
  configure-Keeps c =
      then_rule steps (modify (λ d. record d { last_configure = some c })) (run_configure c)
        (R-refl steps) (run_configure-Keeps c)

  reconfigure-Keeps :
      (c : Option (Configure fl.F))
      → Keeps {fl = fl} {T = T} steps (reconfigure {fl = fl} {T = T} c)
  reconfigure-Keeps none = (R-refl steps)
  reconfigure-Keeps (some c) =
      then_rule steps (run_configure c) (append_action "reconfigure") (run_configure-Keeps c)
        (R-refl steps)

  do_read-Keeps : Keeps {fl = fl} {T = T} steps (do_read {fl = fl} {T = T})
  unfolding do_read
  do_read-Keeps =
      let ask : M fl T String = query "READ?" in
      let samples : M fl T String = write "SAMPle:COUNt 1" >> ask in
      let count : M fl T String = write "TRIGger:COUNt 1" >> samples in
      then_rule steps (write "TRIGger:SOURce IMMediate") count
        (write-Keeps steps "TRIGger:SOURce IMMediate")
        (then_rule steps (write "TRIGger:COUNt 1") samples (write-Keeps steps "TRIGger:COUNt 1") (
          then_rule steps (write "SAMPle:COUNt 1") ask (write-Keeps steps "SAMPle:COUNt 1")
            (query-Keeps steps "READ?")))

  measure_again-Keeps :
      (wait : fl.F) → Keeps {fl = fl} {T = T} steps (measure_again {fl = fl} {T = T} wait)
  unfolding measure_again
  measure_again-Keeps wait =
      let last : M fl T (String × ℕ) = do_read >>= λ raw. pure (raw, 1) in
      let again : M fl T (Unit {0}) = λ d. reconfigure d.last_configure d in
      let longer : M fl T (Unit {0}) = set_timeout wait in
      then_rule steps (transport_recover append_action (some drain_all)) (longer >> (again >> last))
        (recover_with steps append_action drain_all (λ n. (R-refl steps)) (drain_all-Keeps steps))
        (then_rule steps longer (again >> last) (λ d. P-set_timeout wait d.t)
          (then_rule steps again last (λ d. reconfigure-Keeps d.last_configure d)
            (bind_rule steps do_read (λ raw. pure (raw, 1)) do_read-Keeps (λ raw. (R-refl steps)))))

  -- What `read_or_retry` makes of the first attempt.
  abbrev handled : fl.F → Bool → Result String × Driver fl T → Result (String × ℕ) × Driver fl T
  handled wait b x = elim x.0 [
    | ok raw ↦ (ok (raw, 0), x.1)
    | err e ↦
        if is_timeout e
        then (if b then measure_again wait x.1 else (err e, record x.1 { state = error_recovery }))
        else (err e, x.1)
  ]

  handled-R :
      (wait : fl.F) (b : Bool) (d : Driver fl T) (x : Result String × Driver fl T)
      → R steps d x.1
      → R steps d (handled wait b x).1
  handled-R wait b d (ok raw, d') h = h
  handled-R wait b d (err e, d') h =
      ground
        (arith, h, (R-trans steps) d d' (measure_again wait d').1 h (measure_again-Keeps wait d'))

  read_or_retry-Keeps :
      (wait : fl.F) → Keeps {fl = fl} {T = T} steps (read_or_retry {fl = fl} {T = T} wait)
  unfolding read_or_retry
  read_or_retry-Keeps wait d = handled-R wait d.cfg.retry_queries d (do_read d) (do_read-Keeps d)

  finish_reading-Keeps :
      (x : String × ℕ) → Keeps {fl = fl} {T = T} steps (finish_reading {fl = fl} {T = T} x)
  unfolding finish_reading
  finish_reading-Keeps (raw, k) d = elim (Result-cases (parse_reading_list fl raw)) [
    | inr (e, bad) ↦ rw bad ((R-refl steps) d)
    | inl ([], e) ↦ rw e ((R-refl steps) d)
    | inl (v ∷ vs, e) ↦ rw e ((R-refl steps) d)
  ]

  read_once-Keeps : Keeps {fl = fl} {T = T} steps (read_once {fl = fl} {T = T})
  unfolding read_once
  read_once-Keeps d =
      let wait = active_timeout d in
      let back : M fl T (Unit {0}) = set_timeout d.cfg.default_timeout_s in
      let tries : M fl T (String × ℕ) = finally (read_or_retry wait) back in
      let measured : M fl T (MeasurementReading fl.F) = tries >>= finish_reading in
      let start : M fl T (Unit {0}) = modify (λ d'. record d' { actions = [] }) in
      lift_rule steps (ready d) (λ _. set_timeout wait >> (start >> measured))
        (λ _.
          then_rule steps (set_timeout wait) (start >> measured) (λ d'. P-set_timeout wait d'.t)
            (then_rule steps start measured (R-refl steps) (
              bind_rule steps tries finish_reading
                (finally_rule steps (read_or_retry wait) back (read_or_retry-Keeps wait)
                  (λ d'. P-set_timeout d.cfg.default_timeout_s d'.t))
                finish_reading-Keeps)))
        d

  configure_then_read-Keeps :
      (c : Configure fl.F) → Keeps {fl = fl} {T = T} steps (configure c >> read_once)
  configure_then_read-Keeps c =
      then_rule steps (configure c) read_once (configure-Keeps c) read_once-Keeps

  -- A sample of the settling loop.
  pub sample_at-Keeps :
      (p : StabilityProfile fl.F) (n : Nplc)
      → Keeps {fl = fl} {T = T} steps (sample_at {fl = fl} {T = T} p n)
  unfolding sample_at
  sample_at-Keeps p n =
      cond_rule steps p.four_wire (measure_4wire_resistance p.range_ohm n)
        (measure_2wire_resistance p.range_ohm n)
        (configure_then_read-Keeps (plain res_4w p.range_ohm (some n) on none))
        (configure_then_read-Keeps (plain res_2w p.range_ohm (some n) on none))
