-- ===== src/Driver/Stable/Steps.antt =====
-- The measurements of the driver under a preorder of the transport's states that every call of the
-- transport respects: what every method is made of. The methods are in the module below.
pub mod Measuring
use hp34401a_driver.Base.{
  ℕ, zero, suc, String, Bool, true, false, Option, none, some, List, [], ◌∷◌, ◌≡◌, refl, arith,
  if◌then◌else◌, inl, inr, Bool-cases,
}
use hp34401a_driver.Base.Int.{pos, negsuc}
use hp34401a_driver.Float.{Float}
use hp34401a_driver.Enums.{
  MeasurementFunction, AutozeroMode, Nplc, AcFilterHz, Aperture, Range, value, token, auto,
  min_range, max_range, def_range, in_nplc_functions, freq, res_2w, res_4w, error_recovery, on,
}
use hp34401a_driver.Enums
use hp34401a_driver.Errors.{Error, Result, ok, err, Result-cases, is_timeout}
use hp34401a_driver.Measurement.{is_no_error, ErrorRecord, MeasurementReading}
use hp34401a_driver.Config.{StabilityProfile}
use hp34401a_driver.Transport.{Transport}
use hp34401a_driver.Driver.{
  Driver, M, Configure, plain, frequency, period, pure, lift, modify, ◌>>=◌, ◌>>◌, finally,
  set_timeout, append_action, call_trace, outbound, inbound, when,
}
use hp34401a_driver.Parser.{ParsedError, parse_error, parse_reading_list}
use hp34401a_driver.Driver.Validate.{validate_range}
use hp34401a_driver.Driver.Guard.{guard_safety}
use hp34401a_driver.Driver.Frame.{
  Respects, Respects-bind, Respects-then, Respects-when, Respects-suppress_hp, Respects-finally,
}
use hp34401a_driver.Driver.Raw.{
  write, query, send_query, attempt, attempts_left, transport_recover, recover_before_query_retry,
  retry_delay,
}
use hp34401a_driver.Driver.Raw.Recovery.{transport_recover-Respects}
use hp34401a_driver.Driver.Status.{read_error, drain_error_queue, drain_all, max_errors}
use hp34401a_driver.Driver.Settings.{
  sense_auto, conf_command, or_key_error, configure_mnemonic, sense_mnemonic, write_autorange,
  write_nplc, write_autozero, write_ac_filter, remember, apply_configure, run_configure, configure,
  reconfigure,
}
use hp34401a_driver.Driver.Read.{
  do_read, measure_again, read_or_retry, finish_reading, ready, active_timeout, read_once,
  measure_4wire_resistance, measure_2wire_resistance,
}
use hp34401a_driver.Driver.Stable.{sample_at}

-- A preorder of the transport's states that each of its calls respects.
pub record Steps {F : Type 0} (T : Transport F) : Type 1 where
  pub P : T.S → T.S → Type 0
  pub P-refl : (s : T.S) → P s s
  pub P-trans : (a b c : T.S) → P a b → P b c → P a c
  pub P-write : (c : String) (s : T.S) → P s (T.write c s).1
  pub P-query : (c : String) (s : T.S) → P s (T.query c s).1
  pub P-read_raw : (s : T.S) → P s (T.read_raw s).1
  pub P-clear : (s : T.S) → P s (T.clear s).1
  pub P-set_timeout : (x : F) (s : T.S) → P s (T.set_timeout x s)
  pub P-sleep : (x : F) (s : T.S) → P s (T.sleep x s)

module _ {fl : Float} {T : Transport fl.F} (steps : Steps T) where
  open steps use {P, P-refl, P-trans, P-write, P-query, P-read_raw, P-clear, P-set_timeout, P-sleep}

  abbrev R : Driver fl T → Driver fl T → Type 0
  R d d' = P d.t d'.t

  abbrev pub Keeps : {A : Type 0} → M fl T A → Type 0
  Keeps m = Respects R m

  R-refl : (d : Driver fl T) → R d d
  R-refl d = P-refl d.t

  R-trans : (a b c : Driver fl T) → R a b → R b c → R a c
  R-trans a b c = P-trans a.t b.t c.t

  bind_rule :
      {A B : Type 0} (m : M fl T A) (f : A → M fl T B)
      → Keeps m
      → ((a : A) → Keeps (f a))
      → Keeps (m >>= f)
  bind_rule = Respects-bind R R-refl R-trans

  then_rule : {A B : Type 0} (m : M fl T A) (k : M fl T B) → Keeps m → Keeps k → Keeps (m >> k)
  then_rule = Respects-then R R-refl R-trans

  lift_rule :
      {A B : Type 0} (r : Result A) (f : A → M fl T B)
      → ((a : A) → Keeps (f a))
      → Keeps (lift r >>= f)
  lift_rule r f h = bind_rule (lift r) f R-refl h

  finally_rule :
      {A : Type 0} (m : M fl T A) (k : M fl T (Unit {0})) → Keeps m → Keeps k → Keeps (finally m k)
  finally_rule = Respects-finally R R-refl R-trans

  write-Keeps : (c : String) → Keeps (write {fl = fl} {T = T} c)
  unfolding write
  write-Keeps c d = ground (arith, P-write c d.t, P-refl d.t)

  send_query-Keeps : (c : String) → Keeps (send_query {fl = fl} {T = T} c)
  unfolding send_query
  send_query-Keeps c d = ground (arith, P-query c d.t)

  recover_with :
      (log : String → M fl T (Unit {0})) (drain : M fl T (Unit {0}))
      → ((n : String) → Keeps (log n))
      → Keeps drain
      → Keeps (transport_recover log (some drain))
  recover_with log drain h k =
      transport_recover-Respects R R-refl R-trans (λ d. P-clear d.t) (λ d. P-read_raw d.t)
        (λ c d. P-write c d.t) (λ x d. P-set_timeout x d.t) (λ d b. P-refl d.t) log (some drain) h k

  recover_before_query_retry-Keeps : Keeps (recover_before_query_retry {fl = fl} {T = T})
  recover_before_query_retry-Keeps =
      transport_recover-Respects R R-refl R-trans (λ d. P-clear d.t) (λ d. P-read_raw d.t)
        (λ c d. P-write c d.t) (λ x d. P-set_timeout x d.t) (λ d b. P-refl d.t) (λ _. pure tt) none
        (λ n d. P-refl d.t) tt

  retry_delay-Keeps : Keeps (retry_delay {fl = fl} {T = T})
  retry_delay-Keeps d = ground (arith, P-sleep d.cfg.query_retry_delay_s d.t, P-refl d.t)

  -- What `attempt` makes of a query that ended, with `m` for the next round.
  abbrev again_or_stop : Result String × Driver fl T → M fl T String → Result String × Driver fl T
  again_or_stop x m = elim x.0 [
    | ok resp ↦ (ok resp, x.1)
    | err e ↦ if is_timeout e then m x.1 else (err e, x.1)
  ]

  again_or_stop-R :
      (d : Driver fl T) (x : Result String × Driver fl T) (m : M fl T String)
      → R d x.1
      → Keeps m
      → R d (again_or_stop x m).1
  again_or_stop-R d (ok resp, d') m h k = h
  again_or_stop-R d (err e, d') m h k = elim (Bool-cases (is_timeout e)) [
    | inl late ↦ rw late (R-trans d d' (m d').1 h (k d'))
    | inr other ↦ rw other h
  ]

  attempt-Keeps : (k : ℕ) (c : String) → Keeps (attempt {fl = fl} {T = T} k c)
  unfolding attempt
  attempt-Keeps zero c d = send_query-Keeps c d
  attempt-Keeps (suc k) c d =
      again_or_stop-R d (send_query c d)
        (recover_before_query_retry >> (retry_delay >> attempt k c)) (send_query-Keeps c d)
        (then_rule recover_before_query_retry (retry_delay >> attempt k c)
          recover_before_query_retry-Keeps
          (then_rule retry_delay (attempt k c) retry_delay-Keeps (attempt-Keeps k c)))

  query-Keeps : (c : String) → Keeps (query {fl = fl} {T = T} c)
  unfolding query
  query-Keeps c d =
      let loop = attempt {fl = fl} {T = T} (attempts_left d c) c in
      lift_rule (guard_safety d.cfg c) (λ _. call_trace outbound c >> loop)
        (λ _. then_rule (call_trace outbound c) loop R-refl (attempt-Keeps (attempts_left d c) c)) d

  read_error-Keeps : Keeps (read_error {fl = fl} {T = T})
  unfolding read_error
  read_error-Keeps =
      let made : ParsedError → ErrorRecord =
        λ r. record { code = r.code; message = r.message; raw = r.raw } in
      let rest : String → M fl T ErrorRecord =
        λ raw. lift (parse_error raw) >>= λ r. pure (made r) in
      bind_rule (query "SYSTem:ERRor?") rest (query-Keeps "SYSTem:ERRor?")
        (λ raw. lift_rule (parse_error raw) (λ r. pure (made r)) (λ r. R-refl))

  when_rule : (b : Bool) (m : M fl T (Unit {0})) → Keeps m → Keeps (when b m)
  when_rule = Respects-when R R-refl R-trans

  cond_rule :
      {A : Type 0} (b : Bool) (m k : M fl T A)
      → Keeps m
      → Keeps k
      → Keeps (λ d. (if b then m else k) d)
  cond_rule true m k h l = h
  cond_rule false m k h l = l

  drain_error_queue-Keeps : (n : ℕ) → Keeps (drain_error_queue {fl = fl} {T = T} n)
  unfolding drain_error_queue
  drain_error_queue-Keeps zero = R-refl
  drain_error_queue-Keeps (suc n) =
      let more : ErrorRecord → M fl T (List ErrorRecord) =
        λ rec. drain_error_queue n >>= λ rest. pure (rec ∷ rest) in
      bind_rule read_error (λ rec d. (if is_no_error rec then pure (rec ∷ []) else more rec) d)
        read_error-Keeps
        (λ rec. cond_rule (is_no_error rec) (pure (rec ∷ [])) (more rec) R-refl (
          bind_rule (drain_error_queue n) (λ rest. pure (rec ∷ rest)) (drain_error_queue-Keeps n)
            (λ rest. R-refl)))

  drain_all-Keeps : Keeps (drain_all {fl = fl} {T = T})
  drain_all-Keeps =
      then_rule (drain_error_queue max_errors) (pure tt) (drain_error_queue-Keeps max_errors) R-refl
