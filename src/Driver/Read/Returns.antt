-- ===== src/Driver/Read/Returns.antt =====
-- That a measurement on a working instrument returns: `configure_*` and `read_once` over a transport
-- that takes every command and has a response to READ?.
use mathlib.Core.Path.{subst}
use hp34401a_driver.Base.{
  ℕ, zero, suc, String, true, Option, none, some, List, [], ◌∷◌, ◌≡◌, refl, sym, ap, or_else, ◌∙◌,
  All,
}
use hp34401a_driver.Float.{Float}
use hp34401a_driver.Enums.{
  MeasurementFunction, Range, Nplc, AutozeroMode, AcFilterHz, volt_dc, connected_remote,
}
use hp34401a_driver.Errors.{Result, ok, err}
use hp34401a_driver.Measurement.{MeasurementReading}
use hp34401a_driver.Config.{DriverConfig}
use hp34401a_driver.Parser.{parse_reading_list}
use hp34401a_driver.Transport.{Transport}
use hp34401a_driver.Driver.{Driver, M, plain, ◌>>=◌, ◌>>◌, modify, finally, set_timeout}
use hp34401a_driver.Driver.Guard.{guard_safety, is_cal_command, is_rwlock_command}
use hp34401a_driver.Driver.Raw.{write, send_query, attempt, attempts_left, query}
use hp34401a_driver.Driver.Validate.{validate_range}
use hp34401a_driver.Driver.Settings.{
  configure_mnemonic, remember, apply_configure, run_configure, configure,
}
use hp34401a_driver.Driver.Settings.Steps.{settings_commands, write_all, steps-all, then_assoc}
use hp34401a_driver.Driver.Read.Book.{do_read-book}
use hp34401a_driver.Driver.Read.{
  unless_overload, build_reading, ready, active_timeout, do_read, read_or_retry, finish_reading,
  read_once,
}

-- The states of a transport that is open, takes every command, and will answer READ? with `raw`.
-- Commands and timeouts keep such a state; what follows the answer is left open.
pub record Working {F : Type 0} (T : Transport F) (raw : String) : Type 1 where
  pub Works : T.S → Type 0
  pub opened : (s : T.S) → Works s → T.is_open s ≡ true
  pub written : (c : String) (s : T.S) → Works s → (T.write c s).0 ≡ ok tt
  pub write_keeps : (c : String) (s : T.S) → Works s → Works (T.write c s).1
  pub timeout_keeps : (x : F) (s : T.S) → Works s → Works (T.set_timeout x s)
  pub answered : (s : T.S) → Works s → (T.query "READ?" s).0 ≡ ok raw

module _ {fl : Float} {T : Transport fl.F} {raw : String} (w : Working T raw) where
  open fl use {F}
  open w use {Works, opened, written, write_keeps, timeout_keeps, answered}

  -- A call that returned `a`, on a transport that still works, with the configuration `cfg`.
  abbrev Went : DriverConfig F → Result (Unit {0}) × Driver fl T → Type 0
  Went cfg (r, d) = (r ≡ ok tt) × (d.cfg ≡ cfg) × Works d.t

  -- What follows such a call.
  after :
      {A : Type 0} (Q : Result A × Driver fl T → Type 0) (p : Result (Unit {0}) × Driver fl T)
      (k : M fl T A) (d : Driver fl T) (cfg : DriverConfig F)
      → Went cfg p
      → ((d' : Driver fl T) → d'.cfg ≡ cfg → Works d'.t → Q (k d'))
      → Q (((λ _. p) >> k) d)
  after Q (ok _, d') k d cfg (e, kept, works) h = h d' kept works
  after Q (err x, d') k d cfg (e, kept, works) h = cc

  write-Went :
      (c : String) (d : Driver fl T)
      → guard_safety d.cfg c ≡ ok tt
      → Works d.t
      → Went d.cfg (write c d)
  unfolding write
  write-Went c d allowed works =
      rw (allowed, written c d.t works) (refl, refl, write_keeps c d.t works)

  write_all-Went :
      (cfg : DriverConfig F) (cs : List String) (d : Driver fl T)
      → All (λ c. guard_safety cfg c ≡ ok tt) cs
      → d.cfg ≡ cfg
      → Works d.t
      → Went cfg (write_all cs d)
  unfolding write_all
  write_all-Went cfg [] d allowed kept works = (refl, kept, works)
  write_all-Went cfg (c ∷ cs) d (allowed, more) kept works =
      after (Went cfg) (write c d) (write_all cs) d cfg
        (subst (λ x. Went x (write c d)) kept
          (write-Went c d (subst (λ x. guard_safety x c ≡ ok tt) (sym kept) allowed) works))
        (λ d' kept' works'. write_all-Went cfg cs d' more kept' works')

  allowed_command :
      (cfg : DriverConfig F) (d : Driver fl T) (c : String)
      → guard_safety cfg c ≡ ok tt
      → d.cfg ≡ cfg
      → Works d.t
      → Went cfg (write c d)
  allowed_command cfg d c allowed kept works =
      subst (λ x. Went x (write c d)) kept
        (write-Went c d (subst (λ x. guard_safety x c ≡ ok tt) (sym kept) allowed) works)

  -- A query that is answered is not sent again.
  send_query-answered : (d : Driver fl T) → Works d.t → (send_query "READ?" d).0 ≡ ok raw
  unfolding send_query
  send_query-answered d works = rw (answered d.t works, send_query) refl

  attempt-answered : (k : ℕ) (d : Driver fl T) → Works d.t → (attempt k "READ?" d).0 ≡ ok raw
  unfolding attempt
  attempt-answered zero d works = send_query-answered d works
  attempt-answered (suc k) d works = rw (send_query-answered d works, attempt) refl

  query-answered : (d : Driver fl T) → Works d.t → (query "READ?" d).0 ≡ ok raw
  unfolding query guard_safety is_cal_command is_rwlock_command
  query-answered d works = attempt-answered (attempts_left d "READ?") _ works

  do_read-answered : (d : Driver fl T) → Works d.t → (do_read d).0 ≡ ok raw
  unfolding do_read guard_safety is_cal_command is_rwlock_command
  do_read-answered d works =
      let Answered : Result String × Driver fl T → Type 0 = λ p. p.0 ≡ ok raw in
      let last = query {fl = fl} {T = T} "READ?" in
      let more = write {fl = fl} {T = T} "SAMPle:COUNt 1" >> last in
      after Answered (write "TRIGger:SOURce IMMediate" d) (write "TRIGger:COUNt 1" >> more) d d.cfg
        (write-Went "TRIGger:SOURce IMMediate" d refl works)
        (λ d1 kept1 works1.
          after Answered (write "TRIGger:COUNt 1" d1) more d1 d1.cfg
            (write-Went "TRIGger:COUNt 1" d1 refl works1)
            (λ d2 kept2 works2.
              after Answered (write "SAMPle:COUNt 1" d2) last d2 d2.cfg
                (write-Went "SAMPle:COUNt 1" d2 refl works2)
                (λ d3 kept3 works3. query-answered d3 works3)))

  read_or_retry-answered :
      (wait : F) (d : Driver fl T) → Works d.t → read_or_retry wait d ≡ (ok (raw, 0), (do_read d).1)
  unfolding read_or_retry
  read_or_retry-answered wait d works = rw (do_read-answered d works, read_or_retry) refl

  -- What a measurement of a function returns when its response is a list that starts with `v`.
  pub record Measured (function : MeasurementFunction) (v : F)
      (p : Result (MeasurementReading F) × Driver fl T) : Type 0 where
    pub reading : MeasurementReading F
    pub returned : p.0 ≡ ok reading
    pub raw_kept : reading.raw ≡ raw
    pub of_function : reading.function ≡ function
    pub value_read : reading.reading_value ≡ unless_overload fl (some v)
    pub not_retried : reading.retry_count ≡ 0
    pub is_remote : p.1.state ≡ connected_remote

  finish_reading-Measured :
      (function : MeasurementFunction) (v : F) (vs : List F) (d : Driver fl T)
      → parse_reading_list fl raw ≡ ok (v ∷ vs)
      → d.active_function ≡ some function
      → Measured function v (finish_reading (raw, 0) d)
  unfolding finish_reading build_reading
  finish_reading-Measured function v vs d e active = rw e (record {
    reading = build_reading (some v) raw 0 d.actions d;
    returned = refl;
    raw_kept = refl;
    of_function = ap (λ f. or_else f volt_dc) active;
    value_read = refl;
    not_retried = refl;
    is_remote = refl;
  })

  after_answer :
      (function : MeasurementFunction) (v : F) (vs : List F) (p : Result (String × ℕ) × Driver fl T)
      (x : F) (d : Driver fl T)
      → parse_reading_list fl raw ≡ ok (v ∷ vs)
      → p.0 ≡ ok (raw, 0)
      → p.1.active_function ≡ some function
      → Measured function v ((finally (λ _. p) (set_timeout x) >>= finish_reading) d)
  after_answer function v vs (r, d') x d e h active =
      rw h (finish_reading-Measured function v vs (record d' { t = T.set_timeout x d'.t }) e active)

  -- On an instrument that answers READ? with a list of numbers, `read_once` returns: with the
  -- response itself and its first number, without a retry, and the driver is remote.
  read_once-Measured :
      (function : MeasurementFunction) (v : F) (vs : List F) (d : Driver fl T)
      → parse_reading_list fl raw ≡ ok (v ∷ vs)
      → ready d ≡ ok tt
      → d.active_function ≡ some function
      → Works d.t
      → Measured function v (read_once d)
  unfolding read_once
  read_once-Measured function v vs d e h active works =
      let d' : Driver fl T = record d { t = T.set_timeout (active_timeout d) d.t; actions = [] } in
      let same =
        read_or_retry-answered (active_timeout d) d' (timeout_keeps (active_timeout d) d.t works) in
      rw h (
        after_answer function v vs (read_or_retry (active_timeout d) d') d.cfg.default_timeout_s d'
          e (ap (λ p. p.0) same)
          (ap (λ p. p.1.active_function) same
            ∙ sym (ap (λ b. b.active_function) (do_read-book d'))
            ∙ active))

  remember_and_read :
      (v : F) (vs : List F) (function : MeasurementFunction) (nplc : Option Nplc)
      (autozero : AutozeroMode) (hz : Option AcFilterHz) (d : Driver fl T)
      → parse_reading_list fl raw ≡ ok (v ∷ vs)
      → Works d.t
      → Measured function v (read_once (remember function nplc autozero hz none d))
  unfolding ready
  remember_and_read v vs function nplc autozero hz d e works =
      read_once-Measured function v vs (remember function nplc autozero hz none d) e
        (rw (opened d.t works) refl) refl works

  -- A `measure_*` of a function with a range that it takes, whose commands the guard lets through,
  -- returns on an instrument that works: `configure_*`, then `read_once`.
  pub measure-Measured :
      (function : MeasurementFunction) (range : Range F) (nplc : Option Nplc)
      (autozero : AutozeroMode) (hz : Option AcFilterHz) (conf range_token : String) (v : F)
      (vs : List F) (d : Driver fl T)
      → configure_mnemonic function ≡ some conf
      → validate_range fl function range ≡ ok range_token
      → All
          (λ c. guard_safety d.cfg c ≡ ok tt)
          (settings_commands fl function range nplc autozero hz conf range_token)
      → Works d.t
      → parse_reading_list fl raw ≡ ok (v ∷ vs)
      → Measured function v ((configure (plain function range nplc autozero hz) >> read_once) d)
  unfolding configure run_configure apply_configure
  measure-Measured function range nplc autozero hz conf range_token v vs d km vr allowed works e =
      let cs = settings_commands fl function range nplc autozero hz conf range_token in
      let last = modify {fl = fl} {T = T} (remember function nplc autozero hz none) in
      let d' : Driver fl T = record d {
        last_configure = some (plain function range nplc autozero hz);
      } in
      rw (vr, km)
        (subst (λ (m : M fl T (Unit {0})). Measured function v ((m >> read_once) d'))
          (sym (steps-all function range nplc autozero hz conf range_token last))
          (subst (λ (m : M fl T (MeasurementReading F)). Measured function v (m d'))
            (sym (then_assoc (write_all cs) last read_once))
            (after (Measured function v) (write_all cs d') (last >> read_once) d' d.cfg
              (write_all-Went d.cfg cs d' allowed refl works)
              (λ d'' kept works'. remember_and_read v vs function nplc autozero hz d'' e works'))))
