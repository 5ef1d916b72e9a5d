-- ===== src/Keywords/Device/Queue.antt =====
-- When the assertion on the error queue passes.
use hp34401a_driver.Base.{
  ℕ, Bool, true, false, not, any, Option, none, some, List, [], ◌∷◌, ◌≡◌, refl, sym, ◌∙◌, arith,
  ◌↔◌, if◌then◌else◌,
}
use hp34401a_driver.Base.Int.{pos}
use hp34401a_driver.Float.{Float}
use hp34401a_driver.Errors.{Result, ok, err}
use hp34401a_driver.Measurement.{ErrorRecord, is_no_error}
use hp34401a_driver.Transport.{Transport}
use hp34401a_driver.Converters.{int, as_int}
use hp34401a_driver.Driver.{Driver, pure, ◌>>=◌}
use hp34401a_driver.Driver.Status.{read_error, drain_error_queue}
use hp34401a_driver.Keywords.{
  Answer, done, robot, driver_state_error, raised_of, execute, Session, Library, on_driver,
}
use hp34401a_driver.Keywords.Readings.{then_answer, assert}
use hp34401a_driver.Keywords.Device.{is_real, get_dmm_error_queue, dmm_error_queue_should_be_empty}

-- `as_int` of the default count, where floats are exact at it.
abbrev Counts : Float → Type 0
Counts fl = as_int fl (int (pos 25)) ≡ some (pos 25)

refused : (x : Answer (Unit {0})) → x ≡ robot driver_state_error → x ≡ done tt → ⊥
refused x e h = ground (arith, e, h)

module _ {fl : Float} {T : Transport fl.F} where
  -- The session is open, and the first report of its device is that there is no error.
  pub record IsQuiet (lib : Library fl T) : Type 0 where
    pub session : Session fl T
    pub report : ErrorRecord
    pub is_open : lib.session ≡ some session
    pub reported : (read_error session.driver).0 ≡ ok report
    pub no_error : is_no_error report ≡ true

  -- The judgement on what `drain_error_queue` returned.
  abbrev judgement : Result (List ErrorRecord) × Driver fl T → Answer (Unit {0})
  judgement x = then_answer (execute (raised_of x.0)) (λ found. assert (not (any is_real found)))

  -- A read of the queue, behind the first report.
  abbrev behind :
      ℕ → Result ErrorRecord × Driver fl T → Driver fl T → Result (List ErrorRecord) × Driver fl T
  behind n p d =
      ((λ _. p) >>= λ rec.
      if is_no_error rec
      then pure (rec ∷ [])
      else (drain_error_queue n >>= λ rest. pure (rec ∷ rest)))
        d

  error-fails :
      (r : ErrorRecord) (q : Result (List ErrorRecord) × Driver fl T) (d : Driver fl T)
      → is_no_error r ≡ false
      → judgement (((λ _. q) >>= λ rest. pure (r ∷ rest)) d) ≡ done tt
      → ⊥
  unfolding execute
  error-fails r (ok rest, d') d e h = ground (arith, e, h)
  error-fails r (err x, d') d e h = ground (arith, h)

  second_report :
      (n : ℕ) (r : ErrorRecord) (b : Bool) (d : Driver fl T)
      → is_no_error r ≡ b
      → judgement
          ((if b then pure (r ∷ []) else (drain_error_queue n >>= λ rest. pure (r ∷ rest))) d)
        ≡ done tt
      → is_no_error r ≡ true
  second_report n r true d e h = e
  second_report n r false d e h = elim (error-fails r (drain_error_queue n d) d e h) [ ]

  first_report :
      (n : ℕ) (p : Result ErrorRecord × Driver fl T) (d : Driver fl T)
      → judgement (behind n p d) ≡ done tt
      → (r : ErrorRecord) × (p.0 ≡ ok r) × (is_no_error r ≡ true)
  unfolding execute
  first_report n (ok r, d') d h = (r, refl, second_report n r (is_no_error r) d' refl h)
  first_report n (err x, d') d h = ground (arith, h)

  quiet-passes :
      (n : ℕ) (p : Result ErrorRecord × Driver fl T) (d : Driver fl T) (r : ErrorRecord)
      → p.0 ≡ ok r
      → is_no_error r ≡ true
      → judgement (behind n p d) ≡ done tt
  unfolding execute
  quiet-passes n (x, d') d r e h = rw (e, h, h) refl

  answer :
      (lib : Library fl T) (s : Session fl T)
      → Counts fl
      → lib.session ≡ some s
      → (dmm_error_queue_should_be_empty lib).0
        ≡ judgement (behind 24 (read_error s.driver) s.driver)
  unfolding dmm_error_queue_should_be_empty get_dmm_error_queue on_driver drain_error_queue
  answer lib s counts e = rw (e, counts) refl

  closed :
      (lib : Library fl T)
      → lib.session ≡ none
      → (dmm_error_queue_should_be_empty lib).0 ≡ robot driver_state_error
  unfolding dmm_error_queue_should_be_empty get_dmm_error_queue on_driver
  closed lib e = rw e refl

  passed :
      (lib : Library fl T) (o : Option (Session fl T))
      → Counts fl
      → lib.session ≡ o
      → (dmm_error_queue_should_be_empty lib).0 ≡ done tt
      → IsQuiet lib
  passed lib none counts e h =
      elim (refused (dmm_error_queue_should_be_empty lib).0 (closed lib e) h) [ ]
  passed lib (some s) counts e h =
      let (r, reported, quiet) =
        first_report 24 (read_error s.driver) s.driver (sym (answer lib s counts e) ∙ h) in
      record { session = s; report = r; is_open = e; reported = reported; no_error = quiet }

  -- Where floats are exact at 25, the assertion that the error queue is empty passes exactly when
  -- the session is open and the first report of its device is that there is no error.
  pub dmm_error_queue_should_be_empty-IsQuiet :
      (lib : Library fl T)
      → Counts fl
      → (dmm_error_queue_should_be_empty lib).0 ≡ done tt ↔ IsQuiet lib
  dmm_error_queue_should_be_empty-IsQuiet lib counts = (
    passed lib lib.session counts refl,
    λ q.
        answer lib q.session counts q.is_open
        ∙ quiet-passes 24 (read_error q.session.driver) q.session.driver q.report q.reported
            q.no_error,
  )
