-- ===== src/Driver/Status/Queue.antt =====
-- The error queue: what `drain_error_queue` returns, and what reading it leaves alone.
use hp34401a_driver.Base.{
  ℕ, zero, suc, ◌<◌, Bool, true, false, List, [], ◌∷◌, ◌++◌, All, length, ◌≡◌, refl, ap, ◌⊎◌, inl,
  inr, arith, if◌then◌else◌, Bool-cases,
}
use mathlib.Core.Path.{subst}
use hp34401a_driver.Float.{Float}
use hp34401a_driver.Errors.{Result, ok, err}
use hp34401a_driver.Measurement.{ErrorRecord, is_no_error}
use hp34401a_driver.Transport.{Transport}
use hp34401a_driver.Driver.{Driver, pure, ◌>>=◌}
use hp34401a_driver.Driver.Frame.{KeepsBook, KeepsBook-bind, KeepsBook-then}
use hp34401a_driver.Driver.Raw.Memory.{query-book}
use hp34401a_driver.Driver.Status.{read_error, drain_error_queue, drain_all, max_errors}

-- Errors, and then the record that says that there are no more, unless `n` records came first.
pub record Drained (n : ℕ) (recs : List ErrorRecord) : Type 0 where
  pub errors : List ErrorRecord
  pub all_errors : All (λ r. is_no_error r ≡ false) errors
  pub ending :
      ((recs ≡ errors) × (length errors ≡ n))
      ⊎ ((r : ErrorRecord) × (recs ≡ errors ++ r ∷ [])
          × (is_no_error r ≡ true)
          × (length errors < n))

Drained-cons :
    (n : ℕ) (r : ErrorRecord) (recs : List ErrorRecord)
    → is_no_error r ≡ false
    → Drained n recs
    → Drained (suc n) (r ∷ recs)
Drained-cons n r recs h p = record {
  errors = r ∷ p.errors;
  all_errors = (h, p.all_errors);
  ending = elim p.ending [
    | inl (e, l) ↦ inl (ap (λ xs. r ∷ xs) e, ap suc l)
    | inr (q, e, k, l) ↦ inr (q, ap (λ xs. r ∷ xs) e, k, omega arith)
  ];
}

module _ {fl : Float} {T : Transport fl.F} where
  read_error-book : KeepsBook (read_error {fl = fl} {T = T})
  unfolding read_error
  read_error-book d = ground (arith, query-book "SYSTem:ERRor?" d)

  abbrev DrainedBy : ℕ → Result (List ErrorRecord) × Driver fl T → Type 0
  DrainedBy n (ok recs, d) = Drained n recs
  DrainedBy n (err e, d) = Unit

  then_cons :
      (n : ℕ) (r : ErrorRecord) (p : Result (List ErrorRecord) × Driver fl T) (d : Driver fl T)
      → is_no_error r ≡ false
      → DrainedBy n p
      → DrainedBy (suc n) (((λ _. p) >>= λ rest. pure (r ∷ rest)) d)
  then_cons n r (ok rest, d') d h k = Drained-cons n r rest h k
  then_cons n r (err e, d') d h k = tt

  after_read :
      (n : ℕ) (p : Result ErrorRecord × Driver fl T) (d : Driver fl T)
      → ((d' : Driver fl T) → DrainedBy n (drain_error_queue n d'))
      → DrainedBy (suc n) (
          ((λ _. p) >>= λ rec.
          if is_no_error rec
          then pure (rec ∷ [])
          else (drain_error_queue n >>= λ rest. pure (rec ∷ rest)))
            d)
  after_read n (ok r, d') d ih = elim (Bool-cases (is_no_error r)) [
    | inl last ↦
        rw last (record { errors = []; all_errors = tt; ending = inr (r, refl, last, omega arith) })
    | inr more ↦ rw more (then_cons n r (drain_error_queue n d') d' more (ih d'))
  ]
  after_read n (err e, d') d ih = tt

  drain-DrainedBy : (n : ℕ) (d : Driver fl T) → DrainedBy n (drain_error_queue n d)
  unfolding drain_error_queue
  drain-DrainedBy zero d = record { errors = []; all_errors = tt; ending = inl (refl, refl) }
  drain-DrainedBy (suc n) d = after_read n (read_error d) d (drain-DrainedBy n)

  -- When `drain_error_queue` returns, it returns errors only, closed by the first "no error"
  -- record, or cut off at the `n` records that it may read.
  pub drain_error_queue-Drained :
      (n : ℕ) (d : Driver fl T) (recs : List ErrorRecord)
      → (drain_error_queue n d).0 ≡ ok recs
      → Drained n recs
  drain_error_queue-Drained n d recs h =
      subst (λ r. DrainedBy n (r, (drain_error_queue n d).1)) h (drain-DrainedBy n d)

  rest-book :
      (n : ℕ) (rec : ErrorRecord) (b : Bool)
      → KeepsBook (drain_error_queue {fl = fl} {T = T} n)
      → KeepsBook {fl = fl} {T = T}
          (if b then pure (rec ∷ []) else (drain_error_queue n >>= λ rest. pure (rec ∷ rest)))
  rest-book n rec true h d = refl
  rest-book n rec false h d =
      KeepsBook-bind (drain_error_queue n) (λ rest. pure (rec ∷ rest)) h (λ rest d. refl) d

  drain_error_queue-book : (n : ℕ) → KeepsBook (drain_error_queue {fl = fl} {T = T} n)
  unfolding drain_error_queue
  drain_error_queue-book zero d = refl
  drain_error_queue-book (suc n) d =
      KeepsBook-bind read_error
        (λ rec.
          if is_no_error rec
          then pure (rec ∷ [])
          else (drain_error_queue n >>= λ rest. pure (rec ∷ rest)))
        read_error-book (λ rec. rest-book n rec (is_no_error rec) (drain_error_queue-book n)) d

  pub drain_all-book : KeepsBook (drain_all {fl = fl} {T = T})
  drain_all-book =
      KeepsBook-then (drain_error_queue max_errors) (pure tt) (drain_error_queue-book max_errors)
        (λ d. refl)
