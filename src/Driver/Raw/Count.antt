-- ===== src/Driver/Raw/Count.antt =====
-- How often a query is sent. A transport is watched by one that counts its queries.
use hp34401a_driver.Base.{
  ℕ, zero, suc, ◌+◌, ◌≤◌, String, true, none, ◌≡◌, refl, sym, ◌∙◌, arith, if◌then◌else◌,
}
use hp34401a_driver.Base.Int.{pos_part}
use hp34401a_driver.Base.Text.{codes, starts_with}
use hp34401a_driver.Float.{Float}
use hp34401a_driver.Errors.{Result, ok, err, is_timeout, timeout}
use hp34401a_driver.Transport.{Transport}
use hp34401a_driver.Driver.{Driver, M, pure, ◌>>◌, traced, outbound}
use hp34401a_driver.Driver.Guard.{
  guard_safety, should_retry_timeout_query, starts_with_any, normalize_scpi_query,
  non_retryable_query_prefixes,
}
use hp34401a_driver.Driver.Raw.{
  recover_before_query_retry, retry_delay, send_query, attempt, attempts_left, query,
}
use hp34401a_driver.Driver.Raw.Recovery.{transport_recover-Respects}

-- The same transport, with the number of calls of its `query`.
abbrev pub counted : {F : Type 0} → Transport F → Transport F
counted t = record {
  S = t.S × ℕ;
  transport_type = t.transport_type;
  recover_on_connect = t.recover_on_connect;
  clear_on_connect = t.clear_on_connect;
  send_local_on_close = t.send_local_on_close;
  open_t = λ s. let (r, s') = t.open_t s.0 in (r, (s', s.1));
  close_t = λ s. let (r, s') = t.close_t s.0 in (r, (s', s.1));
  is_open = λ s. t.is_open s.0;
  write = λ c s. let (r, s') = t.write c s.0 in (r, (s', s.1));
  query = λ c s. let (r, s') = t.query c s.0 in (r, (s', suc s.1));
  read_raw = λ s. let (r, s') = t.read_raw s.0 in (r, (s', s.1));
  write_raw = λ c s. let (r, s') = t.write_raw c s.0 in (r, (s', s.1));
  clear = λ s. let (r, s') = t.clear s.0 in (r, (s', s.1));
  set_timeout = λ x s. (t.set_timeout x s.0, s.1);
  sleep = λ x s. (t.sleep x s.0, s.1);
  monotonic = λ s. t.monotonic s.0;
}

-- The two queries that start something on the instrument.
pub data Starts (c : String) : Type 0 where
  reads : starts_with (normalize_scpi_query c) (codes "READ?") ≡ true → Starts c
  tests : starts_with (normalize_scpi_query c) (codes "*TST?") ≡ true → Starts c

Starts-listed :
    (c : String)
    → Starts c
    → starts_with_any (normalize_scpi_query c) non_retryable_query_prefixes ≡ true
unfolding starts_with_any
Starts-listed c (reads h) = ground (arith, h)
Starts-listed c (tests h) = ground (arith, h)

module _ {fl : Float} (T : Transport fl.F) where
  abbrev pub sent : Driver fl (counted T) → ℕ
  sent d = d.t.1

  abbrev SameCount : Driver fl (counted T) → Driver fl (counted T) → Type 0
  SameCount d d' = sent d ≡ sent d'

  recover_before_query_retry-sent :
      (d : Driver fl (counted T)) → sent d ≡ sent (recover_before_query_retry d).1
  recover_before_query_retry-sent =
      transport_recover-Respects SameCount (λ d. refl) (λ a b c p q. p ∙ q) (λ d. refl) (λ d. refl)
        (λ c d. refl) (λ x d. refl) (λ d b. refl) (λ _. pure tt) none (λ n d. refl) tt

  retry_delay-sent : (d : Driver fl (counted T)) → sent (retry_delay d).1 ≡ sent d
  retry_delay-sent d = ground arith

  send_query-sent :
      (c : String) (d : Driver fl (counted T)) → sent (send_query c d).1 ≡ suc (sent d)
  unfolding send_query
  send_query-sent c d = ground arith

  -- Between `low` and `high` queries were sent since there were `n`.
  abbrev SentBetween : ℕ → ℕ → ℕ → Result String × Driver fl (counted T) → Type 0
  SentBetween low high n p = (n + low ≤ sent p.1) × (sent p.1 ≤ n + high)

  retry_sent :
      (n k : ℕ) (p : Result (Unit {0}) × Driver fl (counted T)) (m : M fl (counted T) String)
      (d : Driver fl (counted T))
      → sent p.1 ≡ n
      → ((d' : Driver fl (counted T)) → SentBetween 1 (suc k) (sent d') (m d'))
      → SentBetween 0 (suc k) n (((λ _. p) >> (retry_delay >> m)) d)
  retry_sent n k (ok _, d') m d h l = omega (arith, retry_delay-sent d', l (retry_delay d').1)
  retry_sent n k (err e, d') m d h l = omega arith

  after_send_sent :
      (n k : ℕ) (p : Result String × Driver fl (counted T)) (m : M fl (counted T) String)
      → sent p.1 ≡ suc n
      → ((d' : Driver fl (counted T)) → SentBetween 1 (suc k) (sent d') (m d'))
      → SentBetween 1 (suc (suc k)) n (elim p.0 [
        | ok resp ↦ (ok resp, p.1)
        | err e ↦
            if is_timeout e
            then (recover_before_query_retry >> (retry_delay >> m)) p.1
            else (err e, p.1)
      ])
  after_send_sent n k (ok r, d') m h l = omega arith
  after_send_sent n k (err timeout, d') m h l = omega (
    arith,
    retry_sent (suc n) k (recover_before_query_retry d') m d'
        (sym (recover_before_query_retry-sent d') ∙ h) l,
  )
  after_send_sent n k (err e, d') m h l = omega arith

  attempt-sent :
      (k : ℕ) (c : String) (d : Driver fl (counted T))
      → SentBetween 1 (suc k) (sent d) (attempt k c d)
  unfolding attempt
  attempt-sent zero c d = omega (arith, send_query-sent c d)
  attempt-sent (suc k) c d =
      after_send_sent (sent d) k (send_query c d) (attempt k c) (send_query-sent c d)
        (attempt-sent k c)

  attempts_left-le :
      (c : String) (d : Driver fl (counted T))
      → attempts_left d c ≤ pos_part d.cfg.max_query_retries
  attempts_left-le c d = ground arith

  -- A query that the guard lets through is sent at least once, and at most once more than the
  -- configured number of retries, whatever the transport does.
  pub query_sent_bounds :
      (c : String) (d : Driver fl (counted T))
      → guard_safety d.cfg c ≡ ok tt
      → (sent d + 1 ≤ sent (query c d).1)
        × (sent (query c d).1 ≤ sent d + 1 + pos_part d.cfg.max_query_retries)
  unfolding query
  query_sent_bounds c d h =
      let d' : Driver fl (counted T) = record d { trace = traced outbound c d.trace } in
      rw h (omega (arith, attempt-sent (attempts_left d c) c d', attempts_left-le c d))

  attempts_left_zero :
      (c : String) (d : Driver fl (counted T))
      → starts_with_any (normalize_scpi_query c) non_retryable_query_prefixes ≡ true
      → attempts_left d c ≡ 0
  unfolding should_retry_timeout_query
  attempts_left_zero c d k = ground arith

  -- A query that begins with READ? or *TST?, in any case and spacing, and that the guard lets
  -- through, is sent exactly once: a timeout never repeats it.
  pub non_retryable_sent_once :
      (c : String) (d : Driver fl (counted T))
      → guard_safety d.cfg c ≡ ok tt
      → Starts c
      → sent (query c d).1 ≡ suc (sent d)
  unfolding query attempt
  non_retryable_sent_once c d h starts =
      let k = Starts-listed c starts in
      rw h (
        rw (attempts_left_zero c d k)
          (send_query-sent c (record d { trace = traced outbound c d.trace })))
