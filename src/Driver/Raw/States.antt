-- ===== src/Driver/Raw/States.antt =====
-- The state in which `write` and `query` end, by how they ended.
use hp34401a_driver.Base.{ℕ, zero, suc, String, none, ◌≡◌, refl, sym, ◌∙◌, arith, if◌then◌else◌}
use hp34401a_driver.Float.{Float}
use hp34401a_driver.Enums.{connected_remote, error_recovery}
use hp34401a_driver.Errors.{Error, Result, ok, err, is_hp_error, is_timeout, timeout}
use hp34401a_driver.Transport.{Transport}
use hp34401a_driver.Driver.{Driver, M, pure, ◌>>◌, traced, outbound}
use hp34401a_driver.Driver.Guard.{guard_safety}
use hp34401a_driver.Driver.Raw.{
  write, recover_before_query_retry, retry_delay, send_query, attempt, attempts_left, query,
}
use hp34401a_driver.Driver.Raw.Recovery.{transport_recover-Respects}

module _ {fl : Float} {T : Transport fl.F} where
  abbrev SameState : Driver fl T → Driver fl T → Type 0
  SameState d d' = d.state ≡ d'.state

  recover_before_query_retry-state :
      (d : Driver fl T) → d.state ≡ (recover_before_query_retry d).1.state
  recover_before_query_retry-state =
      transport_recover-Respects SameState (λ d. refl) (λ a b c p q. p ∙ q) (λ d. refl) (λ d. refl)
        (λ c d. refl) (λ x d. refl) (λ d b. refl) (λ _. pure tt) none (λ n d. refl) tt

  -- How a call of `query` ends: an answer leaves the driver remote; an exception of its own kind
  -- leaves it in error recovery.
  abbrev pub Ends : Result String × Driver fl T → Type 0
  Ends (ok r, d) = d.state ≡ connected_remote
  Ends (err e, d) = d.state ≡ (if is_hp_error e then error_recovery else d.state)

  send_query-Ends : (c : String) (d : Driver fl T) → Ends (send_query c d)
  unfolding send_query
  send_query-Ends c d = ground arith

  retry_after :
      (p : Result (Unit {0}) × Driver fl T) (m : M fl T String) (d : Driver fl T)
      → p.1.state ≡ error_recovery
      → ((d' : Driver fl T) → Ends (m d'))
      → Ends (((λ _. p) >> (retry_delay >> m)) d)
  retry_after (ok _, d') m d h k = k (retry_delay d').1
  retry_after (err e, d') m d h k = ground arith

  after_send :
      (p : Result String × Driver fl T) (m : M fl T String) (d : Driver fl T)
      → Ends p
      → ((d' : Driver fl T) → Ends (m d'))
      → Ends (elim p.0 [
        | ok resp ↦ (ok resp, p.1)
        | err e ↦
            if is_timeout e
            then (recover_before_query_retry >> (retry_delay >> m)) p.1
            else (err e, p.1)
      ])
  after_send (ok r, d') m d h k = h
  after_send (err timeout, d') m d h k =
      retry_after (recover_before_query_retry d') m d'
        (sym (recover_before_query_retry-state d') ∙ h) k
  after_send (err e, d') m d h k = ground arith

  attempt-Ends : (k : ℕ) (c : String) (d : Driver fl T) → Ends (attempt k c d)
  unfolding attempt
  attempt-Ends zero c d = send_query-Ends c d
  attempt-Ends (suc k) c d =
      after_send (send_query c d) (attempt k c) d (send_query-Ends c d) (attempt-Ends k c)

  -- A query that the guard lets through ends in the state that its result says, through every
  -- retry: remote with an answer, in error recovery with an exception of the driver.
  pub query-Ends : (c : String) (d : Driver fl T) → guard_safety d.cfg c ≡ ok tt → Ends (query c d)
  unfolding query
  query-Ends c d h =
      rw h (attempt-Ends (attempts_left d c) c (record d { trace = traced outbound c d.trace }))

  -- A command that the guard refuses never reaches the transport, nor the trace: `write` and
  -- `query` raise and change nothing at all.
  refused_unchanged :
      (c : String) (d : Driver fl T) (e : Error)
      → guard_safety d.cfg c ≡ err e
      → (write c d ≡ (err e, d)) × (query c d ≡ (err e, d))
  unfolding write query
  refused_unchanged c d e h = (rw h refl, rw h refl)
