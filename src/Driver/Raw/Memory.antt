-- ===== src/Driver/Raw/Memory.antt =====
-- What `write` and `query` leave alone: all that the driver remembers about its set-up.
use hp34401a_driver.Base.{ℕ, zero, suc, String, none, some, refl, arith}
use hp34401a_driver.Float.{Float}
use hp34401a_driver.Transport.{Transport}
use hp34401a_driver.Driver.{M, pure, lift, ◌>>◌, call_trace, append_action, outbound}
use hp34401a_driver.Driver.Guard.{guard_safety}
use hp34401a_driver.Driver.Frame.{
  SameBook, SameBook-refl, SameBook-trans, KeepsBook, KeepsBook-then,
}
use hp34401a_driver.Driver.Raw.{
  write, transport_recover, recover_before_query_retry, retry_delay, send_query, attempt,
  attempts_left, query,
}
use hp34401a_driver.Driver.Raw.Recovery.{transport_recover-Respects}

module _ {fl : Float} {T : Transport fl.F} where
  pub write-book : (c : String) → KeepsBook (write {fl = fl} {T = T} c)
  unfolding write
  write-book c d = ground arith

  send_query-book : (c : String) → KeepsBook (send_query {fl = fl} {T = T} c)
  unfolding send_query
  send_query-book c d = ground arith

  recover_before_query_retry-book : KeepsBook (recover_before_query_retry {fl = fl} {T = T})
  recover_before_query_retry-book =
      transport_recover-Respects SameBook SameBook-refl SameBook-trans (λ d. refl) (λ d. refl)
        (λ c d. refl) (λ x d. refl) (λ d b. refl) (λ _. pure tt) none (λ n d. refl) tt

  -- The recovery of `read_once` and `recover`, which drains the error queue by `m`.
  pub transport_recover-book :
      (m : M fl T (Unit {0})) → KeepsBook m → KeepsBook (transport_recover append_action (some m))
  transport_recover-book m h =
      transport_recover-Respects SameBook SameBook-refl SameBook-trans (λ d. refl) (λ d. refl)
        (λ c d. refl) (λ x d. refl) (λ d b. refl) append_action (some m) (λ n d. refl) h

  retry_delay-book : KeepsBook (retry_delay {fl = fl} {T = T})
  retry_delay-book d = ground arith

  attempt-book : (k : ℕ) (c : String) → KeepsBook (attempt {fl = fl} {T = T} k c)
  unfolding attempt
  attempt-book zero c d = send_query-book c d
  attempt-book (suc k) c d = ground (
    arith,
    send_query-book c d,
    KeepsBook-then recover_before_query_retry (retry_delay >> attempt k c)
        recover_before_query_retry-book
        (KeepsBook-then retry_delay (attempt k c) retry_delay-book (attempt-book k c))
        (send_query c d).1,
  )

  -- A query, with all its retries and recoveries, changes nothing of what the driver remembers.
  pub query-book : (c : String) → KeepsBook (query {fl = fl} {T = T} c)
  unfolding query
  query-book c d =
      let loop = attempt {fl = fl} {T = T} (attempts_left d c) c in
      KeepsBook-then (lift (guard_safety d.cfg c)) (call_trace outbound c >> loop) (λ _. refl)
        (KeepsBook-then (call_trace outbound c) loop (λ _. refl)
          (attempt-book (attempts_left d c) c))
        d
