-- ===== src/Driver/Connect/Outcome.antt =====
-- How `connect` ends: remote, or closed with the transport closed too.
use hp34401a_driver.Base.{true, false, ◌≡◌, refl, arith, if◌then◌else◌}
use hp34401a_driver.Float.{Float}
use hp34401a_driver.Enums.{closed, connected_remote}
use hp34401a_driver.Errors.{Error, Result, ok, err}
use hp34401a_driver.Transport.{Transport, Laws}
use hp34401a_driver.Driver.{
  Driver, M, ◌>>=◌, ◌>>◌, when, on_transport, set_state, set_timeout, is_serial,
}
use hp34401a_driver.Driver.Status.{is_connected, drain_all, clear_status, reset}
use hp34401a_driver.Driver.Connect.{
  connect_serial, connect_visa, verify_identity, connect_steps, close_after_failure, connect,
}

module _ {fl : Float} {T : Transport fl.F} where
  abbrev RemoteIfOk : Result (Unit {0}) × Driver fl T → Type 0
  RemoteIfOk (ok _, d) = d.state ≡ connected_remote
  RemoteIfOk (err e, d) = Unit

  -- Whatever came before, a method that sets the state last leaves that state when it returns.
  RemoteIfOk-then :
      {A : Type 0} (p : Result A × Driver fl T) (f : A → M fl T (Unit {0})) (d : Driver fl T)
      → ((a : A) (d' : Driver fl T) → RemoteIfOk (f a d'))
      → RemoteIfOk (((λ _. p) >>= f) d)
  RemoteIfOk-then (ok a, d') f d h = h a d'
  RemoteIfOk-then (err e, d') f d h = tt

  connect_steps-RemoteIfOk : (d : Driver fl T) → RemoteIfOk (connect_steps d)
  unfolding connect_steps
  connect_steps-RemoteIfOk d =
      let c = d.cfg in
      let last : M fl T (Unit {0}) = set_state connected_remote in
      let e6 : M fl T (Unit {0}) = when c.reset_on_connect (reset true) >> last in
      let e5 : M fl T (Unit {0}) = when c.clear_status_on_connect clear_status >> e6 in
      let e4 : M fl T (Unit {0}) = when c.drain_error_queue_on_connect drain_all >> e5 in
      let e3 : M fl T (Unit {0}) = when c.verify_identity_on_connect verify_identity >> e4 in
      let e2 : M fl T (Unit {0}) =
        (if is_serial fl T then connect_serial else connect_visa) >> e3 in
      let e1 : M fl T (Unit {0}) = set_timeout c.default_timeout_s >> e2 in
      RemoteIfOk-then (on_transport T.open_t d) (λ _. e1) d
        (λ _ d.
          RemoteIfOk-then
            ((if is_serial fl T then connect_serial else connect_visa)
              (set_timeout c.default_timeout_s d).1)
            (λ _. e3) d
            (λ _ d.
              RemoteIfOk-then (when c.verify_identity_on_connect verify_identity d) (λ _. e4) d
                (λ _ d.
                  RemoteIfOk-then (when c.drain_error_queue_on_connect drain_all d) (λ _. e5) d
                    (λ _ d.
                      RemoteIfOk-then (when c.clear_status_on_connect clear_status d) (λ _. e6) d
                        (λ _ d.
                          RemoteIfOk-then (when c.reset_on_connect (reset true) d) (λ _. last) d
                            (λ _ d. refl))))))

  -- How `connect` ends.
  abbrev pub Settled : Result (Unit {0}) × Driver fl T → Type 0
  Settled (ok _, d) = d.state ≡ connected_remote
  Settled (err e, d) = (d.state ≡ closed) × (is_connected d ≡ false)

  after_failure :
      (L : Laws T) (p : Result (Unit {0}) × T.S) (d : Driver fl T) (e : Error)
      → T.is_open p.1 ≡ false
      → Settled (elim p.0 [
        | ok _ ↦ (err e, record d { t = p.1; state = closed })
        | err e' ↦ (err e', record d { t = p.1; state = closed })
      ])
  after_failure L (ok _, s) d e h = (refl, ground (arith, h))
  after_failure L (err e', s) d e h = (refl, ground (arith, h))

  after_steps :
      (L : Laws T) (p : Result (Unit {0}) × Driver fl T)
      → RemoteIfOk p
      → Settled (elim p.0 [ ok _ ↦ (ok tt, p.1) | err e ↦ close_after_failure p.1 (err e) ])
  after_steps L (ok _, d) h = h
  after_steps L (err e, d) h = after_failure L (T.close_t d.t) d e (L.closed d.t)

  -- On a transport that is closed after `close`, `connect` ends in one of two ways, whatever step
  -- failed: it returns with the driver remote, or it raises with the driver closed and
  -- `is_connected` false.
  pub connect-Settled : (L : Laws T) (d : Driver fl T) → Settled (connect d)
  unfolding connect
  connect-Settled L d = after_steps L (connect_steps d) (connect_steps-RemoteIfOk d)
