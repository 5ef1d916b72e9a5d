-- ===== src/Driver/Connect.antt =====
-- `connect` and `close` of hp34401a_dmm/legacy_driver.py.
pub mod Outcome
use hp34401a_driver.Base.{String, Bool, true, false, not, Option, none, some, if◌then◌else◌}
use hp34401a_driver.Float.{Float}
use hp34401a_driver.Enums.{closed, connected_remote}
use hp34401a_driver.Errors.{Result, ok, err, connection, is_hp_error}
use hp34401a_driver.Measurement.{Identity}
use hp34401a_driver.Parser.{looks_like_34401a, parse_identity}
use hp34401a_driver.Transport.{Transport}
use hp34401a_driver.Driver.{
  Driver, M, pure, lift, modify, ◌>>=◌, ◌>>◌, when, suppress_hp, on_transport, set_state,
  set_timeout, is_serial,
}
use hp34401a_driver.Driver.Raw.{query}
use hp34401a_driver.Driver.Status.{
  identity_of, identify, drain_all, clear_status, reset, is_connected,
}

module _ {fl : Float} {T : Transport fl.F} where
  -- `_validate_identity`
  abbrev validate_identity : Identity → M fl T (Unit {0})
  validate_identity ident = lift (if looks_like_34401a ident.raw then ok tt else err connection)

  -- `_connect_serial`
  connect_serial : M fl T (Unit {0})
  connect_serial = do
    when T.recover_on_connect (do on_transport (T.write_raw "\u{3}"); on_transport T.clear)
    on_transport (T.write "SYSTem:REMote")
    set_state connected_remote
    raw ← query "*IDN?"
    lift (if looks_like_34401a raw then ok tt else err connection)
    parts ← lift (parse_identity raw)
    modify (λ d. record d { identity = some (identity_of raw parts) })

  -- `_connect_visa`
  connect_visa : M fl T (Unit {0})
  connect_visa = do when T.clear_on_connect (on_transport T.clear); set_state connected_remote

  -- `try: self._scpi_version = self.query(…)` with `except Hp34401AError: … = None`
  read_version : M fl T (Unit {0})
  read_version d =
      let (r, d') = query "SYSTem:VERSion?" d in
      elim r [
        | ok text ↦ (ok tt, record d' { scpi_version = some text })
        | err e ↦ if is_hp_error e then (ok tt, record d' { scpi_version = none }) else (err e, d')
      ]

  verify_identity : M fl T (Unit {0})
  verify_identity = do
    ident ← identify
    modify (λ d. record d { identity = some ident })
    validate_identity ident
    read_version

  -- The body of the `try` of `connect`.
  connect_steps : M fl T (Unit {0})
  connect_steps d =
      (do
        on_transport T.open_t
        set_timeout d.cfg.default_timeout_s
        if is_serial fl T then connect_serial else connect_visa
        when d.cfg.verify_identity_on_connect verify_identity
        when d.cfg.drain_error_queue_on_connect drain_all
        when d.cfg.clear_status_on_connect clear_status
        when d.cfg.reset_on_connect (reset true)
        set_state connected_remote)
        d

  -- The handler: an exception of the transport's `close` takes the place of the first.
  abbrev close_after_failure : Driver fl T → Result (Unit {0}) → Result (Unit {0}) × Driver fl T
  close_after_failure d failure =
      let (r, s) = T.close_t d.t in
      elim r [
        | ok _ ↦ (failure, record d { t = s; state = closed })
        | err e ↦ (err e, record d { t = s; state = closed })
      ]

  pub connect : M fl T (Unit {0})
  unfolding connect_steps connect_serial connect_visa verify_identity read_version
  connect d =
      let (r, d') = connect_steps d in
      elim r [ ok _ ↦ (ok tt, d') | err e ↦ close_after_failure d' (err e) ]

  -- The `try` of `close`.
  abbrev pub send_local : M fl T (Unit {0})
  send_local =
      when (is_serial fl T)
        (when T.send_local_on_close (suppress_hp (on_transport (T.write "SYSTem:LOCal"))))

  -- Its `finally`: the state is set only if the transport's `close` did not raise.
  abbrev pub close_finally : Driver fl T → Result (Unit {0}) → Result (Unit {0}) × Driver fl T
  close_finally d outcome =
      let (r, s) = T.close_t d.t in
      elim r [
        | ok _ ↦ (outcome, record d { t = s; state = closed })
        | err e ↦ (err e, record d { t = s })
      ]

  unfoldable pub close : M fl T (Unit {0})
  close d = let (r, d') = send_local d in close_finally d' r
