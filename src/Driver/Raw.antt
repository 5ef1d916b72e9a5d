-- ===== src/Driver/Raw.antt =====
-- `write`, `query` with its retries, and `_transport_recover` of hp34401a_dmm/legacy_driver.py.
pub mod Recovery
pub mod Memory
pub mod States
pub mod Count
use hp34401a_driver.Base.{
  ℕ, zero, suc, String, Bool, true, false, Option, none, some, if◌then◌else◌,
}
use hp34401a_driver.Base.Int.{ℤ, pos, negsuc, pos_part}
use hp34401a_driver.Float.{Float}
use hp34401a_driver.Enums.{CommandState, has_unread_output, connected_remote, error_recovery}
use hp34401a_driver.Errors.{Error, Result, ok, err, is_hp_error, is_timeout}
use hp34401a_driver.Config.{zero_f}
use hp34401a_driver.Transport.{Transport}
use hp34401a_driver.Driver.{
  Driver, M, outbound, inbound, pure, raise, lift, modify, ◌>>=◌, ◌>>◌, when, suppress_hp, finally,
  on_transport, set_state, set_timeout, call_trace, append_action, is_serial,
}
use hp34401a_driver.Driver.Guard.{guard_safety, should_retry_timeout_query}

module _ {fl : Float} {T : Transport fl.F} where
  open fl use {F, lt, lit}

  -- The two handlers of `write`: both record the error state and raise again.
  abbrev pub after_write : Result (Unit {0}) → M fl T (Unit {0})
  after_write (ok _) d = (ok tt, d)
  after_write (err e) d = (err e, if is_hp_error e then record d { state = error_recovery } else d)

  unfoldable pub write : String → M fl T (Unit {0})
  write command d =
      (do
        lift (guard_safety d.cfg command)
        call_trace outbound command
        λ d'. let (r, s) = T.write command d'.t in after_write r (record d' { t = s }))
        d

  -- `_transport_recover`. `log` appends to the caller's list of actions; `drain` is the call of
  -- `drain_error_queue`, or nothing with `drain_errors=False`.
  flush_stale : (String → M fl T (Unit {0})) → M fl T (Unit {0})
  flush_stale log d =
      finally (suppress_hp (do on_transport T.read_raw; log "flush_stale_output"))
        (set_timeout d.cfg.default_timeout_s) d

  reassert_remote : (String → M fl T (Unit {0})) → M fl T (Unit {0})
  reassert_remote log =
      when (is_serial fl T)
        (suppress_hp (do on_transport (T.write "SYSTem:REMote"); log "reassert_remote"))

  drain_if : (String → M fl T (Unit {0})) → Option (M fl T (Unit {0})) → M fl T (Unit {0})
  drain_if log none = pure tt
  drain_if log (some drain) = suppress_hp (do drain; log "drain_error_queue")

  unfoldable pub transport_recover :
      (String → M fl T (Unit {0})) → Option (M fl T (Unit {0})) → M fl T (Unit {0})
  unfolding flush_stale reassert_remote drain_if
  transport_recover log drain = do
    modify (λ d. record d { in_recovery = true })
    finally
        (do
          on_transport T.clear
          log "transport_clear"
          set_timeout (lit (pos 2) (negsuc 0))
          flush_stale log
          reassert_remote log
          drain_if log drain)
        (modify (λ d. record d { in_recovery = false }))

  -- `_recover_before_query_retry`
  abbrev pub recover_before_query_retry : M fl T (Unit {0})
  recover_before_query_retry = transport_recover (λ name. pure tt) none

  -- `if self._cfg.query_retry_delay_s > 0: time.sleep(…)`
  abbrev pub retry_delay : M fl T (Unit {0})
  retry_delay d = (
    ok tt,
    if lt (zero_f fl) d.cfg.query_retry_delay_s
        then record d { t = T.sleep d.cfg.query_retry_delay_s d.t }
        else d,
  )

  -- One round of the loop of `query`, with its handlers up to the retry.
  unfoldable pub send_query : String → M fl T String
  send_query command d =
      let (r, s) = T.query command d.t in
      elim r [
        | ok resp ↦
            (do call_trace inbound resp; pure resp) (record d { t = s; state = connected_remote })
        | err e ↦ (
          err e,
          record d { t = s; state = if is_hp_error e then error_recovery else has_unread_output },
        )
      ]

  -- The loop, with the number of retries left.
  unfoldable pub attempt : ℕ → String → M fl T String
  attempt zero command d = send_query command d
  attempt (suc k) command d =
      let (r, d') = send_query command d in
      elim r [
        | ok resp ↦ (ok resp, d')
        | err e ↦
            let again = (do recover_before_query_retry; retry_delay; attempt k command) d' in
            if is_timeout e then again else (err e, d')
      ]

  -- `max_query_retries` if the policy allows a retry, else 0
  abbrev pub attempts_left : Driver fl T → String → ℕ
  attempts_left d command =
      if should_retry_timeout_query d.cfg d.in_recovery command
      then pos_part d.cfg.max_query_retries
      else 0

  unfoldable pub query : String → M fl T String
  query command d =
      (do
        lift (guard_safety d.cfg command)
        call_trace outbound command
        attempt (attempts_left d command) command)
        d
