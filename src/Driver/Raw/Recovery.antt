-- ===== src/Driver/Raw/Recovery.antt =====
-- `_transport_recover` under any preorder of states that allows a step of the transport and of the
-- recovery flag.
use hp34401a_driver.Base.{String, Bool, true, false, Option, none, some}
use hp34401a_driver.Base.Int.{pos, negsuc}
use hp34401a_driver.Float.{Float}
use hp34401a_driver.Transport.{Transport}
use hp34401a_driver.Driver.{
  Driver, M, modify, ◌>>◌, on_transport, suppress_hp, set_timeout, is_serial, finally,
}
use hp34401a_driver.Driver.Frame.{
  Respects, Respects-then, Respects-suppress_hp, Respects-finally, Respects-when,
}
use hp34401a_driver.Driver.Raw.{flush_stale, reassert_remote, drain_if, transport_recover}

module _ {fl : Float} {T : Transport fl.F} (R : Driver fl T → Driver fl T → Type 0)
    (R-refl : (d : Driver fl T) → R d d) (R-trans : (a b c : Driver fl T) → R a b → R b c → R a c)
    (R-clear : Respects R (on_transport {fl = fl} {T = T} T.clear))
    (R-read_raw : Respects R (on_transport {fl = fl} {T = T} T.read_raw))
    (R-write : (c : String) → Respects R (on_transport {fl = fl} {T = T} (T.write c)))
    (R-set_timeout : (x : fl.F) → Respects R (set_timeout {fl = fl} {T = T} x))
    (R-flag : (d : Driver fl T) (b : Bool) → R d (record d { in_recovery = b })) where
  abbrev Keeps : {A : Type 0} → M fl T A → Type 0
  Keeps m = Respects R m

  then_rule : {A B : Type 0} (m : M fl T A) (k : M fl T B) → Keeps m → Keeps k → Keeps (m >> k)
  then_rule = Respects-then R R-refl R-trans

  suppress_rule : (m : M fl T (Unit {0})) → Keeps m → Keeps (suppress_hp m)
  suppress_rule = Respects-suppress_hp R R-refl R-trans

  -- A caller's list of actions changes nothing that `R` sees.
  abbrev LogKeeps : (String → M fl T (Unit {0})) → Type 0
  LogKeeps log = (n : String) → Keeps (log n)

  -- Nor does what a caller passes as `drain`.
  abbrev DrainKeeps : Option (M fl T (Unit {0})) → Type 0
  DrainKeeps none = Unit
  DrainKeeps (some m) = Keeps m

  flush_stale-Respects : (log : String → M fl T (Unit {0})) → LogKeeps log → Keeps (flush_stale log)
  unfolding flush_stale
  flush_stale-Respects log h d =
      Respects-finally R R-refl R-trans
        (suppress_hp (on_transport T.read_raw >> log "flush_stale_output"))
        (set_timeout d.cfg.default_timeout_s)
        (suppress_rule (on_transport T.read_raw >> log "flush_stale_output") (
          then_rule (on_transport T.read_raw) (log "flush_stale_output") R-read_raw
            (h "flush_stale_output")))
        (R-set_timeout d.cfg.default_timeout_s) d

  reassert_remote-Respects :
      (log : String → M fl T (Unit {0})) → LogKeeps log → Keeps (reassert_remote log)
  unfolding reassert_remote
  reassert_remote-Respects log h =
      let send = on_transport {fl = fl} {T = T} (T.write "SYSTem:REMote") in
      Respects-when R R-refl R-trans (is_serial fl T) (suppress_hp (send >> log "reassert_remote"))
        (suppress_rule (send >> log "reassert_remote")
          (then_rule send (log "reassert_remote") (R-write "SYSTem:REMote") (h "reassert_remote")))

  drain_if-Respects :
      (log : String → M fl T (Unit {0})) (drain : Option (M fl T (Unit {0})))
      → LogKeeps log
      → DrainKeeps drain
      → Keeps (drain_if log drain)
  unfolding drain_if
  drain_if-Respects log none h k = R-refl
  drain_if-Respects log (some m) h k =
      suppress_rule (m >> log "drain_error_queue")
        (then_rule m (log "drain_error_queue") k (h "drain_error_queue"))

  pub transport_recover-Respects :
      (log : String → M fl T (Unit {0})) (drain : Option (M fl T (Unit {0})))
      → LogKeeps log
      → DrainKeeps drain
      → Keeps (transport_recover log drain)
  unfolding transport_recover
  transport_recover-Respects log drain h k =
      let start = modify {fl = fl} {T = T} (λ d. record d { in_recovery = true }) in
      let stop = modify {fl = fl} {T = T} (λ d. record d { in_recovery = false }) in
      let short = set_timeout {fl = fl} {T = T} (fl.lit (pos 2) (negsuc 0)) in
      let tail = reassert_remote log >> drain_if log drain in
      let body =
        on_transport {fl = fl} {T = T} T.clear
        >> (log "transport_clear" >> (short >> (flush_stale log >> tail))) in
      then_rule start (finally body stop) (λ d. R-flag d true)
        (Respects-finally R R-refl R-trans body stop
          (then_rule (on_transport T.clear)
            (log "transport_clear" >> (short >> (flush_stale log >> tail))) R-clear
            (then_rule (log "transport_clear") (short >> (flush_stale log >> tail))
              (h "transport_clear")
              (then_rule short (flush_stale log >> tail) (R-set_timeout (fl.lit (pos 2) (negsuc 0)))
                (then_rule (flush_stale log) tail (flush_stale-Respects log h) (
                  then_rule (reassert_remote log) (drain_if log drain)
                    (reassert_remote-Respects log h) (drain_if-Respects log drain h k))))))
          (λ d. R-flag d false))
