-- ===== src/Health/Cached.antt =====
-- What `get_connection_state` reports of a session from the cache of rf_hp34401a/runtime_library.py.
use hp34401a_driver.Base.{String, Bool, false, Option, some, ◌≡◌, refl, sym, ap, ◌∙◌, arith}
use hp34401a_driver.Base.Dict.{find}
use hp34401a_driver.Errors.{ok}
use hp34401a_driver.Sessions.{normalize_alias, casefold, DmmSession, get}
use hp34401a_driver.Keywords.{Answer, done, Raised, returned, rfds, native, execute}
use hp34401a_driver.Health.{
  Drivers, Details, Manager, Library, ConnectionState, register_connected, open_dmm,
}
use hp34401a_driver.Health.State.{
  close_dmm, state_without_cache, to_connection_state, get_connection_state,
}
use hp34401a_driver.Sessions.Found.{get-found}
use hp34401a_driver.Health.Registered.{Registered, Settled, register_connected-Settled}

ok_inj : {x y : String} → ok x ≡ ok y → x ≡ y
ok_inj h = cc

module _ {F D W : Type 0} (drivers : Drivers D W) where
  open drivers use {close_driver, is_connected}

  -- What the keyword returned, if it returned.
  abbrev pub Reports : Bool → Answer (ConnectionState F) × Library F D W → Type 0
  Reports b p = (state : ConnectionState F) × (p.0 ≡ done state) × (state.communication_ok ≡ b)

  -- Without a refresh the cache decides, if it knows the session.
  get_connection_state-cached :
      (alias : Option String) (lib : Library F D W) (s : DmmSession D (Details F) W) (b : Bool)
      → get alias lib.manager ≡ ok s
      → find (casefold s.alias) lib.communication_health ≡ some b
      → get_connection_state drivers alias false lib ≡ (
        done (record (to_connection_state drivers s (is_connected s.driver lib.manager.world) lib) {
          communication_ok = b;
        }),
        lib,
      )
  unfolding get_connection_state state_without_cache
  get_connection_state-cached alias lib s b found known = ground (arith, found, known)

  returned-Registered :
      (p : Raised String × Manager F D W) (alias : String) (driver : D) (m : Manager F D W)
      (a : String)
      → Settled drivers alias driver m p
      → execute p.0 ≡ done a
      → Registered drivers alias driver m p.1
  unfolding execute
  returned-Registered (returned x, m') alias driver m a h e = h
  returned-Registered (rfds c, m') alias driver m a h e = cc
  returned-Registered (native x, m') alias driver m a h e = cc

  -- `Close DMM` leaves the cache alone: when the same alias is opened again, `Get Connection State`
  -- reports for the new session what was last found of the closed one.
  pub reopened-Reports :
      (closes : (d : D) (w : W) → is_connected d (close_driver d w).1 ≡ false)
      (alias text a : String) (driver : D) (replace : Option Bool)
      (details : Option String → Details F) (lib : Library F D W) (b : Bool)
      → normalize_alias alias ≡ ok text
      → find (casefold text) lib.communication_health ≡ some b
      → let closed = (close_dmm drivers (some alias) lib).1 in
        let opened = open_dmm drivers alias driver replace details closed in
        opened.0 ≡ done a → Reports b (get_connection_state drivers (some alias) false opened.1)
  unfolding close_dmm open_dmm
  reopened-Reports closes alias text a driver replace details lib b e known h =
      let m = (close_dmm drivers (some alias) lib).1.manager in
      let p = register_connected drivers alias driver replace details m in
      let r =
        returned-Registered p alias driver m a
          (register_connected-Settled drivers closes alias driver replace details m) h in
      let same : r.text ≡ text = ok_inj (sym r.normalized ∙ e) in
      let lib' : Library F D W = record lib { manager = p.1 } in
      let q =
        get_connection_state-cached (some alias) lib' r.session b
          (get-found alias r.text p.1 r.session r.normalized r.found)
          (ap (λ t. find (casefold t) lib.communication_health) (r.alias_kept ∙ same) ∙ known) in
      (_, ap (λ x. x.0) q, refl)
