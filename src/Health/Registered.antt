-- ===== src/Health/Registered.antt =====
-- What `_register_connected` leaves: the new driver in the registry, or closed.
use mathlib.Core.Path.{subst}
use hp34401a_driver.Base.{
  ◌+◌, String, Bool, true, false, Option, none, some, ◌≡◌, refl, ◌⊎◌, inl, inr, ap, or_else, sym,
}
use hp34401a_driver.Base.Dict.{find, find-put}
use hp34401a_driver.Errors.{Result, ok, err}
use hp34401a_driver.Sessions.{
  normalize_alias, casefold, DmmSession, store, store_after, add_found, add_as, add,
}
use hp34401a_driver.Keywords.{Raised, returned, rfds, native}
use hp34401a_driver.Health.{
  Drivers, Details, Manager, abandoned, connect_and_add, register_connected,
}

module _ {F D W : Type 0} (drivers : Drivers D W) where
  open drivers use {connect_driver, close_driver, is_connected}

  -- The registry but for the world.
  abbrev SameRegistry : Manager F D W → Manager F D W → Type 0
  SameRegistry m m' = m' ≡ record m { world = m'.world }

  -- The driver is the active session, with the next generation of its alias.
  pub record Registered (alias : String) (driver : D) (m : Manager F D W) (m' : Manager F D W)
      : Type 0 where
    pub text : String
    pub session : DmmSession D (Details F) W
    pub normalized : normalize_alias alias ≡ ok text
    pub found : find (casefold text) m'.sessions ≡ some session
    pub alias_kept : session.alias ≡ text
    pub driver_kept : session.driver ≡ driver
    pub is_active : m'.active_key ≡ some (casefold text)
    pub next_generation : session.generation ≡ or_else (find (casefold text) m.generations) 0 + 1

  -- Nothing but the world has changed, and that not at all, or the driver is closed.
  abbrev Abandoned : D → Manager F D W → Manager F D W → Type 0
  Abandoned driver m m' = SameRegistry m m' × ((m' ≡ m) ⊎ (is_connected driver m'.world ≡ false))

  abbrev pub Settled : String → D → Manager F D W → Raised String × Manager F D W → Type 0
  Settled alias driver m (returned _, m') = Registered alias driver m m'
  Settled alias driver m (rfds c, m') = Abandoned driver m m'
  Settled alias driver m (native e, m') = Abandoned driver m m'

  -- What `add` leaves.
  abbrev Added :
      String → D → Manager F D W → Result (DmmSession D (Details F) W) × Manager F D W → Type 0
  Added text driver m (ok s, m') =
      (find (casefold text) m'.sessions ≡ some s)
      × (s.alias ≡ text)
      × (s.driver ≡ driver)
      × (m'.active_key ≡ some (casefold text))
      × (s.generation ≡ or_else (find (casefold text) m.generations) 0 + 1)
  Added text driver m (err e, m') = SameRegistry m m'

  store-Added :
      (text : String) (driver : D) (details : Details F) (m : Manager F D W)
      → Added text driver m (store text driver details m)
  unfolding store
  store-Added text driver details m =
      (find-put (casefold text) _ m.sessions, refl, refl, refl, refl)

  store_after-Added :
      (p : Result (Unit {0}) × W) (text : String) (driver : D) (details : Details F)
      (m : Manager F D W)
      → Added text driver m (store_after p text driver details m)
  store_after-Added (ok _, w) text driver details m =
      store-Added text driver details (record m { world = w })
  store_after-Added (err e, w) text driver details m = refl

  add_found-Added :
      (o : Option (DmmSession D (Details F) W)) (text : String) (driver : D) (b : Bool)
      (details : Details F) (m : Manager F D W)
      → Added text driver m (add_found close_driver o text driver b details m)
  add_found-Added none text driver b details m = store-Added text driver details m
  add_found-Added (some old) text driver true details m =
      store_after-Added (close_driver old.driver m.world) text driver details m
  add_found-Added (some old) text driver false details m = refl

  add-Added :
      (alias text : String) (driver : D) (b : Bool) (details : Details F) (m : Manager F D W)
      → normalize_alias alias ≡ ok text
      → Added text driver m (add close_driver alias driver b details m)
  unfolding add
  add-Added alias text driver b details m e =
      subst (λ r. Added text driver m (add_as close_driver r driver b details m)) (sym e)
        (add_found-Added (find (casefold text) m.sessions) text driver b details m)

  module _ (closes : (d : D) (w : W) → is_connected d (close_driver d w).1 ≡ false) where
    -- The handler, where only the world has changed before.
    handler-Abandoned :
        (driver : D) (m m' : Manager F D W)
        → SameRegistry m m'
        → Abandoned driver m (record m' { world = (close_driver driver m'.world).1 })
    handler-Abandoned driver m m' same = (
      ap (λ (x : Manager F D W). record x { world = (close_driver driver m'.world).1 }) same,
      inr (closes driver m'.world),
    )

    after_add :
        (p : Result (DmmSession D (Details F) W) × Manager F D W) (alias text : String) (driver : D)
        (m : Manager F D W) (w : W)
        → normalize_alias alias ≡ ok text
        → Added text driver (record m { world = w }) p
        → Settled alias driver m (elim p.0 [
          | err e ↦ abandoned drivers driver (native e) p.1
          | ok s ↦ (returned alias, p.1)
        ])
    after_add (ok s, m') alias text driver m w e (found, named, kept, active, next) = record {
      text = text;
      session = s;
      normalized = e;
      found = found;
      alias_kept = named;
      driver_kept = kept;
      is_active = active;
      next_generation = next;
    }
    after_add (err x, m') alias text driver m w e same = handler-Abandoned driver m m' same

    after_connect :
        (p : Result (Unit {0}) × W) (alias text : String) (driver : D) (replace : Option Bool)
        (details : Option String → Details F) (m : Manager F D W)
        → normalize_alias alias ≡ ok text
        → let again : Drivers D W = record drivers { connect_driver = λ d w. p } in
          Settled alias driver m (connect_and_add again alias driver replace details m)
    after_connect (err x, w) alias text driver replace details m e =
        handler-Abandoned driver m (record m { world = w }) refl
    after_connect (ok _, w) alias text driver none details m e =
        handler-Abandoned driver m (record m { world = w }) refl
    after_connect (ok _, w) alias text driver (some b) details m e =
        let m' = record m { world = w } in
        let found = details (drivers.identity_raw driver w) in
        after_add (add close_driver alias driver b found m') alias text driver m w e
          (add-Added alias text driver b found m' e)

    by_alias :
        (r : Result String) (alias : String) (driver : D) (replace : Option Bool)
        (details : Option String → Details F) (m : Manager F D W)
        → normalize_alias alias ≡ r
        → Settled alias driver m (elim r [
          | err e ↦ (native e, m)
          | ok text ↦ connect_and_add drivers alias driver replace details m
        ])
    by_alias (err x) alias driver replace details m e = (refl, inl refl)
    by_alias (ok text) alias driver replace details m e =
        after_connect (connect_driver driver m.world) alias text driver replace details m e

    -- No connection leaks: `_register_connected` either returns with the driver as the active session
    -- of its alias, in the next generation, or raises with the registry as it was and the driver
    -- closed (or nothing changed at all).
    pub register_connected-Settled :
        (alias : String) (driver : D) (replace : Option Bool) (details : Option String → Details F)
        (m : Manager F D W)
        → Settled alias driver m (register_connected drivers alias driver replace details m)
    unfolding register_connected
    register_connected-Settled alias driver replace details m =
        by_alias (normalize_alias alias) alias driver replace details m refl
