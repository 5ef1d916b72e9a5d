-- ===== src/Health.antt =====
-- Opening a session: `_register_connected` of rf_hp34401a/legacy_library.py, with the state of the
-- library and what it asks of drivers. The trace and the identity that a new session writes into
-- the evidence are left out; the evidence around keywords is in Lifecycle. The keywords are in the
-- modules below.
pub mod State
pub mod Connect
pub mod Registered
pub mod Cached
pub mod Single
use hp34401a_driver.Base.{
  ℕ, String, Bool, true, false, not, ◌&&◌, Option, none, some, List, [], ◌∷◌, if◌then◌else◌,
  or_else,
}
use hp34401a_driver.Base.Text.{strip, codes, is_empty}
use hp34401a_driver.Base.Dict.{Key, same_key, find, put, remove}
use hp34401a_driver.Errors.{Error, Result, ok, err, value_error}
use hp34401a_driver.Sessions
use hp34401a_driver.Sessions.{
  normalize_alias, casefold, DmmSession, SessionManager, add, get, find_session, close_all,
}
use hp34401a_driver.Keywords.{
  Answer, done, robot, assertion_failed, untranslated, driver_state_error, driver_protocol_error,
  driver_validation_error, driver_cleanup_error, execute, Raised, returned, rfds, native,
}

-- What the library asks of the drivers, in the world that they act on.
pub record Drivers (D W : Type 0) : Type 0 where
  pub connect_driver : D → W → Result (Unit {0}) × W
  pub close_driver : D → W → Result (Unit {0}) × W
  pub is_connected : D → W → Bool
  -- `driver.query("*IDN?")`
  pub query_idn : D → W → Result String × W
  -- the raw text of `identity_cached`
  pub identity_raw : D → W → Option String

-- The fields of DmmSession that the registry only carries, but for the options.
pub record Details (F : Type 0) : Type 0 where
  pub resource : String
  pub transport_kind : String
  pub timeout_s : F
  pub identity_text : Option String

-- The dictionary of a connection state; a session is told by its alias and generation.
pub record ConnectionState (F : Type 0) : Type 0 where
  pub alias : String
  pub resource : String
  pub connected : Bool
  pub communication_ok : Bool
  pub transport : String
  pub identity : Option String
  pub timeout_s : F
  pub simulated : Bool
  pub generation : Option ℕ
  pub active : Bool

module _ (F D W : Type 0) where
  abbrev pub Manager : Type 0
  Manager = SessionManager D (Details F) W

  pub record Library : Type 0 where
    pub manager : Manager
    pub communication_health : List (Key × Bool)
    pub default_timeout_s : F

  abbrev pub Keyword : Type 0 → Type 0
  Keyword A = Library → Answer A × Library

module _ {F D W : Type 0} (drivers : Drivers D W) where
  open drivers use {connect_driver, close_driver, is_connected, query_idn, identity_raw}

  -- The handler: the new driver is closed, whatever `close` raises.
  abbrev abandoned : D → Raised String → Manager F D W → Raised String × Manager F D W
  abandoned driver e m = (e, record m { world = (close_driver driver m.world).1 })

  -- The `try` of `_register_connected`, where `replace` is what `as_bool` makes of that argument, if
  -- it does.
  abbrev pub connect_and_add :
      String
      → D
      → Option Bool
      → (Option String → Details F)
      → Manager F D W
      → Raised String × Manager F D W
  connect_and_add alias driver replace details m =
      let (r, w) = connect_driver driver m.world in
      let m' = record m { world = w } in
      elim r [
        | err e ↦ abandoned driver (native e) m'
        | ok _ ↦ elim replace [
          | none ↦ abandoned driver (rfds driver_validation_error) m'
          | some b ↦
              let (added, m'') =
                add close_driver alias driver b (details (identity_raw driver w)) m' in
              elim added [ err e ↦ abandoned driver (native e) m'' | ok s ↦ (returned alias, m'') ]
        ]
      ]

  -- `_register_connected`
  unfoldable pub register_connected :
      String
      → D
      → Option Bool
      → (Option String → Details F)
      → Manager F D W
      → Raised String × Manager F D W
  register_connected alias driver replace details m = elim (normalize_alias alias) [
    | err e ↦ (native e, m)
    | ok text ↦ connect_and_add alias driver replace details m
  ]

  -- An `Open DMM …` keyword behind the conversion of its other arguments.
  unfoldable pub open_dmm :
      String → D → Option Bool → (Option String → Details F) → Keyword F D W String
  open_dmm alias driver replace details lib =
      let (r, m) = register_connected alias driver replace details lib.manager in
      (execute r, record lib { manager = m })
