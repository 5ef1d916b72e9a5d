-- ===== src/Health/Connect.antt =====
-- The keyword Connect: `connect` of rf_hp34401a/runtime_library.py over that of
-- rf_hp34401a/legacy_library.py, with the choice of a transport of `connect_dmm`, and
-- `set_communication_timeout`. What the open keywords make of their other arguments, and the
-- permission of raw input and output, are left out.
pub mod Ensured
pub mod Assured
use hp34401a_driver.Base.{
  ℕ, String, Bool, true, false, not, ◌&&◌, ◌||◌, Option, none, some, List, [], ◌∷◌, any, all,
  if◌then◌else◌, or_else,
}
use hp34401a_driver.Base.Text.{strip, codes, upper, starts_with, is_empty}
use hp34401a_driver.Base.Dict.{Key, same_key, find, put, remove}
use hp34401a_driver.Errors.{Result, ok, err, value_error}
use hp34401a_driver.Sessions
use hp34401a_driver.Sessions.{casefold, DmmSession, get, find_session}
use hp34401a_driver.Keywords.{
  Answer, done, robot, assertion_failed, untranslated, driver_state_error, driver_validation_error,
  hp34401a_robot_error, execute, Raised, returned, rfds, native, raised_of,
}
use hp34401a_driver.Health.{Drivers, Details, ConnectionState, Manager, Library, Keyword, open_dmm}
use hp34401a_driver.Health.State.{
  connected, set_health, close_session, to_connection_state, get_connection_state,
}

-- The keyword that opens a session.
pub data Kind : Type 0 where
  visa serial simulation : Kind

abbrev one_of : List String → Key → Bool
one_of names text = any (λ name. same_key (codes name) text) names

-- The choice of `connect_dmm`
unfoldable pub select_transport : String → String → Raised Kind
select_transport resource transport =
    let name = upper (strip transport) in
    let text = strip resource in
    let selected =
      if one_of ("" ∷ "AUTO" ∷ []) name
      then (if starts_with (upper text) (codes "COM") || starts_with (codes text) (codes "/dev/tty")
          then codes "SERIAL"
          else codes "VISA")
      else name in
    if is_empty text
    then rfds hp34401a_robot_error
    else if one_of ("VISA" ∷ "GPIB" ∷ "USB" ∷ "LAN" ∷ []) selected
    then returned visa
    else if one_of ("SERIAL" ∷ "RS232" ∷ "RS-232" ∷ []) selected
    then returned serial
    else rfds hp34401a_robot_error

abbrev accepted : List String
accepted =
    "transport" ∷ "visa_library" ∷ "baud_rate" ∷ "parity" ∷ "data_bits" ∷ "stop_bits" ∷ "dtr_dsr"
    ∷ "remote_on_connect" ∷ "local_on_close" ∷ "reset_on_connect" ∷ "verify_identity"
    ∷ "drain_error_queue" ∷ "retry_queries" ∷ "max_query_retries" ∷ "allow_calibration_commands"
    ∷ "replace" ∷ "raw_traffic_log" ∷ []

-- The arguments of the keyword with what the effective configuration adds to them. An argument that
-- is converted is what its conversion makes of it, if it does.
pub record Request (F P : Type 0) : Type 0 where
  pub resource : Option String
  pub configured_resource : Option String
  pub simulation_enabled : Option Bool
  pub alias : String
  pub timeout_s : Option F
  pub transport : String
  pub options : List String
  pub replace : Option Bool
  pub policy : Option P
  -- "FRONT" or "REAR", if one is expected
  pub expected_terminal : Option String

-- `a or b`
abbrev either : Option String → Option String → String
either none b = or_else b ""
either (some a) b = if is_empty a then or_else b "" else a

-- `selected_resource`
unfoldable pub selected_resource : {F P : Type 0} → Request F P → Option String
selected_resource q =
    let text = strip (either q.resource q.configured_resource) in
    if not (is_empty text) then some text else elim q.simulation_enabled [
      | none ↦ none
      | some b ↦ some (if b then "SIM::HP34401A" else "")
    ]

-- `_alias_key`
abbrev alias_key : {F P : Type 0} → Request F P → Key
alias_key q = casefold (strip q.alias)

abbrev is_simulated : String → Bool
is_simulated resource = starts_with (upper resource) (codes "SIM::")

-- What Connect asks of a driver behind its opening, and how the open keywords make one.
pub record Makers (F D W P : Type 0) : Type 0 where
  pub make : Kind → String → F → Raised (D × (Option String → Details F))
  pub apply_policy : D → P → W → Result (Unit {0}) × W
  -- `driver.set_communication_timeout`
  pub set_timeout : D → F → W → Result F × W
  pub require_terminal : String → D → W → Answer (Unit {0}) × W

module _ {F D W : Type 0} where
  -- `session.timeout_s = …`, and the resource of a simulated session
  abbrev pub relabelled :
      DmmSession D (Details F) W → (Details F → Details F) → Library F D W → Library F D W
  relabelled s change lib = record lib {
    manager = record lib.manager {
      sessions =
          put (casefold s.alias) (record s { details = change s.details }) lib.manager.sessions;
    };
  }

module _ {F D W P : Type 0} (drivers : Drivers D W) (makers : Makers F D W P) where
  open drivers use {close_driver, is_connected}
  open makers use {make, apply_policy, set_timeout, require_terminal}

  -- An open keyword.
  abbrev opened : Kind → String → F → Request F P → Keyword F D W String
  opened kind resource timeout q lib = elim (make kind resource timeout) [
    | returned (d, details) ↦ open_dmm drivers q.alias d q.replace details lib
    | rfds c ↦ (robot c, lib)
    | native e ↦ (execute (native e), lib)
  ]

  abbrev open_kind : Raised Kind → String → F → Request F P → Keyword F D W String
  open_kind (returned kind) resource timeout q lib = opened kind resource timeout q lib
  open_kind (rfds c) resource timeout q lib = (robot c, lib)
  open_kind (native e) resource timeout q lib = (execute (native e), lib)

  -- The two branches that open, and the fields that the simulated one sets.
  unfoldable pub open_selected : String → F → Request F P → Keyword F D W String
  open_selected resource timeout q lib =
      if is_simulated resource
      then (let (a, lib') = opened simulation resource timeout q lib in
          elim a [
            | done x ↦ elim (get (some q.alias) lib'.manager) [
              | err e ↦ (untranslated e, lib')
              | ok s ↦ (
                done x,
                relabelled s (λ i. record i { resource = resource; timeout_s = timeout }) lib',
              )
            ]
            | robot c ↦ (robot c, lib')
            | assertion_failed ↦ (assertion_failed, lib')
            | untranslated e ↦ (untranslated e, lib')
          ])
      else open_kind (select_transport resource q.transport) resource timeout q lib

  abbrev state_after :
      Request F P → Answer String × Library F D W → Answer (ConnectionState F) × Library F D W
  state_after q (done x, lib) = get_connection_state drivers (some q.alias) true lib
  state_after q (robot c, lib) = (robot c, lib)
  state_after q (assertion_failed, lib) = (assertion_failed, lib)
  state_after q (untranslated e, lib) = (untranslated e, lib)

  -- What follows the look at an existing session.
  abbrev open_other : String → Request F P → Keyword F D W (ConnectionState F)
  open_other resource q lib =
      if not (all (λ name. one_of accepted (codes name)) q.options)
      then (robot driver_validation_error, lib)
      else elim q.timeout_s [
        | none ↦ (robot driver_validation_error, lib)
        | some timeout ↦ state_after q (open_selected resource timeout q lib)
      ]

  -- `connect` of legacy_library.py
  unfoldable pub legacy_connect : String → Request F P → Keyword F D W (ConnectionState F)
  legacy_connect resource q lib =
      if is_empty resource
      then (robot driver_validation_error, lib)
      else elim (find_session (some q.alias) lib.manager) [
        | err e ↦ (untranslated e, lib)
        | ok none ↦ open_other resource q lib
        | ok (some s) ↦
            if not (connected drivers s lib)
            then open_other resource q lib
            else if same_key (codes s.details.resource) (codes resource)
            then (done (to_connection_state drivers s true lib), lib)
            else (robot driver_state_error, lib)
      ]

  -- The `try` of the facade's `connect`, on the session of the alias. `assured` is what follows the
  -- policy.
  abbrev pub assured :
      Result (Unit {0}) × W
      → DmmSession D (Details F) W
      → F
      → Option String
      → Keyword F D W (Unit {0})
  assured (err e, w) s timeout terminal lib =
      (untranslated e, record lib { manager = record lib.manager { world = w } })
  assured (ok _, w) s timeout none lib = (
    done tt,
    relabelled s (λ i. record i { timeout_s = timeout })
        (record lib { manager = record lib.manager { world = w } }),
  )
  assured (ok _, w) s timeout (some name) lib =
      let (a, w') = require_terminal name s.driver w in
      (
        a,
        relabelled s (λ i. record i { timeout_s = timeout })
            (record lib { manager = record lib.manager { world = w' } }),
      )

  abbrev pub ensure_session :
      DmmSession D (Details F) W → Option F → Option P → Option String → Keyword F D W (Unit {0})
  ensure_session s none policy terminal lib = (robot driver_validation_error, lib)
  ensure_session s (some timeout) none terminal lib = (robot driver_validation_error, lib)
  ensure_session s (some timeout) (some policy) terminal lib =
      assured (apply_policy s.driver policy lib.manager.world) s timeout terminal lib

  pub ensure_policy : Request F P → Keyword F D W (Unit {0})
  ensure_policy q lib = elim (get (some q.alias) lib.manager) [
    | err e ↦ (untranslated e, lib)
    | ok s ↦ ensure_session s q.timeout_s q.policy q.expected_terminal lib
  ]

  -- Its handler: an exception of `close` takes the place of the first, and skips the rest.
  abbrev pub after_close :
      Result Bool × Manager F D W
      → Answer (ConnectionState F)
      → Request F P
      → Keyword F D W (ConnectionState F)
  after_close (err e, m) failure q lib = (untranslated e, record lib { manager = m })
  after_close (ok _, m) failure q lib = (
    failure,
    record lib {
      manager = m;
      communication_health = remove (alias_key q) lib.communication_health;
    },
  )

  pub given_up : Answer (ConnectionState F) → Request F P → Keyword F D W (ConnectionState F)
  given_up failure q lib =
      after_close (Sessions.close close_driver (some q.alias) true lib.manager) failure q lib

  -- What follows the legacy keyword.
  abbrev pub finished :
      ConnectionState F
      → Request F P
      → Answer (Unit {0}) × Library F D W
      → Answer (ConnectionState F) × Library F D W
  finished state q (done _, lib) =
      get_connection_state drivers (some q.alias) false
        (set_health drivers (alias_key q) state.communication_ok lib)
  finished state q (robot c, lib) = given_up (robot c) q lib
  finished state q (assertion_failed, lib) = given_up assertion_failed q lib
  finished state q (untranslated e, lib) = given_up (untranslated e) q lib

  abbrev pub with_legacy :
      Request F P
      → Answer (ConnectionState F) × Library F D W
      → Answer (ConnectionState F) × Library F D W
  with_legacy q (done state, lib) = finished state q (ensure_policy q lib)
  with_legacy q (a, lib) = (a, lib)

  -- `connect` of runtime_library.py
  unfoldable pub connect : Request F P → Keyword F D W (ConnectionState F)
  connect q lib = elim (selected_resource q) [
    | none ↦ (robot driver_validation_error, lib)
    | some resource ↦ with_legacy q (legacy_connect resource q lib)
  ]

  abbrev is_blank : Option String → Bool
  is_blank none = true
  is_blank (some alias) = is_empty (strip alias)

  -- `set_communication_timeout` of runtime_library.py, with what `as_seconds` makes of its argument
  unfoldable pub set_communication_timeout : Option F → Option String → Keyword F D W F
  set_communication_timeout none alias lib = (robot driver_validation_error, lib)
  set_communication_timeout (some value) alias lib = elim (find_session alias lib.manager) [
    | err e ↦ (untranslated e, lib)
    | ok none ↦
        if is_blank alias
        then (done value, record lib { default_timeout_s = value })
        else (robot driver_state_error, lib)
    | ok (some s) ↦
        let (r, w) = set_timeout s.driver value lib.manager.world in
        let lib' = record lib { manager = record lib.manager { world = w } } in
        elim r [
          | err e ↦ (execute (native e), lib')
          | ok x ↦ (done x, relabelled s (λ i. record i { timeout_s = x }) lib')
        ]
  ]
