-- ===== src/Health/State.antt =====
-- The communication health of sessions: `check_communication`, `get_connection_state` and the
-- keywords that close, of rf_hp34401a/legacy_library.py under the cache of
-- rf_hp34401a/runtime_library.py.
use hp34401a_driver.Base.{
  String, Bool, true, false, ◌&&◌, Option, none, some, [], ◌∷◌, if◌then◌else◌, or_else,
}
use hp34401a_driver.Base.Text.{strip, codes, is_empty}
use hp34401a_driver.Base.Dict.{Key, same_key, find, put, remove}
use hp34401a_driver.Errors.{ok, err, value_error}
use hp34401a_driver.Sessions
use hp34401a_driver.Sessions.{
  normalize_alias, casefold, DmmSession, SessionManager, add, get, find_session, close_all,
}
use hp34401a_driver.Keywords.{
  Answer, done, robot, assertion_failed, untranslated, driver_state_error, driver_protocol_error,
  driver_cleanup_error, execute, native,
}
use hp34401a_driver.Health.{Drivers, Details, ConnectionState, Manager, Library, Keyword}

-- `active_alias`; an active key without a session, a KeyError, is left out.
abbrev active_alias : {F D W : Type 0} → Manager F D W → Option String
active_alias m = elim m.active_key [
  | none ↦ none
  | some key ↦ elim (find key m.sessions) [ none ↦ none | some s ↦ some s.alias ]
]

module _ {F D W : Type 0} (drivers : Drivers D W) where
  open drivers use {close_driver, is_connected, query_idn}

  -- `self._session(alias)`
  abbrev session_of : Option String → Manager F D W → Answer (DmmSession D (Details F) W)
  session_of alias m = elim (get alias m) [
    | ok s ↦ done s
    | err value_error ↦ robot driver_state_error
    | err e ↦ untranslated e
  ]

  -- `session.identity_text = …`
  abbrev identified : DmmSession D (Details F) W → String → Manager F D W → Manager F D W
  identified s text m = record m {
    sessions =
        put (casefold s.alias)
          (record s { details = record s.details { identity_text = some text } }) m.sessions;
  }

  -- `check_communication` of legacy_library.py
  unfoldable pub probe : Option String → Keyword F D W Bool
  probe alias lib = elim (session_of alias lib.manager) [
    | robot c ↦ (robot c, lib)
    | assertion_failed ↦ (assertion_failed, lib)
    | untranslated e ↦ (untranslated e, lib)
    | done s ↦
        let (r, w) = query_idn s.driver lib.manager.world in
        let m = record lib.manager { world = w } in
        elim r [
          | err e ↦ (execute (native e), record lib { manager = m })
          | ok response ↦
              if is_empty (strip response)
              then (robot driver_protocol_error, record lib { manager = m })
              else (done true, record lib { manager = identified s (strip response) m })
        ]
  ]

  -- `session.connected`; `is_connected` of the driver does not raise.
  abbrev pub connected : DmmSession D (Details F) W → Library F D W → Bool
  connected s lib = is_connected s.driver lib.manager.world

  abbrev pub set_health : Key → Bool → Library F D W → Library F D W
  set_health key b lib = record lib { communication_health = put key b lib.communication_health }

  abbrev answered : Key → Answer Bool × Library F D W → Answer Bool × Library F D W
  answered key (done b, lib) = (done b, set_health key b lib)
  answered key (a, lib) = (a, set_health key false lib)

  -- `check_communication` of runtime_library.py
  unfoldable pub check_communication : Option String → Keyword F D W Bool
  check_communication alias lib = elim (session_of alias lib.manager) [
    | robot c ↦ (robot c, lib)
    | assertion_failed ↦ (assertion_failed, lib)
    | untranslated e ↦ (untranslated e, lib)
    | done s ↦ answered (casefold s.alias) (probe (some s.alias) lib)
  ]

  -- `session.alias == self._sessions.active_alias`
  abbrev is_active : String → Manager F D W → Bool
  is_active alias m = elim (active_alias m) [
    | none ↦ false
    | some a ↦ same_key (codes alias) (codes a)
  ]

  -- `to_connection_state`, of the session as it now is
  unfoldable pub to_connection_state :
      DmmSession D (Details F) W → Bool → Library F D W → ConnectionState F
  to_connection_state old ok_now lib =
      let s = or_else (find (casefold old.alias) lib.manager.sessions) old in
      record {
        alias = s.alias;
        resource = s.details.resource;
        connected = connected s lib;
        communication_ok = ok_now;
        transport = s.details.transport_kind;
        identity = s.details.identity_text;
        timeout_s = s.details.timeout_s;
        simulated = same_key (codes s.details.transport_kind) (codes "simulation");
        generation = some s.generation;
        active = is_active s.alias lib.manager;
      }

  -- The state without a session; `requested` is the alias that it names.
  abbrev no_connection : String → Library F D W → ConnectionState F
  no_connection requested lib = record {
    alias = requested;
    resource = "UNKNOWN";
    connected = false;
    communication_ok = false;
    transport = "UNKNOWN";
    identity = none;
    timeout_s = lib.default_timeout_s;
    simulated = false;
    generation = none;
    active = false;
  }

  abbrev requested : Option String → Manager F D W → String
  requested none m = or_else (active_alias m) "default"
  requested (some alias) m =
      if is_empty (strip alias) then or_else (active_alias m) "default" else strip alias

  -- The answer of the refresh goes into the state.
  abbrev refreshed :
      DmmSession D (Details F) W
      → Answer Bool × Library F D W
      → Answer (ConnectionState F) × Library F D W
  refreshed s (done b, lib) = (done (to_connection_state s b lib), lib)
  refreshed s (robot c, lib) = (robot c, lib)
  refreshed s (assertion_failed, lib) = (assertion_failed, lib)
  refreshed s (untranslated e, lib) = (untranslated e, lib)

  -- `get_connection_state` of legacy_library.py, where `check_communication` is the facade's
  unfoldable pub state_without_cache : Option String → Bool → Keyword F D W (ConnectionState F)
  state_without_cache alias refresh lib = elim (find_session alias lib.manager) [
    | err e ↦ (untranslated e, lib)
    | ok none ↦ (done (no_connection (requested alias lib.manager) lib), lib)
    | ok (some s) ↦
        if refresh && connected s lib
        then refreshed s (check_communication (some s.alias) lib)
        else (done (to_connection_state s (connected s lib) lib), lib)
  ]

  -- What the cache makes of a state of the session.
  abbrev cached :
      DmmSession D (Details F) W
      → Bool
      → ConnectionState F
      → Library F D W
      → Answer (ConnectionState F) × Library F D W
  cached s refresh state lib =
      if refresh
      then (done state, set_health (casefold s.alias) state.communication_ok lib)
      else elim (find (casefold s.alias) lib.communication_health) [
        | none ↦ (done state, lib)
        | some b ↦ (done (record state { communication_ok = b }), lib)
      ]

  abbrev with_cache :
      Option String
      → Bool
      → Answer (ConnectionState F) × Library F D W
      → Answer (ConnectionState F) × Library F D W
  with_cache alias refresh (done state, lib) = elim (find_session alias lib.manager) [
    | err e ↦ (untranslated e, lib)
    | ok none ↦ (done state, lib)
    | ok (some s) ↦ cached s refresh state lib
  ]
  with_cache alias refresh (a, lib) = (a, lib)

  -- `get_connection_state` of runtime_library.py, with `refresh` as a Boolean
  unfoldable pub get_connection_state : Option String → Bool → Keyword F D W (ConnectionState F)
  get_connection_state alias refresh lib =
      with_cache alias refresh (state_without_cache alias refresh lib)

  -- `close` of the registry under `_execute`.
  abbrev pub close_session : Option String → Bool → Keyword F D W (Unit {0})
  close_session alias idempotent lib =
      let (r, m) = Sessions.close close_driver alias idempotent lib.manager in
      (elim r [ ok _ ↦ done tt | err e ↦ execute (native e) ], record lib { manager = m })

  -- `close_dmm`, which runtime_library.py leaves as it is
  unfoldable pub close_dmm : Option String → Keyword F D W (Unit {0})
  close_dmm alias = close_session alias false

  abbrev forget_health : Key → Answer (Unit {0}) × Library F D W → Answer (Unit {0}) × Library F D W
  forget_health key (done _, lib) =
      (done tt, record lib { communication_health = remove key lib.communication_health })
  forget_health key (a, lib) = (a, lib)

  -- `disconnect` of runtime_library.py
  unfoldable pub disconnect : Option String → Keyword F D W (Unit {0})
  disconnect alias lib = elim (find_session alias lib.manager) [
    | err e ↦ (untranslated e, lib)
    | ok none ↦ close_session alias true lib
    | ok (some s) ↦ forget_health (casefold s.alias) (close_session alias true lib)
  ]

  -- `disconnect_all` of runtime_library.py
  unfoldable pub disconnect_all : Keyword F D W (Unit {0})
  disconnect_all lib =
      let (errors, m) = close_all close_driver lib.manager in
      elim errors [
        | [] ↦ (done tt, record lib { manager = m; communication_health = [] })
        | _ ∷ _ ↦ (robot driver_cleanup_error, record lib { manager = m })
      ]
