-- ===== src/Sessions.antt =====
-- rf_hp34401a/sessions.py: the registry of named sessions. A driver is known by its `close` alone,
-- which is a parameter. An alias is a text; the fields of a session that the registry only
-- carries (resource, transport kind, timeout, options, identity, last reading and error) are one
-- value, and `connected_at_utc` is left out.
pub mod Consistent
pub mod Emptied
pub mod Found
use hp34401a_driver.Base.{
  ℕ, ◌+◌, String, Bool, true, false, not, ◌&&◌, ◌||◌, Option, none, some, List, [], ◌∷◌, ◌++◌, map,
  if◌then◌else◌, ◌==◌, leb, length, all, any, or_else,
}
use hp34401a_driver.Base.Text.{strip, codes, lower, upper, is_empty}
use hp34401a_driver.Errors.{Error, Result, ok, err, value_error, key_error}
use hp34401a_driver.Base.Dict.{Key, same_key, find, put, remove}

abbrev is_letter : ℕ → Bool
is_letter c = leb b'A' c && leb c b'Z' || leb b'a' c && leb c b'z'

abbrev is_alias_code : ℕ → Bool
is_alias_code c = is_letter c || leb b'0' c && leb c b'9' || c == b'_' || c == b'.' || c == b'-'

-- `_ALIAS_RE.fullmatch`: `[A-Za-z][A-Za-z0-9_.-]{0,63}`
abbrev is_alias : Key → Bool
is_alias [] = false
is_alias (c ∷ cs) = is_letter c && all is_alias_code cs && leb (length cs) 63

-- `_RESERVED`
abbrev reserved : List Key
reserved =
    codes "NONE" ∷ codes "NULL" ∷ codes "TRUE" ∷ codes "FALSE" ∷ codes "ALL" ∷ codes "DEFAULTS" ∷ []

unfoldable pub normalize_alias : String → Result String
unfolding strip
normalize_alias alias =
    let text = strip alias in
    if is_empty text
    then err value_error
    else if not (is_alias (codes text))
    then err value_error
    else if any (same_key (upper text)) reserved
    then err value_error
    else ok text

-- `casefold` of an alias, which is ASCII
abbrev pub casefold : String → Key
casefold = lower

module _ (D I W : Type 0) where
  -- `DmmSession`
  pub record DmmSession : Type 0 where
    pub alias : String
    pub driver : D
    pub details : I
    pub generation : ℕ

  -- `SessionManager`, with the world that the drivers act on
  pub record SessionManager : Type 0 where
    pub sessions : List (Key × DmmSession)
    pub active_key : Option Key
    pub generations : List (Key × ℕ)
    pub world : W

-- `SessionManager.__init__`
abbrev pub no_sessions : {D I W : Type 0} → W → SessionManager D I W
no_sessions w = record { sessions = []; active_key = none; generations = []; world = w }

module _ {D I W : Type 0} where
  -- The last lines of `add`.
  unfoldable pub store :
      String → D → I → SessionManager D I W → Result (DmmSession D I W) × SessionManager D I W
  store display driver details m =
      let generation = or_else (find (casefold display) m.generations) 0 + 1 in
      let session : DmmSession D I W = record {
        alias = display;
        driver = driver;
        details = details;
        generation = generation;
      } in
      (
        ok session,
        record m {
          sessions = put (casefold display) session m.sessions;
          active_key = some (casefold display);
          generations = put (casefold display) generation m.generations;
        },
      )

  -- The last lines of `add` behind the `close` of the session that is replaced.
  abbrev pub store_after :
      Result (Unit {0}) × W
      → String
      → D
      → I
      → SessionManager D I W
      → Result (DmmSession D I W) × SessionManager D I W
  store_after (ok _, w) display driver details m =
      store display driver details (record m { world = w })
  store_after (err e, w) display driver details m = (err e, record m { world = w })

  -- `self._sessions[key]`, whose KeyError becomes a ValueError
  abbrev pub open_session : Key → SessionManager D I W → Result (DmmSession D I W)
  open_session key m = elim (find key m.sessions) [ none ↦ err value_error | some s ↦ ok s ]

  unfoldable pub select :
      String → SessionManager D I W → Result (DmmSession D I W) × SessionManager D I W
  select alias m = elim (normalize_alias alias) [
    | err e ↦ (err e, m)
    | ok text ↦ elim (find (casefold text) m.sessions) [
      | none ↦ (err value_error, m)
      | some s ↦ (ok s, record m { active_key = some (casefold text) })
    ]
  ]

  -- `get` without an alias: here a missing key is a KeyError.
  abbrev pub get_active : SessionManager D I W → Result (DmmSession D I W)
  get_active m = elim m.active_key [
    | none ↦ err value_error
    | some key ↦ elim (find key m.sessions) [ none ↦ err key_error | some s ↦ ok s ]
  ]

  unfoldable pub get : Option String → SessionManager D I W → Result (DmmSession D I W)
  get none m = get_active m
  get (some alias) m =
      if is_empty (strip alias)
      then get_active m
      else elim (normalize_alias alias) [ err e ↦ err e | ok text ↦ open_session (casefold text) m ]

  -- `find` of the registry: a ValueError is None
  abbrev pub find_session :
      Option String → SessionManager D I W → Result (Option (DmmSession D I W))
  find_session alias m = elim (get alias m) [
    | ok s ↦ ok (some s)
    | err value_error ↦ ok none
    | err e ↦ err e
  ]

  -- `next(iter(self._sessions), None)`
  abbrev pub first_key : List (Key × DmmSession D I W) → Option Key
  first_key [] = none
  first_key ((k, s) ∷ rest) = some k

  -- The `finally` of `close`.
  unfoldable pub forget : Key → SessionManager D I W → SessionManager D I W
  forget key m =
      let rest = remove key m.sessions in
      record m {
        sessions = rest;
        active_key = elim m.active_key [
          | none ↦ none
          | some k ↦ if same_key k key then first_key rest else some k
        ];
      }

module _ {D I W : Type 0} (close_driver : D → W → Result (Unit {0}) × W) where
  -- `add` with the session that has the key, if there is one
  abbrev pub add_found :
      Option (DmmSession D I W)
      → String
      → D
      → Bool
      → I
      → SessionManager D I W
      → Result (DmmSession D I W) × SessionManager D I W
  add_found none display driver replace details m = store display driver details m
  add_found (some old) display driver replace details m =
      if not replace
      then (err value_error, m)
      else store_after (close_driver old.driver m.world) display driver details m

  -- `add` with the normalised alias
  abbrev pub add_as :
      Result String
      → D
      → Bool
      → I
      → SessionManager D I W
      → Result (DmmSession D I W) × SessionManager D I W
  add_as (err e) driver replace details m = (err e, m)
  add_as (ok display) driver replace details m =
      add_found (find (casefold display) m.sessions) display driver replace details m

  unfoldable pub add :
      String
      → D
      → Bool
      → I
      → SessionManager D I W
      → Result (DmmSession D I W) × SessionManager D I W
  add alias driver replace details m = add_as (normalize_alias alias) driver replace details m

  -- `close` behind its `find`
  abbrev pub close_found :
      Result (Option (DmmSession D I W))
      → Bool
      → SessionManager D I W
      → Result Bool × SessionManager D I W
  close_found (err e) idempotent m = (err e, m)
  close_found (ok none) idempotent m = ((if idempotent then ok false else err value_error), m)
  close_found (ok (some s)) idempotent m =
      let (r, w) = close_driver s.driver m.world in
      let m' = forget (casefold s.alias) (record m { world = w }) in
      (elim r [ ok _ ↦ ok true | err e ↦ err e ], m')

  unfoldable pub close :
      Option String → Bool → SessionManager D I W → Result Bool × SessionManager D I W
  close alias idempotent m = close_found (find_session alias m) idempotent m

  -- The loop of `close_all`: the aliases whose driver raised, with the exception.
  unfoldable pub close_each :
      List (Key × DmmSession D I W)
      → SessionManager D I W
      → List (String × Error) × SessionManager D I W
  close_each [] m = ([], m)
  close_each ((key, s) ∷ rest) m =
      let (r, w) = close_driver s.driver m.world in
      let (errors, m') =
        close_each rest (record m { sessions = remove key m.sessions; world = w }) in
      (elim r [ ok _ ↦ errors | err e ↦ (s.alias, e) ∷ errors ], m')

  unfoldable pub close_all : SessionManager D I W → List (String × Error) × SessionManager D I W
  close_all m =
      let (errors, m') = close_each m.sessions m in (errors, record m' { active_key = none })
