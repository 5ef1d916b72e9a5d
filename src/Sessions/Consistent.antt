-- ===== src/Sessions/Consistent.antt =====
-- The invariant of the registry through any sequence of calls, and what it means for `get`.
use hp34401a_driver.Base.{
  String, Bool, true, false, Option, none, some, List, [], ◌∷◌, ◌≡◌, refl, ◌∙◌, ap, inl, inr, arith,
  is_some, Bool-cases, if◌then◌else◌,
}
use hp34401a_driver.Base.Text.{is_empty, strip}
use hp34401a_driver.Errors.{Error, Result, ok, err, value_error}
use hp34401a_driver.Base.Dict.{Key, same_key, same_key_refl, find, remove, find-put, find-remove}
use hp34401a_driver.Sessions.{
  normalize_alias, casefold, DmmSession, SessionManager, no_sessions, store, store_after, add_found,
  add_as, close_found, add, open_session, select, get_active, get, find_session, first_key, forget,
  close, close_all,
}

normalize_alias-error :
    (alias : String) (e : Error) → normalize_alias alias ≡ err e → e ≡ value_error
unfolding normalize_alias
normalize_alias-error alias e h = ground arith

-- A call of a method that changes the registry.
pub data Call (D I : Type 0) : Type 0 where
  add_call : String → D → Bool → I → Call D I
  select_call : String → Call D I
  close_call : Option String → Bool → Call D I
  close_all_call : Call D I

module _ {D I W : Type 0} where
  abbrev is_open : Option Key → List (Key × DmmSession D I W) → Bool
  is_open none d = true
  is_open (some k) d = is_some (find k d)

  -- The active key, if there is one, is the key of an open session.
  abbrev IsConsistent : SessionManager D I W → Type 0
  IsConsistent m = is_open m.active_key m.sessions ≡ true

  first_key-open : (d : List (Key × DmmSession D I W)) → is_open (first_key d) d ≡ true
  unfolding find
  first_key-open [] = refl
  first_key-open ((k, s) ∷ rest) = rw (same_key_refl k) refl

  store-IsConsistent :
      (display : String) (driver : D) (details : I) (m : SessionManager D I W)
      → IsConsistent (store display driver details m).1
  unfolding store
  store-IsConsistent display driver details m = rw (find-put (casefold display) _ m.sessions) refl

  active_after :
      (key : Key) (active : Option Key) (d : List (Key × DmmSession D I W))
      → is_open active d ≡ true
      → is_open
          (elim active [
            | none ↦ none
            | some k ↦ if same_key k key then first_key (remove key d) else some k
          ])
          (remove key d)
        ≡ true
  active_after key none d h = refl
  active_after key (some k) d h = elim (Bool-cases (same_key k key)) [
    | inl e ↦ rw e (first_key-open (remove key d))
    | inr e ↦ rw e (ap is_some (find-remove key k d e) ∙ h)
  ]

  forget-IsConsistent :
      (key : Key) (m : SessionManager D I W) → IsConsistent m → IsConsistent (forget key m)
  unfolding forget
  forget-IsConsistent key m h = active_after key m.active_key m.sessions h

  select-IsConsistent :
      (alias : String) (m : SessionManager D I W) → IsConsistent m → IsConsistent (select alias m).1
  unfolding select
  select-IsConsistent alias m h = ground (arith, h)

  get_active-error :
      (m : SessionManager D I W) (e : Error)
      → IsConsistent m
      → get_active m ≡ err e
      → e ≡ value_error
  get_active-error m e h k = ground (arith, h, k)

  open_session-error :
      (key : Key) (m : SessionManager D I W) (e : Error)
      → open_session key m ≡ err e
      → e ≡ value_error
  open_session-error key m e h = ground (arith, h)

  after_alias :
      (r : Result String) (m : SessionManager D I W) (e : Error)
      → ((e' : Error) → r ≡ err e' → e' ≡ value_error)
      → (elim r as (λ _. Result (DmmSession D I W)) [
        | err e' ↦ err e'
        | ok text ↦ open_session (casefold text) m
      ])
        ≡ err e
      → e ≡ value_error
  after_alias (ok text) m e h k = open_session-error (casefold text) m e k
  after_alias (err e') m e h k = ground (arith, h e' refl, k)

  get-error :
      (alias : Option String) (m : SessionManager D I W) (e : Error)
      → IsConsistent m
      → get alias m ≡ err e
      → e ≡ value_error
  unfolding get
  get-error none m e h = get_active-error m e h
  get-error (some alias) m e h = elim (Bool-cases (is_empty (strip alias))) [
    | inl b ↦ rw b (get_active-error m e h)
    | inr b ↦ rw b (after_alias (normalize_alias alias) m e (normalize_alias-error alias))
  ]

module _ {D I W : Type 0} (close_driver : D → W → Result (Unit {0}) × W) where
  store_after-IsConsistent :
      (r : Result (Unit {0}) × W) (display : String) (driver : D) (details : I)
      (m : SessionManager D I W)
      → IsConsistent m
      → IsConsistent (store_after r display driver details m).1
  store_after-IsConsistent (ok _, w) display driver details m h =
      store-IsConsistent display driver details (record m { world = w })
  store_after-IsConsistent (err e, w) display driver details m h = h

  add_found-IsConsistent :
      (found : Option (DmmSession D I W)) (display : String) (driver : D) (replace : Bool)
      (details : I) (m : SessionManager D I W)
      → IsConsistent m
      → IsConsistent (add_found close_driver found display driver replace details m).1
  add_found-IsConsistent none display driver replace details m h =
      store-IsConsistent display driver details m
  add_found-IsConsistent (some old) display driver true details m h =
      store_after-IsConsistent (close_driver old.driver m.world) display driver details m h
  add_found-IsConsistent (some old) display driver false details m h = h

  add_as-IsConsistent :
      (r : Result String) (driver : D) (replace : Bool) (details : I) (m : SessionManager D I W)
      → IsConsistent m
      → IsConsistent (add_as close_driver r driver replace details m).1
  add_as-IsConsistent (err e) driver replace details m h = h
  add_as-IsConsistent (ok display) driver replace details m h =
      add_found-IsConsistent (find (casefold display) m.sessions) display driver replace details m h

  add-IsConsistent :
      (alias : String) (driver : D) (replace : Bool) (details : I) (m : SessionManager D I W)
      → IsConsistent m
      → IsConsistent (add close_driver alias driver replace details m).1
  unfolding add
  add-IsConsistent alias = add_as-IsConsistent (normalize_alias alias)

  closed_case :
      (r : Result (Option (DmmSession D I W))) (idempotent : Bool) (m : SessionManager D I W)
      → IsConsistent m
      → IsConsistent (close_found close_driver r idempotent m).1
  closed_case (err e) idempotent m h = h
  closed_case (ok none) idempotent m h = h
  closed_case (ok (some s)) idempotent m h =
      forget-IsConsistent (casefold s.alias)
        (record m { world = (close_driver s.driver m.world).1 }) h

  close-IsConsistent :
      (alias : Option String) (idempotent : Bool) (m : SessionManager D I W)
      → IsConsistent m
      → IsConsistent (close close_driver alias idempotent m).1
  unfolding close
  close-IsConsistent alias idempotent m h = closed_case (find_session alias m) idempotent m h

  abbrev pub run : Call D I → SessionManager D I W → SessionManager D I W
  run (add_call alias driver replace details) m =
      (add close_driver alias driver replace details m).1
  run (select_call alias) m = (select alias m).1
  run (close_call alias idempotent) m = (close close_driver alias idempotent m).1
  run close_all_call m = (close_all close_driver m).1

  -- The calls one after another, by a caller that goes on after exceptions.
  unfoldable pub run_all : List (Call D I) → SessionManager D I W → SessionManager D I W
  run_all [] m = m
  run_all (c ∷ cs) m = run_all cs (run c m)

  run-IsConsistent :
      (c : Call D I) (m : SessionManager D I W) → IsConsistent m → IsConsistent (run c m)
  unfolding close_all
  run-IsConsistent (add_call alias driver replace details) m h =
      add-IsConsistent alias driver replace details m h
  run-IsConsistent (select_call alias) m h = select-IsConsistent alias m h
  run-IsConsistent (close_call alias idempotent) m h = close-IsConsistent alias idempotent m h
  run-IsConsistent close_all_call m h = refl

  run_all-IsConsistent :
      (cs : List (Call D I)) (m : SessionManager D I W)
      → IsConsistent m
      → IsConsistent (run_all cs m)
  unfolding run_all
  run_all-IsConsistent [] m h = h
  run_all-IsConsistent (c ∷ cs) m h = run_all-IsConsistent cs (run c m) (run-IsConsistent c m h)

  -- After any calls on a new registry, whatever the drivers did when they were closed, the only
  -- exception of `get` is a ValueError: the active key is never the key of a session that is gone,
  -- which would be a KeyError.
  pub get_after_calls :
      (cs : List (Call D I)) (w : W) (alias : Option String) (e : Error)
      → get alias (run_all cs (no_sessions w)) ≡ err e
      → e ≡ value_error
  get_after_calls cs w alias e h =
      get-error alias (run_all cs (no_sessions w)) e (run_all-IsConsistent cs (no_sessions w) refl)
        h
