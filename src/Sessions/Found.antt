-- ===== src/Sessions/Found.antt =====
-- How an alias that passes its check finds the session of its key.
use hp34401a_driver.Base.{String, some, ◌≡◌, arith}
use hp34401a_driver.Base.Dict.{find}
use hp34401a_driver.Errors.{ok}
use hp34401a_driver.Sessions.{
  normalize_alias, casefold, DmmSession, SessionManager, get, find_session,
}

module _ {D I W : Type 0} where
  pub get-found :
      (alias text : String) (m : SessionManager D I W) (s : DmmSession D I W)
      → normalize_alias alias ≡ ok text
      → find (casefold text) m.sessions ≡ some s
      → get (some alias) m ≡ ok s
  unfolding get normalize_alias
  get-found alias text m s e found = ground (arith, e, found)

  pub find_session-found :
      (alias text : String) (m : SessionManager D I W) (s : DmmSession D I W)
      → normalize_alias alias ≡ ok text
      → find (casefold text) m.sessions ≡ some s
      → find_session (some alias) m ≡ ok (some s)
  unfolding get normalize_alias
  find_session-found alias text m s e found = ground (arith, e, found)
