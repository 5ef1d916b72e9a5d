-- ===== src/Health/Connect/Ensured.antt =====
-- A session whose policy or terminal could not be ensured is never left open by Connect.
use mathlib.Core.Path.{subst}
use hp34401a_driver.Base.{
  String, Bool, true, false, Option, none, some, List, ◌≡◌, refl, sym, ap, ◌∙◌, ◌⊎◌, inl, inr,
}
use hp34401a_driver.Base.Dict.{Key, find, put, remove, find-put, find-removed}
use hp34401a_driver.Errors.{Result, ok, err}
use hp34401a_driver.Sessions.{normalize_alias, casefold, DmmSession, close, close_found, forget}
use hp34401a_driver.Keywords.{
  Answer, done, robot, assertion_failed, untranslated, driver_validation_error,
}
use hp34401a_driver.Health.{Drivers, Details, ConnectionState, Manager, Library}
use hp34401a_driver.Sessions.Found.{get-found, find_session-found}
use hp34401a_driver.Health.Connect.{
  Request, Makers, relabelled, assured, ensure_session, after_close, selected_resource,
  legacy_connect, ensure_policy, given_up, finished, with_legacy, connect,
}

module _ {F D W P : Type 0} (drivers : Drivers D W) (makers : Makers F D W P) where
  open drivers use {close_driver, is_connected}

  -- No session is left under the alias, and the driver is not connected.
  pub record Gone (text : String) (driver : D) (lib : Library F D W) : Type 0 where
    pub no_session : find (casefold text) lib.manager.sessions ≡ none
    pub not_connected : is_connected driver lib.manager.world ≡ false

  -- The alias names a session with this driver, under its own key.
  pub record Named (text : String) (driver : D) (d : List (Key × DmmSession D (Details F) W))
      : Type 0 where
    pub session : DmmSession D (Details F) W
    pub found : find (casefold text) d ≡ some session
    pub keyed : casefold session.alias ≡ casefold text
    pub driver_of : session.driver ≡ driver

  relabelled-Named :
      (text : String) (driver : D) (lib : Library F D W)
      (n : Named text driver lib.manager.sessions) (change : Details F → Details F)
      → Named text driver (relabelled n.session change lib).manager.sessions
  relabelled-Named text driver lib n change =
      let s : DmmSession D (Details F) W = record n.session {
        details = change n.session.details;
      } in
      record {
        session = s;
        found =
            ap (λ k. find (casefold text) (put k s lib.manager.sessions)) n.keyed
            ∙ find-put (casefold text) s lib.manager.sessions;
        keyed = n.keyed;
        driver_of = n.driver_of;
      }

  assured-Named :
      (p : Result (Unit {0}) × W) (text : String) (driver : D) (lib : Library F D W)
      (n : Named text driver lib.manager.sessions) (timeout : F) (terminal : Option String)
      → Named text driver
          (assured drivers makers p n.session timeout terminal lib).1.manager.sessions
  assured-Named (err e, w) text driver lib n timeout terminal = n
  assured-Named (ok _, w) text driver lib n timeout none =
      relabelled-Named text driver lib n (λ i. record i { timeout_s = timeout })
  assured-Named (ok _, w) text driver lib n timeout (some name) =
      relabelled-Named text driver lib n (λ i. record i { timeout_s = timeout })

  ensure_session-Named :
      (text : String) (driver : D) (lib : Library F D W)
      (n : Named text driver lib.manager.sessions) (timeout : Option F) (policy : Option P)
      (terminal : Option String)
      → Named text driver
          (ensure_session drivers makers n.session timeout policy terminal lib).1.manager.sessions
  ensure_session-Named text driver lib n none policy terminal = n
  ensure_session-Named text driver lib n (some timeout) none terminal = n
  ensure_session-Named text driver lib n (some timeout) (some policy) terminal =
      assured-Named (makers.apply_policy n.session.driver policy lib.manager.world) text driver lib
        n timeout terminal

  ensure_policy-Named :
      (q : Request F P) (text : String) (driver : D) (lib : Library F D W)
      → normalize_alias q.alias ≡ ok text
      → Named text driver lib.manager.sessions
      → Named text driver (ensure_policy drivers makers q lib).1.manager.sessions
  unfolding ensure_policy
  ensure_policy-Named q text driver lib e n =
      subst
        (λ (r : Result (DmmSession D (Details F) W)).
          Named text driver
            (elim r as (λ _. Answer (Unit {0}) × Library F D W) [
              | err x ↦ (untranslated x, lib)
              | ok s ↦ ensure_session drivers makers s q.timeout_s q.policy q.expected_terminal lib
            ]).1.manager.sessions)
        (sym (get-found q.alias text lib.manager n.session e n.found))
        (ensure_session-Named text driver lib n q.timeout_s q.policy q.expected_terminal)

  module _ (closes : (d : D) (w : W) → is_connected d (close_driver d w).1 ≡ false) where
    close-Gone :
        (q : Request F P) (text : String) (driver : D) (m : Manager F D W)
        → normalize_alias q.alias ≡ ok text
        → Named text driver m.sessions
        → let m' = (close close_driver (some q.alias) true m).1 in
          (find (casefold text) m'.sessions ≡ none) × (is_connected driver m'.world ≡ false)
    unfolding close forget
    close-Gone q text driver m e n =
        subst
          (λ o.
            let m' = (close_found close_driver o true m).1 in
            (find (casefold text) m'.sessions ≡ none) × (is_connected driver m'.world ≡ false))
          (sym (find_session-found q.alias text m n.session e n.found))
          (
            ap (λ k. find (casefold text) (remove k m.sessions)) n.keyed
                ∙ find-removed (casefold text) m.sessions,
            ap (λ d. is_connected driver (close_driver d m.world).1) n.driver_of
                ∙ closes driver m.world,
          )

    after_close-Gone :
        (p : Result Bool × Manager F D W) (failure : Answer (ConnectionState F)) (q : Request F P)
        (text : String) (driver : D) (lib : Library F D W)
        → (find (casefold text) p.1.sessions ≡ none) × (is_connected driver p.1.world ≡ false)
        → Gone text driver (after_close drivers makers p failure q lib).1
    after_close-Gone (ok _, m) failure q text driver lib (a, b) = record {
      no_session = a;
      not_connected = b;
    }
    after_close-Gone (err x, m) failure q text driver lib (a, b) = record {
      no_session = a;
      not_connected = b;
    }

    given_up-Gone :
        (failure : Answer (ConnectionState F)) (q : Request F P) (text : String) (driver : D)
        (lib : Library F D W)
        → normalize_alias q.alias ≡ ok text
        → Named text driver lib.manager.sessions
        → Gone text driver (given_up drivers makers failure q lib).1
    unfolding given_up
    given_up-Gone failure q text driver lib e n =
        after_close-Gone (close close_driver (some q.alias) true lib.manager) failure q text driver
          lib (close-Gone q text driver lib.manager e n)

    finished-Gone :
        (p : Answer (Unit {0}) × Library F D W) (state : ConnectionState F) (q : Request F P)
        (text : String) (driver : D)
        → normalize_alias q.alias ≡ ok text
        → Named text driver p.1.manager.sessions
        → (p.0 ≡ done tt) ⊎ Gone text driver (finished drivers makers state q p).1
    finished-Gone (done _, lib) state q text driver e n = inl refl
    finished-Gone (robot c, lib) state q text driver e n =
        inr (given_up-Gone (robot c) q text driver lib e n)
    finished-Gone (assertion_failed, lib) state q text driver e n =
        inr (given_up-Gone assertion_failed q text driver lib e n)
    finished-Gone (untranslated x, lib) state q text driver e n =
        inr (given_up-Gone (untranslated x) q text driver lib e n)

    legacy-Ensured :
        (p : Answer (ConnectionState F) × Library F D W) (q : Request F P) (text : String)
        (driver : D) (state : ConnectionState F)
        → p.0 ≡ done state
        → normalize_alias q.alias ≡ ok text
        → Named text driver p.1.manager.sessions
        → ((ensure_policy drivers makers q p.1).0 ≡ done tt)
          ⊎ Gone text driver (with_legacy drivers makers q p).1
    legacy-Ensured (done st, lib) q text driver state h e n =
        finished-Gone (ensure_policy drivers makers q lib) st q text driver e
          (ensure_policy-Named q text driver lib e n)
    legacy-Ensured (robot c, lib) q text driver state h e n = cc
    legacy-Ensured (assertion_failed, lib) q text driver state h e n = cc
    legacy-Ensured (untranslated x, lib) q text driver state h e n = cc

    -- Where an alias is connected at all, Connect either has applied the policy and found the expected
    -- terminal, or leaves no session under the alias, and its driver not connected.
    pub connect-Ensured :
        (q : Request F P) (lib : Library F D W) (resource text : String) (driver : D)
        (state : ConnectionState F)
        → selected_resource q ≡ some resource
        → (legacy_connect drivers makers resource q lib).0 ≡ done state
        → normalize_alias q.alias ≡ ok text
        → Named text driver (legacy_connect drivers makers resource q lib).1.manager.sessions
        → ((ensure_policy drivers makers q (legacy_connect drivers makers resource q lib).1).0
            ≡ done tt)
          ⊎ Gone text driver (connect drivers makers q lib).1
    unfolding connect
    connect-Ensured q lib resource text driver state chosen h e n =
        subst
          (λ r.
            ((ensure_policy drivers makers q (legacy_connect drivers makers resource q lib).1).0
              ≡ done tt)
            ⊎ Gone text driver
                (elim r as (λ _. Answer (ConnectionState F) × Library F D W) [
                  | none ↦ (robot driver_validation_error, lib)
                  | some x ↦ with_legacy drivers makers q (legacy_connect drivers makers x q lib)
                ]).1)
          (sym chosen)
          (legacy-Ensured (legacy_connect drivers makers resource q lib) q text driver state h e n)
