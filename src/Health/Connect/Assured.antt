-- ===== src/Health/Connect/Assured.antt =====
-- What Connect has done to the driver of a session that it leaves open.
use mathlib.Core.Path.{subst}
use hp34401a_driver.Base.{
  String, false, Option, none, some, ◌≡◌, refl, sym, ap, ◌⊎◌, inl, inr, arith,
}
use hp34401a_driver.Errors.{Result, ok, err}
use hp34401a_driver.Sessions.{normalize_alias, DmmSession}
use hp34401a_driver.Keywords.{
  Answer, done, robot, assertion_failed, untranslated, driver_validation_error,
}
use hp34401a_driver.Health.{Drivers, Details, ConnectionState, Library}
use hp34401a_driver.Health.State.{get_connection_state, state_without_cache}
use hp34401a_driver.Sessions.Found.{get-found}
use hp34401a_driver.Health.Connect.{
  Request, Makers, assured, ensure_session, selected_resource, legacy_connect, ensure_policy,
  finished, with_legacy, connect,
}
use hp34401a_driver.Health.Connect.Ensured.{Gone, Named, connect-Ensured}

module _ {F D W P : Type 0} (drivers : Drivers D W) (makers : Makers F D W P) where
  open drivers use {close_driver, is_connected}
  open makers use {apply_policy, require_terminal}

  -- The expected terminal was required of the driver and found, if one is expected.
  pub data Found (driver : D) (before : W) : Option String → W → Type 0 where
    not_asked : Found driver before none before
    reported :
        (name : String) (after : W)
        → require_terminal name driver before ≡ (done tt, after)
        → Found driver before (some name) after

  -- The policy of the request was applied to the driver, and then its terminal found.
  pub record Assured (driver : D) (policy : Option P) (terminal : Option String) (before after : W)
      : Type 0 where
    pub given : P
    pub is_given : policy ≡ some given
    pub middle : W
    pub applied : apply_policy driver given before ≡ (ok tt, middle)
    pub found : Found driver middle terminal after

  terminal-Assured :
      (driver : D) (policy : P) (name : String) (before middle : W) (p : Answer (Unit {0}) × W)
      → apply_policy driver policy before ≡ (ok tt, middle)
      → require_terminal name driver middle ≡ p
      → p.0 ≡ done tt
      → Assured driver (some policy) (some name) before p.1
  terminal-Assured driver policy name before middle (done _, w) e k h = record {
    given = policy;
    is_given = refl;
    middle = middle;
    applied = e;
    found = reported name w k;
  }
  terminal-Assured driver policy name before middle (robot c, w) e k h = cc
  terminal-Assured driver policy name before middle (assertion_failed, w) e k h = cc
  terminal-Assured driver policy name before middle (untranslated x, w) e k h = cc

  assured-Assured :
      (p : Result (Unit {0}) × W) (s : DmmSession D (Details F) W) (policy : P) (timeout : F)
      (terminal : Option String) (lib : Library F D W)
      → apply_policy s.driver policy lib.manager.world ≡ p
      → let q = assured drivers makers p s timeout terminal lib in
        q.0 ≡ done tt → Assured s.driver (some policy) terminal lib.manager.world q.1.manager.world
  assured-Assured (err e, w) s policy timeout terminal lib a h = cc
  assured-Assured (ok _, w) s policy timeout none lib a h = record {
    given = policy;
    is_given = refl;
    middle = w;
    applied = a;
    found = not_asked;
  }
  assured-Assured (ok _, w) s policy timeout (some name) lib a h =
      terminal-Assured s.driver policy name lib.manager.world w (require_terminal name s.driver w) a
        refl h

  ensure_session-Assured :
      (s : DmmSession D (Details F) W) (timeout : Option F) (policy : Option P)
      (terminal : Option String) (lib : Library F D W)
      → let q = ensure_session drivers makers s timeout policy terminal lib in
        q.0 ≡ done tt → Assured s.driver policy terminal lib.manager.world q.1.manager.world
  ensure_session-Assured s none policy terminal lib h = cc
  ensure_session-Assured s (some timeout) none terminal lib h = cc
  ensure_session-Assured s (some timeout) (some policy) terminal lib h =
      assured-Assured (apply_policy s.driver policy lib.manager.world) s policy timeout terminal lib
        refl h

  ensure_policy-Assured :
      (q : Request F P) (text : String) (driver : D) (lib : Library F D W)
      → normalize_alias q.alias ≡ ok text
      → Named drivers makers text driver lib.manager.sessions
      → (ensure_policy drivers makers q lib).0 ≡ done tt
      → Assured driver q.policy q.expected_terminal lib.manager.world
          (ensure_policy drivers makers q lib).1.manager.world
  unfolding ensure_policy
  ensure_policy-Assured q text driver lib e n =
      subst
        (λ (r : Result (DmmSession D (Details F) W)).
          let x = elim r as (λ _. Answer (Unit {0}) × Library F D W) [
            | err y ↦ (untranslated y, lib)
            | ok s ↦ ensure_session drivers makers s q.timeout_s q.policy q.expected_terminal lib
          ] in
          x.0 ≡ done tt
          → Assured driver q.policy q.expected_terminal lib.manager.world x.1.manager.world)
        (sym (get-found q.alias text lib.manager n.session e n.found))
        (λ h.
          subst
            (λ d.
              Assured d q.policy q.expected_terminal lib.manager.world
                (ensure_session drivers makers n.session q.timeout_s q.policy q.expected_terminal
                  lib).1.manager.world)
            n.driver_of
            (ensure_session-Assured n.session q.timeout_s q.policy q.expected_terminal lib h))

  -- A look at the state without a refresh asks no driver.
  unrefreshed_world :
      (alias : Option String) (lib : Library F D W)
      → (get_connection_state drivers alias false lib).1.manager.world ≡ lib.manager.world
  unfolding get_connection_state state_without_cache
  unrefreshed_world alias lib = ground arith

  finished_world :
      (p : Answer (Unit {0}) × Library F D W) (state : ConnectionState F) (q : Request F P)
      → p.0 ≡ done tt
      → (finished drivers makers state q p).1.manager.world ≡ p.1.manager.world
  finished_world (done _, lib) state q h = unrefreshed_world (some q.alias) _
  finished_world (robot c, lib) state q h = cc
  finished_world (assertion_failed, lib) state q h = cc
  finished_world (untranslated e, lib) state q h = cc

  with_legacy-Assured :
      (p : Answer (ConnectionState F) × Library F D W) (q : Request F P) (text : String)
      (driver : D) (state : ConnectionState F)
      → p.0 ≡ done state
      → normalize_alias q.alias ≡ ok text
      → Named drivers makers text driver p.1.manager.sessions
      → (ensure_policy drivers makers q p.1).0 ≡ done tt
      → Assured driver q.policy q.expected_terminal p.1.manager.world
          (with_legacy drivers makers q p).1.manager.world
  with_legacy-Assured (done st, lib) q text driver state h e n k =
      subst (Assured driver q.policy q.expected_terminal lib.manager.world)
        (sym (finished_world (ensure_policy drivers makers q lib) st q k))
        (ensure_policy-Assured q text driver lib e n k)
  with_legacy-Assured (robot c, lib) q text driver state h e n k = cc
  with_legacy-Assured (assertion_failed, lib) q text driver state h e n k = cc
  with_legacy-Assured (untranslated x, lib) q text driver state h e n k = cc

  connect_chosen :
      (q : Request F P) (lib : Library F D W) (resource : String)
      → selected_resource q ≡ some resource
      → connect drivers makers q lib
        ≡ with_legacy drivers makers q (legacy_connect drivers makers resource q lib)
  unfolding connect
  connect_chosen q lib resource chosen =
      ap
        (λ o. elim o as (λ _. Answer (ConnectionState F) × Library F D W) [
          | none ↦ (robot driver_validation_error, lib)
          | some x ↦ with_legacy drivers makers q (legacy_connect drivers makers x q lib)
        ])
        chosen

  -- Where drivers are not connected after `close`, and connecting came to a session that stands under
  -- the key of its alias: Connect either has applied the policy of the request to the driver of that
  -- session, without an exception, and then required the expected terminal of it and found it, and
  -- did nothing more to it; or it leaves no session under the alias, and the driver not connected.
  pub connect-Assured :
      ((d : D) (w : W) → is_connected d (close_driver d w).1 ≡ false)
      → (q : Request F P) (lib : Library F D W) (resource text : String) (driver : D)
        (state : ConnectionState F)
      → selected_resource q ≡ some resource
      → (legacy_connect drivers makers resource q lib).0 ≡ done state
      → normalize_alias q.alias ≡ ok text
      → Named drivers makers text driver
          (legacy_connect drivers makers resource q lib).1.manager.sessions
      → Assured driver q.policy q.expected_terminal
          (legacy_connect drivers makers resource q lib).1.manager.world
          (connect drivers makers q lib).1.manager.world
        ⊎ Gone drivers makers text driver (connect drivers makers q lib).1
  connect-Assured closes q lib resource text driver state chosen h e n =
      elim (connect-Ensured drivers makers closes q lib resource text driver state chosen h e n) [
        | inr gone ↦ inr gone
        | inl good ↦ inl (
            subst
              (λ (x : Answer (ConnectionState F) × Library F D W).
                Assured driver q.policy q.expected_terminal
                  (legacy_connect drivers makers resource q lib).1.manager.world x.1.manager.world)
              (sym (connect_chosen q lib resource chosen))
              (with_legacy-Assured (legacy_connect drivers makers resource q lib) q text driver
                state h e n good))
      ]
