-- ===== src/Sessions/Emptied.antt =====
-- `close_all` leaves no session, whichever drivers raise.
use mathlib.Core.Path.{subst}
use hp34401a_driver.Base.{
  true, List, [], ◌∷◌, ◌≡◌, refl, sym, Option, none, arith, any, All, All-imp, inl, inr, Bool-cases,
  if◌then◌else◌,
}
use hp34401a_driver.Errors.{Result}
use hp34401a_driver.Base.Dict.{Key, same_key, same_key_refl, remove}
use hp34401a_driver.Sessions.{DmmSession, SessionManager, close_each, close_all}

module _ {V : Type 0} where
  -- Every key of `d` is one of the list.
  abbrev Covers : List (Key × V) → List (Key × V) → Type 0
  Covers xs d = All (λ (e : Key × V). any (λ (x : Key × V). same_key x.0 e.0) xs ≡ true) d

  Covers-nil : (d : List (Key × V)) → Covers [] d → d ≡ []
  Covers-nil [] h = refl
  Covers-nil (e ∷ d) (h, hs) = cc

  Covers-cons : (x : Key × V) (xs d : List (Key × V)) → Covers xs d → Covers (x ∷ xs) d
  Covers-cons x xs d = All-imp _ _ (λ e h. ground (arith, h)) d

  Covers-self : (d : List (Key × V)) → Covers d d
  Covers-self [] = tt
  Covers-self (e ∷ d) = (rw (same_key_refl e.0) refl, Covers-cons e d d (Covers-self d))

  Covers-remove :
      (key : Key) (v : V) (xs d : List (Key × V))
      → Covers ((key, v) ∷ xs) d
      → Covers xs (remove key d)
  unfolding remove
  Covers-remove key v xs [] h = tt
  Covers-remove key v xs ((k, u) ∷ d) (h, hs) =
      let rest = Covers-remove key v xs d hs in
      elim (Bool-cases (same_key key k)) [
        | inl e ↦ rw e rest
        | inr e ↦
            subst (λ b. Covers xs (if b then remove key d else (k, u) ∷ remove key d)) (sym e)
              (ground (arith, h, e), rest)
      ]

module _ {D I W : Type 0} (close_driver : D → W → Result (Unit {0}) × W) where
  close_each-empties :
      (xs : List (Key × DmmSession D I W)) (m : SessionManager D I W)
      → Covers xs m.sessions
      → (close_each close_driver xs m).1.sessions ≡ []
  unfolding close_each
  close_each-empties [] m h = Covers-nil m.sessions h
  close_each-empties ((key, s) ∷ rest) m h =
      close_each-empties rest
        (record m { sessions = remove key m.sessions; world = (close_driver s.driver m.world).1 })
        (Covers-remove key s rest m.sessions h)

  pub close_all-empties : (m : SessionManager D I W) → (close_all close_driver m).1.sessions ≡ []
  unfolding close_all
  close_all-empties m = close_each-empties m.sessions m (Covers-self m.sessions)

  pub close_all-active : (m : SessionManager D I W) → (close_all close_driver m).1.active_key ≡ none
  unfolding close_all
  close_all-active m = refl

  -- With no session, it does nothing.
  pub close_all-nothing :
      (m : SessionManager D I W)
      → m.sessions ≡ []
      → m.active_key ≡ none
      → close_all close_driver m ≡ ([], m)
  unfolding close_all close_each
  close_all-nothing m h k =
      let with = λ (xs : List (Key × DmmSession D I W)) (a : Option Key). record m {
        sessions = xs;
        active_key = a;
      } in
      subst (λ xs. close_all close_driver (with xs m.active_key) ≡ ([], with xs m.active_key))
        (sym h) (subst (λ a. close_all close_driver (with [] a) ≡ ([], with [] a)) (sym k) refl)
