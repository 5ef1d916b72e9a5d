-- ===== src/Base/Dict.antt =====
-- Python's dict with texts as keys, in the order of insertion.
use Prim.Native.Nat.{ℕ}
use mathlib.Core.Path.{◌≡◌, refl}
use mathlib.Core.Bool.{Bool, true, false, ◌&&◌}
use mathlib.Core.Option.{Option, none, some}
use mathlib.Core.List.{List, [], ◌∷◌}
use mathlib.Core.Logic.{inl, inr}
use native.Mathlib.Omega.{arith}
use hp34401a_driver.Base.Tests.{◌==◌, if◌then◌else◌, Bool-cases}

-- The character codes of a text.
abbrev pub Key : Type 0
Key = List ℕ

abbrev pub same_key : Key → Key → Bool
same_key [] [] = true
same_key (a ∷ more) (b ∷ rest) = a == b && same_key more rest
same_key _ _ = false

pub same_key_refl : (a : Key) → same_key a a ≡ true
same_key_refl [] = refl
same_key_refl (x ∷ xs) = ground (arith, same_key_refl xs)

pub same_key-eq : (a b : Key) → same_key a b ≡ true → a ≡ b
same_key-eq [] [] h = refl
same_key-eq (a ∷ more) (b ∷ rest) h = ground (arith, same_key-eq more rest)
same_key-eq [] (b ∷ rest) h = ground arith
same_key-eq (a ∷ more) [] h = ground arith

module _ {V : Type 0} where
  -- `d.get(key)`
  unfoldable pub find : Key → List (Key × V) → Option V
  find key [] = none
  find key ((k, v) ∷ rest) = if same_key key k then some v else find key rest

  -- `d[key] = value`
  unfoldable pub put : Key → V → List (Key × V) → List (Key × V)
  put key value [] = (key, value) ∷ []
  put key value ((k, v) ∷ rest) =
      let later = put key value rest in if same_key key k then (k, value) ∷ rest else (k, v) ∷ later

  -- `d.pop(key, None)`
  unfoldable pub remove : Key → List (Key × V) → List (Key × V)
  remove key [] = []
  remove key ((k, v) ∷ rest) =
      let later = remove key rest in if same_key key k then later else (k, v) ∷ later

  pub find-put :
      (key : Key) (value : V) (d : List (Key × V)) → find key (put key value d) ≡ some value
  unfolding find put
  find-put key value [] = rw (same_key_refl key) refl
  find-put key value ((k, v) ∷ rest) = elim (Bool-cases (same_key key k)) [
    | inl e ↦ rw (e, e) refl
    | inr e ↦ rw (e, e) (find-put key value rest)
  ]

  -- A key that is not the one put is found as before.
  pub find-put_other :
      (key other : Key) (value : V) (d : List (Key × V))
      → same_key other key ≡ false
      → find other (put key value d) ≡ find other d
  unfolding find put
  find-put_other key other value [] h = rw h refl
  find-put_other key other value ((k, v) ∷ rest) h =
      ground
        (arith, find-put_other key other value rest h, same_key-eq key k, same_key-eq other k, h)

  -- A key that is not the removed one stays.
  pub find-remove :
      (key other : Key) (d : List (Key × V))
      → same_key other key ≡ false
      → find other (remove key d) ≡ find other d
  unfolding find remove
  find-remove key other [] h = refl
  find-remove key other ((k, v) ∷ rest) h =
      ground (arith, find-remove key other rest h, same_key-eq key k, same_key-eq other k, h)

  pub find-removed : (key : Key) (d : List (Key × V)) → find key (remove key d) ≡ none
  unfolding find remove
  find-removed key [] = refl
  find-removed key ((k, v) ∷ rest) = ground (arith, find-removed key rest, same_key-eq key k)
