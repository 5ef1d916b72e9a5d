-- ===== src/Evidence/Folder/Found.antt =====
-- Where the files of a run are found on the disk.
use hp34401a_driver.Base.{
  ℕ, Bool, true, false, not, ◌&&◌, Option, none, some, List, [], ◌∷◌, ◌++◌, map, All, ◌≡◌, refl, ap,
  arith, All-zip, if◌then◌else◌,
}
use hp34401a_driver.Base.Dict.{Key, same_key, same_key_refl, find}
use hp34401a_driver.Evidence.Records.{Run}
use hp34401a_driver.Evidence.Validate.{Entry}
use hp34401a_driver.Evidence.Folder.{Content, table, present, stored, manifest_table}

-- No path stands twice.
abbrev Fresh : {V : Type 0} → Key → List (Key × V) → Type 0
Fresh path d = All (λ e. same_key e.0 path ≡ false) d

abbrev Distinct : {V : Type 0} → List (Key × V) → Type 0
Distinct [] = Unit
Distinct ((path, v) ∷ more) = Fresh path more × Distinct more

abbrev is_fresh : {V : Type 0} → Key → List (Key × V) → Bool
is_fresh path [] = true
is_fresh path ((k, v) ∷ more) = not (same_key k path) && is_fresh path more

abbrev are_distinct : {V : Type 0} → List (Key × V) → Bool
are_distinct [] = true
are_distinct ((path, v) ∷ more) = is_fresh path more && are_distinct more

is_fresh-Fresh :
    {V : Type 0} (path : Key) (d : List (Key × V)) → is_fresh path d ≡ true → Fresh path d
is_fresh-Fresh path [] h = tt
is_fresh-Fresh path ((k, v) ∷ more) h =
    (ground (arith, h), is_fresh-Fresh path more (ground (arith, h)))

are_distinct-Distinct : {V : Type 0} (d : List (Key × V)) → are_distinct d ≡ true → Distinct d
are_distinct-Distinct [] h = tt
are_distinct-Distinct ((path, v) ∷ more) h =
    (is_fresh-Fresh path more (ground (arith, h)), are_distinct-Distinct more (ground (arith, h)))

module _ {F : Type 0} where
  present-Fresh :
      (path : Key) (t : List (Key × Option (Content F))) → Fresh path t → Fresh path (present t)
  present-Fresh path [] h = tt
  present-Fresh path ((k, none) ∷ more) (h, hs) = present-Fresh path more hs
  present-Fresh path ((k, some c) ∷ more) (h, hs) = (h, present-Fresh path more hs)

  present-Distinct : (t : List (Key × Option (Content F))) → Distinct t → Distinct (present t)
  present-Distinct [] h = tt
  present-Distinct ((k, none) ∷ more) (h, hs) = present-Distinct more hs
  present-Distinct ((k, some c) ∷ more) (h, hs) = (present-Fresh k more h, present-Distinct more hs)

  pub present-append :
      (t u : List (Key × Option (Content F))) → present (t ++ u) ≡ present t ++ present u
  present-append [] u = refl
  present-append ((k, none) ∷ more) u = present-append more u
  present-append ((k, some c) ∷ more) u = ap (λ d. (k, c) ∷ d) (present-append more u)

  pub full-Distinct :
      (r : Run F) (es : List Entry) → Distinct (present (table r ++ manifest_table (some es)))
  full-Distinct r es =
      present-Distinct (table r ++ manifest_table (some es))
        (are_distinct-Distinct (table r ++ manifest_table (some es)) refl)

  -- Each file is found under its own path.
  abbrev pub Found :
      (Content F → ℕ) → (Content F → Key) → List (Key × Content F) → Key × Content F → Type 0
  Found l h d e = find e.0 (map (stored l h) d) ≡ some (stored l h e).1

  Found-below :
      (l : Content F → ℕ) (h : Content F → Key) (d : List (Key × Content F)) (o e : Key × Content F)
      → same_key e.0 o.0 ≡ false
      → Found l h d e
      → Found l h (o ∷ d) e
  unfolding find
  Found-below l h d o e fresh found = rw fresh found

  pub Distinct-Found :
      (l : Content F → ℕ) (h : Content F → Key) (d : List (Key × Content F))
      → Distinct d
      → All (Found l h d) d
  unfolding find
  Distinct-Found l h [] x = tt
  Distinct-Found l h ((k, c) ∷ more) (fresh, x) = (
    rw (same_key_refl k) refl,
    All-zip _ _ (Found l h ((k, c) ∷ more)) (Found-below l h more (k, c)) more fresh
        (Distinct-Found l h more x),
  )

  found_step :
      {A : Type 0} (g : Content F → A) (q : Bool) (b c : Content F)
      (o : Option (Option (Content F))) (x : Option A)
      → (if q then some (some b) else o) ≡ some (some c)
      → (o ≡ some (some c) → x ≡ some (g c))
      → (if q then some (g b) else x) ≡ some (g c)
  found_step g true b c o x e h = let same : b ≡ c = cc in ap (λ y. some (g y)) same
  found_step g false b c o x e h = h e

  pub missing_step :
      (q : Bool) (c : Content F) (o : Option (Option (Content F)))
      → (if q then some none else o) ≡ some (some c)
      → o ≡ some (some c)
  missing_step true c o e = ground (arith, e)
  missing_step false c o e = e

  -- What the table has at a path is found on the disk.
  pub find-present :
      (l : Content F → ℕ) (h : Content F → Key) (k : Key) (c : Content F)
      (t : List (Key × Option (Content F)))
      → find k t ≡ some (some c)
      → find k (map (stored l h) (present t)) ≡ some (stored l h (k, c)).1
  unfolding find
  find-present l h k c [] e = ground (arith, e)
  find-present l h k c ((j, none) ∷ more) e =
      find-present l h k c more (missing_step (same_key k j) c (find k more) e)
  find-present l h k c ((j, some b) ∷ more) e =
      found_step (λ b. (stored l h (k, b)).1) (same_key k j) b c (find k more)
        (find k (map (stored l h) (present more))) e (find-present l h k c more)
