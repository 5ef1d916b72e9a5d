-- ===== src/Converters/Members.antt =====
-- The arguments of converters.py that name a member of an enumeration.
use hp34401a_driver.Base.{
  ℕ, some, List, [], ◌∷◌, ◌≡◌, refl, ◌↔◌, ◌⊎◌, inl, inr, Bool-cases, arith, if◌then◌else◌, String,
  leb, ◌&&◌,
}
use Prim.Native.Char.{code}
use mathlib.Core.Path.{subst}
use hp34401a_driver.Base.Text.{strip, upper, upper_code}
use hp34401a_driver.Base.Dict.{Key, same_key, same_key-eq, find}
use hp34401a_driver.Float.{Float}
use hp34401a_driver.Enums.{TriggerSource, immediate, bus, external, trigger_source_value}
use hp34401a_driver.Converters.{Arg, plain, str_of, trigger_names, as_trigger_source}

-- A dict gives a value at a key only where it lists the pair.
Lists : {V : Type 0} → Key → V → List (Key × V) → Type 0
Lists key v [] = ⊥
Lists key v ((k, x) ∷ rest) = ((key ≡ k) × (x ≡ v)) ⊎ Lists key v rest

find-Lists :
    {V : Type 0} (key : Key) (v : V) (d : List (Key × V)) → find key d ≡ some v → Lists key v d
unfolding find Lists
find-Lists key v [] h = grind arith
find-Lists key v ((k, x) ∷ rest) h = elim (Bool-cases (same_key key k)) [
  | inl e ↦ inl (same_key-eq key k e, ground (arith, h, e))
  | inr e ↦ inr (find-Lists key v rest (ground (arith, h, e)))
]

-- The short form of a keyword of SCPI: its capitals.
unfoldable pub capitals : String → List ℕ
capitals String.[] = []
capitals (String.◌∷◌ c s) =
    if leb b'A' (code c) && leb (code c) b'Z' then code c ∷ capitals s else capitals s

-- A text is the long or the short form of the SCPI keyword of a trigger source.
abbrev pub IsForm : Key → TriggerSource → Type 0
IsForm key m = (key ≡ upper (trigger_source_value m)) ⊎ (key ≡ capitals (trigger_source_value m))

listed_trigger : (key : Key) (m : TriggerSource) → Lists key m trigger_names → IsForm key m
unfolding Lists upper capitals upper_code
listed_trigger key m (inl (e, w)) = subst (IsForm key) w (inl e)
listed_trigger key m (inr (inl (e, w))) = subst (IsForm key) w (inr e)
listed_trigger key m (inr (inr (inl (e, w)))) = subst (IsForm key) w (inl e)
listed_trigger key m (inr (inr (inr (inl (e, w))))) = subst (IsForm key) w (inl e)
listed_trigger key m (inr (inr (inr (inr (inl (e, w)))))) = subst (IsForm key) w (inr e)
listed_trigger key m (inr (inr (inr (inr (inr x))))) = absurd x

form_found : (key : Key) (m : TriggerSource) → IsForm key m → find key trigger_names ≡ some m
unfolding find upper capitals upper_code
form_found key immediate (inl e) = rw e refl
form_found key immediate (inr e) = rw e refl
form_found key bus (inl e) = rw e refl
form_found key bus (inr e) = rw e refl
form_found key external (inl e) = rw e refl
form_found key external (inr e) = rw e refl

module _ (fl : Float) where
  -- A text is read as a trigger source exactly when, without the spaces around it and in capitals,
  -- it is the long or the short form of the keyword that the driver sends for that source.
  pub as_trigger_source-IsForm :
      (v : Arg fl.F) (m : TriggerSource)
      → as_trigger_source fl (plain v) ≡ some m ↔ IsForm (upper (strip (str_of fl v))) m
  unfolding as_trigger_source
  as_trigger_source-IsForm v m = (
    λ h. listed_trigger (upper (strip (str_of fl v))) m (find-Lists _ m trigger_names h),
    form_found (upper (strip (str_of fl v))) m,
  )
