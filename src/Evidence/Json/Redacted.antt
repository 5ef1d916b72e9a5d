-- ===== src/Evidence/Json/Redacted.antt =====
-- What redaction leaves of a value: no credential, and all that is not one.
use hp34401a_driver.Base.{Bool, true, false, ◌≡◌, refl, sym, ap, if◌then◌else◌}
use hp34401a_driver.Evidence.Json.{
  Value, null, bool, int, float, text, mapping, items, enum_member, dataclass, opaque, Items, nil,
  item, Fields, end, field, looks_sensitive, redacted, json_default, json_safe, json_safe_items,
  redact_mapping,
}

-- What stands under a key: the mark, if the key looks like a credential.
abbrev Under : {F : Type 0} → Bool → Value F → Type 0 → Type 0
Under true v otherwise = v ≡ redacted
Under false v otherwise = otherwise

-- Plain JSON in which every key that looks like a credential holds the mark.
unfoldable mutual
  IsClean : {F : Type 0} → Value F → Type 0
  IsClean (mapping fs) = AreClean fs
  IsClean (items xs) = AllClean xs
  IsClean (enum_member v) = ⊥
  IsClean (dataclass fs) = ⊥
  IsClean (opaque s) = ⊥
  IsClean v = Unit

  AllClean : {F : Type 0} → Items F → Type 0
  AllClean nil = Unit
  AllClean (item x xs) = IsClean x × AllClean xs

  pub AreClean : {F : Type 0} → Fields F → Type 0
  AreClean end = Unit
  AreClean (field k v fs) = Under (looks_sensitive k) v (IsClean v) × AreClean fs

abbrev IsScalar : {F : Type 0} → Value F → Type 0
IsScalar null = Unit
IsScalar (bool b) = Unit
IsScalar (int n) = Unit
IsScalar (float x) = Unit
IsScalar (text s) = Unit
IsScalar v = ⊥

-- No dataclass in it, and no enumeration whose values are more than scalars.
unfoldable mutual
  pub IsPlain : {F : Type 0} → Value F → Type 0
  IsPlain (mapping fs) = ArePlain fs
  IsPlain (items xs) = AllPlain xs
  IsPlain (enum_member v) = IsScalar v
  IsPlain (dataclass fs) = ⊥
  IsPlain v = Unit

  AllPlain : {F : Type 0} → Items F → Type 0
  AllPlain nil = Unit
  AllPlain (item x xs) = IsPlain x × AllPlain xs

  pub ArePlain : {F : Type 0} → Fields F → Type 0
  ArePlain end = Unit
  ArePlain (field k v fs) = IsPlain v × ArePlain fs

module _ {F : Type 0} where
  IsScalar-IsClean : (v : Value F) → IsScalar v → IsClean v
  unfolding IsClean
  IsScalar-IsClean null h = tt
  IsScalar-IsClean (bool b) h = tt
  IsScalar-IsClean (int n) h = tt
  IsScalar-IsClean (float x) h = tt
  IsScalar-IsClean (text s) h = tt
  IsScalar-IsClean (mapping fs) h = absurd h
  IsScalar-IsClean (items xs) h = absurd h
  IsScalar-IsClean (enum_member v) h = absurd h
  IsScalar-IsClean (dataclass fs) h = absurd h
  IsScalar-IsClean (opaque s) h = absurd h

  under_mark :
      (b : Bool) (v : Value F)
      → IsClean v
      → Under b (if b then redacted else v) (IsClean (if b then redacted else v))
  under_mark true v h = refl
  under_mark false v h = h

  mutual
    unfolding json_safe IsClean IsPlain json_default

    safe-IsClean : (v : Value F) → IsPlain v → IsClean (json_safe v)
    safe-IsClean null h = tt
    safe-IsClean (bool b) h = tt
    safe-IsClean (int n) h = tt
    safe-IsClean (float x) h = tt
    safe-IsClean (text s) h = tt
    safe-IsClean (mapping fs) h = redact-AreClean fs h
    safe-IsClean (items xs) h = safe-AllClean xs h
    safe-IsClean (enum_member v) h = IsScalar-IsClean v h
    safe-IsClean (dataclass fs) h = absurd h
    safe-IsClean (opaque s) h = tt

    safe-AllClean : (xs : Items F) → AllPlain xs → AllClean (json_safe_items xs)
    safe-AllClean nil h = tt
    safe-AllClean (item x xs) (h, k) = (safe-IsClean x h, safe-AllClean xs k)

    redact-AreClean : (fs : Fields F) → ArePlain fs → AreClean (redact_mapping fs)
    redact-AreClean end h = tt
    redact-AreClean (field k v fs) (h, l) =
        (under_mark (looks_sensitive k) (json_safe v) (safe-IsClean v h), redact-AreClean fs l)

  kept_under :
      (b : Bool) (v w : Value F)
      → Under b v (IsClean v)
      → (IsClean v → w ≡ v)
      → (if b then redacted else w) ≡ v
  kept_under true v w h k = sym h
  kept_under false v w h k = k h

  mutual
    unfolding json_safe IsClean json_default

    safe_kept : (v : Value F) → IsClean v → json_safe v ≡ v
    safe_kept null h = refl
    safe_kept (bool b) h = refl
    safe_kept (int n) h = refl
    safe_kept (float x) h = refl
    safe_kept (text s) h = refl
    safe_kept (mapping fs) h = ap mapping (redact_kept fs h)
    safe_kept (items xs) h = ap items (safe_items_kept xs h)
    safe_kept (enum_member v) h = absurd h
    safe_kept (dataclass fs) h = absurd h
    safe_kept (opaque s) h = absurd h

    safe_items_kept : (xs : Items F) → AllClean xs → json_safe_items xs ≡ xs
    safe_items_kept nil h = refl
    safe_items_kept (item x xs) (h, k) = rw (safe_kept x h, safe_items_kept xs k) refl

    redact_kept : (fs : Fields F) → AreClean fs → redact_mapping fs ≡ fs
    redact_kept end h = refl
    redact_kept (field k v fs) (h, l) =
        rw (kept_under (looks_sensitive k) v (json_safe v) h (safe_kept v), redact_kept fs l) refl

  -- Of arguments without dataclasses, and with enumerations of scalars only, redaction leaves plain
  -- JSON in which each key that looks like a credential, at any depth, holds the mark and nothing else.
  pub redact_mapping-AreClean : (fs : Fields F) → ArePlain fs → AreClean (redact_mapping fs)
  redact_mapping-AreClean fs h = redact-AreClean fs h

  -- Redaction changes nothing in plain JSON whose credentials are marked already: no other key is
  -- touched, and what was redacted once stays as it is.
  redact_mapping_kept : (fs : Fields F) → AreClean fs → redact_mapping fs ≡ fs
  redact_mapping_kept fs h = redact_kept fs h

  redact_mapping_twice :
      (fs : Fields F) → ArePlain fs → redact_mapping (redact_mapping fs) ≡ redact_mapping fs
  redact_mapping_twice fs h = redact_kept (redact_mapping fs) (redact-AreClean fs h)
