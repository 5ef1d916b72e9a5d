-- ===== src/Evidence/Json.antt =====
-- hp34401a_dmm/evidence.py: what is written of a value, with the keys that look like credentials
-- redacted. Keys are texts; `opaque` is an object with the text that `_json_default` gives for it.
pub mod Redacted
use hp34401a_driver.Base.{ℕ, String, Bool, true, false, List, [], ◌∷◌, any, if◌then◌else◌}
use hp34401a_driver.Base.Int.{ℤ}
use hp34401a_driver.Base.Text.{codes, lower, contains}

mutual
  pub data Value (F : Type 0) : Type 0 where
    null : Value F
    bool : Bool → Value F
    int : ℤ → Value F
    float : F → Value F
    text : String → Value F
    mapping : Fields F → Value F
    items : Items F → Value F
    enum_member : Value F → Value F
    dataclass : Fields F → Value F
    opaque : String → Value F

  pub data Items (F : Type 0) : Type 0 where
    nil : Items F
    item : Value F → Items F → Items F

  pub data Fields (F : Type 0) : Type 0 where
    end : Fields F
    field : String → Value F → Fields F → Fields F

-- `_SENSITIVE_KEY_MARKERS`
abbrev sensitive_key_markers : List String
sensitive_key_markers =
    "password" ∷ "secret" ∷ "token" ∷ "api_key" ∷ "apikey" ∷ "credential" ∷ "auth" ∷ []

-- `_looks_sensitive`
unfoldable pub looks_sensitive : String → Bool
looks_sensitive key = any (λ marker. contains (codes marker) (lower key)) sensitive_key_markers

-- What stands for a credential.
abbrev pub redacted : {F : Type 0} → Value F
redacted = mapping (
    field "value" (text "<REDACTED>")
      (field "redacted" (bool true) (field "reason" (text "credential") end)))

-- `_json_default`: of a dataclass, `asdict` gives the fields as they are
pub json_default : {F : Type 0} → Value F → Value F
json_default (enum_member v) = v
json_default (dataclass fs) = mapping fs
json_default (opaque s) = text s
json_default v = v

-- `_json_safe`, and `redact_mapping`
unfoldable mutual
  unfolding json_default

  pub json_safe : {F : Type 0} → Value F → Value F
  json_safe null = null
  json_safe (bool b) = bool b
  json_safe (int n) = int n
  json_safe (float x) = float x
  json_safe (text s) = text s
  json_safe (mapping fs) = mapping (redact_mapping fs)
  json_safe (items xs) = items (json_safe_items xs)
  json_safe (enum_member v) = json_default (enum_member v)
  json_safe (dataclass fs) = json_default (dataclass fs)
  json_safe (opaque s) = json_default (opaque s)

  pub json_safe_items : {F : Type 0} → Items F → Items F
  json_safe_items nil = nil
  json_safe_items (item x xs) = item (json_safe x) (json_safe_items xs)

  pub redact_mapping : {F : Type 0} → Fields F → Fields F
  redact_mapping end = end
  redact_mapping (field k v fs) =
      let safe = json_safe v in
      field k (if looks_sensitive k then redacted else safe) (redact_mapping fs)
