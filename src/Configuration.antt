-- ===== src/Configuration.antt =====
-- rf_hp34401a/configuration.py: the effective configuration and the stored profiles. JSON values are
-- those of Evidence.Json. The check against the JSON schema, json.dumps and json.loads, and `str` of
-- a value are parameters, and so is the type `J` of JSON texts; a value that json.dumps refuses, the
-- lock of the schema file, the fingerprint and the export are left out.
pub mod Valid
use Prim.Native.Char.{code}
use Prim.Native.String.{◌++◌ as append}
use hp34401a_driver.Base.{
  ℕ, zero, suc, String, Bool, true, false, not, ◌&&◌, ◌||◌, Option, none, some, List, [], ◌∷◌,
  if◌then◌else◌, leb, ltb, ◌==◌, is_some,
}
use hp34401a_driver.Base.Text.{codes, strip, is_empty}
use hp34401a_driver.Base.Dict.{Key, same_key, find, put, remove}
use hp34401a_driver.Errors.{other}
use hp34401a_driver.Evidence.Json.{Value, text, mapping, Fields, end, field}
use hp34401a_driver.Keywords.Readings.{then_answer}
use hp34401a_driver.Keywords.{
  Answer, done, robot, assertion_failed, untranslated, driver_validation_error,
  driver_configuration_error,
}

-- `char in allowed` of `_safe_profile_name`
abbrev is_allowed : ℕ → Bool
is_allowed c =
    leb b'a' c && leb c b'z'
    || leb b'A' c && leb c b'Z'
    || leb b'0' c && leb c b'9'
    || c == b'_'
    || c == b'.'
    || c == b'-'

abbrev all_allowed : String → Bool
all_allowed String.[] = true
all_allowed (String.◌∷◌ c s) = is_allowed (code c) && all_allowed s

abbrev text_length : String → ℕ
text_length String.[] = 0
text_length (String.◌∷◌ c s) = suc (text_length s)

abbrev is_hidden : String → Bool
is_hidden String.[] = false
is_hidden (String.◌∷◌ c s) = code c == b'.'

-- `_safe_profile_name`
unfoldable pub safe_profile_name : String → Answer String
unfolding strip
safe_profile_name name =
    let s = strip name in
    if is_empty s || ltb 64 (text_length s)
    then robot driver_validation_error
    else if is_hidden s
    then robot driver_validation_error
    else if not (all_allowed s)
    then robot driver_validation_error
    else done s

pub data Source : Type 0 where
  package_default runtime_import : Source

-- What `import_json` is given: a mapping, a text of JSON, or the text of an existing file.
pub data ImportSource (F J : Type 0) : Type 0 where
  document : Fields F → ImportSource F J
  json_text : J → ImportSource F J
  file_text : J → ImportSource F J

-- What json.loads makes of a text.
pub data Loaded (F : Type 0) : Type 0 where
  broken : Loaded F
  no_object : Loaded F
  object : Fields F → Loaded F

-- `d.get(key)` and `d[key] = value`
abbrev pub get_field : {F : Type 0} → String → Fields F → Option (Value F)
get_field key end = none
get_field key (field k v fs) =
    let rest = get_field key fs in if same_key (codes key) (codes k) then some v else rest

abbrev pub set_field : {F : Type 0} → String → Value F → Fields F → Fields F
set_field key v end = field key v end
set_field key v (field k w fs) =
    let rest = set_field key v fs in
    if same_key (codes key) (codes k) then field k v fs else field k w rest

-- `_source_map`, into the dict of the sources so far
unfoldable mutual
  source_of : {F : Type 0} → Source → String → Value F → List (Key × Source) → List (Key × Source)
  source_of source path (mapping fs) acc = source_map source path fs acc
  source_of source path v acc = put (codes path) source acc

  pub source_map :
      {F : Type 0} → Source → String → Fields F → List (Key × Source) → List (Key × Source)
  source_map source prefix end acc = acc
  source_map source prefix (field k v fs) acc =
      source_map source prefix fs (source_of source (append prefix (append "." k)) v acc)

-- `document.get("settings", {})`
abbrev pub settings_of : {F : Type 0} → Fields F → Fields F
settings_of d = elim (get_field "settings" d) [ some (mapping fs) ↦ fs | _ ↦ end ]

abbrev pub sources_of : {F : Type 0} → Source → Fields F → List (Key × Source)
sources_of source d = source_map source "settings" (settings_of d) []

-- The library around the manager: its default document and the code that it calls.
pub record Library (F J : Type 0) : Type 0 where
  pub default : Fields F
  -- no error of Draft202012Validator
  pub schema_valid : Fields F → Bool
  pub loads : J → Loaded F
  pub dumps : Fields F → J
  pub str : Value F → String

-- The manager, with the profile files by their names.
pub record Manager (F J : Type 0) : Type 0 where
  pub effective : Fields F
  pub sources : List (Key × Source)
  pub profiles : List (Key × J)

-- What follows a step that may raise.
abbrev pub on_done :
    {F J A B : Type 0}
    → Answer A
    → Manager F J
    → (A → Answer B × Manager F J)
    → Answer B × Manager F J
on_done (done a) m f = f a
on_done (robot c) m f = (robot c, m)
on_done assertion_failed m f = (assertion_failed, m)
on_done (untranslated e) m f = (untranslated e, m)

module _ {F J : Type 0} (lib : Library F J) where
  open lib use {default, schema_valid, loads, dumps, str}

  abbrev pub initial : List (Key × J) → Manager F J
  initial files = record {
    effective = default;
    sources = sources_of package_default default;
    profiles = files;
  }

  -- `data.get(key) != expected`, negated
  abbrev is_text : Option (Value F) → String → Bool
  is_text (some (text s)) expected = same_key (codes s) (codes expected)
  is_text _ expected = false

  abbrev name_of : Option (Value F) → String
  name_of none = ""
  name_of (some v) = str v

  -- The name of a profile that is an object is checked.
  abbrev pub checked_profile : Option (Value F) → Fields F → Answer (Fields F)
  checked_profile (some (mapping fs)) d =
      then_answer (safe_profile_name (name_of (get_field "name" fs))) (λ s. done d)
  checked_profile _ d = done d

  unfoldable pub validate : Fields F → Answer (Fields F)
  validate d =
      if not (schema_valid d)
      then robot driver_validation_error
      else if not (is_text (get_field "rfds014_version" d) "1.0")
      then robot driver_validation_error
      else if not (is_text (get_field "schema_id" d) "rf_hp34401a.configuration")
      then robot driver_validation_error
      else if not (is_text (get_field "schema_version" d) "1.0.0")
      then robot driver_validation_error
      else checked_profile (get_field "profile" d) d

  -- The result is the document; `effective(include_sources=True)` adds the sources to a copy.
  abbrev pub adopt : Manager F J → Fields F → Answer (Fields F) × Manager F J
  adopt m d = (done d, record m { effective = d; sources = sources_of runtime_import d })

  pub apply : Fields F → Manager F J → Answer (Fields F) × Manager F J
  apply d m = on_done (validate d) m (adopt m)

  -- A file must hold an object; a text that holds none fails the validation.
  abbrev pub loaded : ImportSource F J → Answer (Fields F)
  loaded (document d) = done d
  loaded (json_text s) = elim (loads s) [
    | broken ↦ robot driver_configuration_error
    | no_object ↦ robot driver_validation_error
    | object d ↦ done d
  ]
  loaded (file_text s) = elim (loads s) [
    | broken ↦ robot driver_configuration_error
    | no_object ↦ robot driver_configuration_error
    | object d ↦ done d
  ]

  abbrev pub apply_unless : Bool → Manager F J → Fields F → Answer (Fields F) × Manager F J
  apply_unless validate_only m d = if validate_only then (done d, m) else apply d m

  pub import_json : ImportSource F J → Bool → Manager F J → Answer (Fields F) × Manager F J
  import_json source validate_only m =
      on_done (loaded source) m (λ d. on_done (validate d) m (apply_unless validate_only m))

  -- `document.setdefault("profile", {})["name"] = name`, and the scope; `none` is a TypeError
  abbrev pub named_at : String → Fields F → Option (Value F) → Option (Fields F)
  named_at name d none =
      some (
        set_field "profile" (mapping (field "name" (text name) (field "scope" (text "USER") end)))
          d)
  named_at name d (some (mapping fs)) = some (
      set_field "profile"
        (mapping (set_field "scope" (text "USER") (set_field "name" (text name) fs))) d)
  named_at name d (some _) = none

  abbrev pub named : String → Fields F → Option (Fields F)
  named name d = named_at name d (get_field "profile" d)

  -- The file of a profile is written whole, when the document is valid.
  abbrev pub written : String → Manager F J → Fields F → Answer String × Manager F J
  written name m d = (done name, record m { profiles = put (codes name) (dumps d) m.profiles })

  -- With whether the file is in the way, and the document that is to be written.
  abbrev pub save_at : Bool → Option (Fields F) → String → Manager F J → Answer String × Manager F J
  save_at true d name m = (robot driver_configuration_error, m)
  save_at false none name m = (untranslated other, m)
  save_at false (some d) name m = on_done (validate d) m (λ _. written name m d)

  abbrev pub save_named : String → Bool → Manager F J → Answer String × Manager F J
  save_named name overwrite m =
      save_at (is_some (find (codes name) m.profiles) && not overwrite) (named name m.effective)
        name m

  unfoldable pub save_profile : String → Bool → Manager F J → Answer String × Manager F J
  save_profile name overwrite m = on_done (safe_profile_name name) m (λ s. save_named s overwrite m)

  abbrev pub load_named : String → Bool → Manager F J → Answer (Fields F) × Manager F J
  load_named name validate_only m = elim (find (codes name) m.profiles) [
    | none ↦ (robot driver_configuration_error, m)
    | some s ↦ import_json (file_text s) validate_only m
  ]

  pub load_profile : String → Bool → Manager F J → Answer (Fields F) × Manager F J
  load_profile name validate_only m =
      on_done (safe_profile_name name) m (λ s. load_named s validate_only m)

  pub delete_profile : String → Manager F J → Answer (Unit {0}) × Manager F J
  delete_profile name m =
      on_done (safe_profile_name name) m
        (λ s. (done tt, record m { profiles = remove (codes s) m.profiles }))

  pub reset : Manager F J → Manager F J
  reset m = record m { effective = default; sources = sources_of package_default default }
