-- ===== src/Tests/Profiles.antt =====
-- Tests of the configuration manager, with documents for their own JSON texts.
use hp34401a_driver.Base.{String, true, false, [], ◌∷◌}
use hp34401a_driver.Base.Int.{ℤ, pos}
use hp34401a_driver.Evidence.Json.{Value, text, int, mapping, Fields, end, field}
use hp34401a_driver.Configuration.{Library, object, initial, json_text}
use hp34401a_driver.Configuration.Valid.{
  importing, saving, loading, perform_all, IsValid, perform_all-IsValid,
}

abbrev settings : Fields ℤ
settings = field "timeouts" (mapping (field "communication_s" (int (pos 10)) end)) end

abbrev default : Fields ℤ
default = field "rfds014_version" (text "1.0") (
    field "schema_id" (text "rf_hp34401a.configuration")
      (field "schema_version" (text "1.0.0") (field "settings" (mapping settings) end)))

abbrev text_of : Value ℤ → String
text_of (text s) = s
text_of _ = ""

abbrev plain_library : Library ℤ (Fields ℤ)
plain_library = record {
  default = default;
  schema_valid = λ d. true;
  loads = object;
  dumps = λ d. d;
  str = text_of;
}

perform_all-IsValid_example : IsValid plain_library (
    perform_all plain_library
      (importing (json_text default) false ∷ saving "bench" false ∷ loading "bench" false ∷ [])
      (initial plain_library []))
perform_all-IsValid_example =
    perform_all-IsValid plain_library
      (importing (json_text default) false ∷ saving "bench" false ∷ loading "bench" false ∷ []) []
