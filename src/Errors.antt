-- ===== src/Errors.antt =====
-- hp34401a_dmm/errors.py: the exceptions as one data type, the table of SCPI messages and the
-- choice of an exception class for a code. Exceptions carry no text here, but for `scpi`.
pub mod Classes
use text.Mathlib.Text.{◌==◌ as str_eq}
use Prim.Native.String.{◌++◌}
use hp34401a_driver.Base.{
  ℕ, String, Bool, true, false, ◌&&◌, List, [], ◌∷◌, if◌then◌else◌, ◌≡◌, refl, ◌⊎◌, inl, inr,
}
use hp34401a_driver.Base.Int.{ℤ, pos, negsuc, neg, leb_ℤ, ltb_ℤ, eqb_ℤ}
use hp34401a_driver.Base.Show.{show_ℤ}
use hp34401a_driver.Base.Text.{is_empty}

-- the subclasses of ScpiError, and ScpiError itself
pub data ScpiClass : Type 0 where
  command_error execution_error query_error device_error scpi_error : ScpiClass

-- The last four are raised through the driver and are no Hp34401AError.
pub data Error : Type 0 where
  connection timeout transport protocol overload not_stable safety recovery base : Error
  scpi : ScpiClass → ℤ → String → String → Error
  value_error os_error key_error other : Error

-- `isinstance(exc, Hp34401AError)`
abbrev pub is_hp_error : Error → Bool
is_hp_error value_error = false
is_hp_error os_error = false
is_hp_error key_error = false
is_hp_error other = false
is_hp_error _ = true

-- `isinstance(exc, InstrumentTimeoutError)`
abbrev pub is_timeout : Error → Bool
is_timeout timeout = true
is_timeout _ = false

pub data Result {ℓ} (A : Type ℓ) : Type ℓ where
  ok : A → Result A
  err : Error → Result A

-- A split on a result that keeps the equation.
pub Result-cases {ℓ} :
    {A : Type ℓ} (r : Result A) → ((a : A) × (r ≡ ok a)) ⊎ ((e : Error) × (r ≡ err e))
Result-cases (ok a) = inl (a, refl)
Result-cases (err e) = inr (e, refl)

error_messages : List (ℤ × String)
error_messages =
    (negsuc 100, "Invalid character")
    ∷ (negsuc 101, "Syntax error")
    ∷ (negsuc 102, "Invalid separator")
    ∷ (negsuc 103, "Data type error")
    ∷ (negsuc 107, "Parameter not allowed")
    ∷ (negsuc 108, "Missing parameter")
    ∷ (negsuc 111, "Program mnemonic too long")
    ∷ (negsuc 112, "Undefined header")
    ∷ (negsuc 120, "Invalid character in number")
    ∷ (negsuc 122, "Numeric overflow")
    ∷ (negsuc 123, "Too many digits")
    ∷ (negsuc 130, "Invalid suffix")
    ∷ (negsuc 137, "Suffix not allowed")
    ∷ (negsuc 147, "Character data not allowed")
    ∷ (negsuc 150, "Invalid string data")
    ∷ (negsuc 157, "String data not allowed")
    ∷ (negsuc 210, "Trigger ignored")
    ∷ (negsuc 212, "Init ignored")
    ∷ (negsuc 213, "Trigger deadlock")
    ∷ (negsuc 220, "Settings conflict")
    ∷ (negsuc 221, "Data out of range")
    ∷ (negsuc 222, "Too much data")
    ∷ (negsuc 223, "Illegal parameter value")
    ∷ (negsuc 229, "Data stale")
    ∷ (negsuc 329, "Self-test failed")
    ∷ (negsuc 349, "Too many errors")
    ∷ (negsuc 409, "Query interrupted")
    ∷ (negsuc 419, "Query unterminated")
    ∷ (negsuc 429, "Query deadlocked")
    ∷ (negsuc 439, "Query unterminated after indefinite response")
    ∷ (pos 501, "Isolator UART framing error")
    ∷ (pos 502, "Isolator UART overrun error")
    ∷ (pos 511, "RS-232 framing error")
    ∷ (pos 512, "RS-232 overrun error")
    ∷ (pos 513, "RS-232 parity error")
    ∷ (pos 514, "Command allowed only with RS-232")
    ∷ (pos 521, "Input buffer overflow")
    ∷ (pos 522, "Output buffer overflow")
    ∷ (pos 531, "Insufficient memory")
    ∷ (pos 532, "Cannot achieve requested resolution")
    ∷ (pos 540, "Cannot use overload as math reference")
    ∷ (pos 550, "Command not allowed in local")
    ∷ []

-- `ERROR_MESSAGES.get(code, "Unknown error")`
message_for : ℤ → List (ℤ × String) → String
message_for code [] = "Unknown error"
message_for code ((k, m) ∷ table) = if eqb_ℤ code k then m else message_for code table

-- `ScpiError.__init__`: an empty `raw` is replaced by the code and the message
scpi_init : ScpiClass → ℤ → String → String → Error
scpi_init cls code message raw =
    scpi cls code message (if is_empty raw then show_ℤ code ++ ",\"" ++ message ++ "\"" else raw)

pub scpi_error_for : ℤ → String → String → Error
unfolding scpi_init error_messages message_for
scpi_error_for code message raw =
    let msg = if is_empty message then message_for code error_messages else message in
    if leb_ℤ (negsuc 198) code && leb_ℤ code (negsuc 99)
    then scpi_init command_error code msg raw
    else if leb_ℤ (negsuc 298) code && leb_ℤ code (negsuc 199)
    then scpi_init execution_error code msg raw
    else if leb_ℤ (negsuc 498) code && leb_ℤ code (negsuc 399)
    then scpi_init query_error code msg raw
    else if ltb_ℤ (pos 0) code
    then scpi_init device_error code msg raw
    else scpi_init scpi_error code msg raw
