-- ===== src/Parser.antt =====
-- hp34401a_dmm/parser.py: the responses of the instrument, from text to values. A raised
-- ProtocolError is `err protocol`. `\d` is an ASCII digit: responses cross the ascii codec.
pub mod Readings
use Prim.Native.Char.{code}
use Prim.Native.String.{[] as empty, ◌∷◌ as next}
use text.Mathlib.Text.{◌==◌ as str_eq}
use hp34401a_driver.Base.{
  ℕ, ◌+◌, ◌*◌, ◌-◌, String, Bool, true, false, not, ◌&&◌, ◌||◌, Option, none, some, List, [], ◌∷◌,
  map, if◌then◌else◌, leb, ltb, ◌==◌, length, any,
}
use hp34401a_driver.Base.Int.{ℤ, pos, neg}
use hp34401a_driver.Base.Text.{
  is_space, is_empty, strip, lstrip, split, ends_with, upper, codes, contains, cons, nil,
}
use hp34401a_driver.Float.{Float}
use hp34401a_driver.Enums.{overload_threshold}
use hp34401a_driver.Errors.{Result, ok, err, protocol, value_error}

pub record ParsedError : Type 0 where
  pub code : ℤ
  pub message : String
  pub raw : String

-- the pieces that are not empty
abbrev pub keep_full : List String → List String
keep_full [] = []
keep_full (p ∷ ps) = if is_empty p then keep_full ps else p ∷ keep_full ps

abbrev pub is_nil : {A : Type 0} → List A → Bool
is_nil [] = true
is_nil (x ∷ xs) = false

-- `[s.strip() for s in text.split(",")]`
unfoldable pub fields : String → List String
fields text = map strip (split b',' text)

module _ (fl : Float) where
  open fl use {F, parse, abs, le}

  unfoldable pub is_overload : F → Bool
  is_overload v = le (overload_threshold fl) (abs v)

  or_protocol : Option F → Result F
  or_protocol none = err protocol
  or_protocol (some v) = ok v

  unfoldable pub parse_float : String → Result F
  unfolding or_protocol
  parse_float raw =
      let text = strip raw in if is_empty text then err protocol else or_protocol (parse text)

  -- `[float(p) for p in parts]`; `none` is a ValueError
  unfoldable pub float_all : List String → Option (List F)
  float_all [] = some []
  float_all (p ∷ ps) = elim (parse p) [
    | none ↦ none
    | some v ↦ elim (float_all ps) [ none ↦ none | some vs ↦ some (v ∷ vs) ]
  ]

  abbrev pub or_garbled : Option (List F) → Result (List F)
  or_garbled none = err protocol
  or_garbled (some vs) = ok vs

  unfoldable pub parse_reading_list : String → Result (List F)
  unfolding float_all
  parse_reading_list raw =
      let text = strip raw in
      let parts = keep_full (fields text) in
      if is_empty text
      then err protocol
      else if ends_with b',' text
      then err protocol
      else if is_nil parts || not (length parts == length (split b',' text))
      then err protocol
      else or_garbled (float_all parts)

abbrev is_digit : ℕ → Bool
is_digit c = leb b'0' c && leb c b'9'

-- `\d*`, with the number so far, how many digits there were, and what follows
take_digits : ℕ → ℕ → String → ℕ × ℕ × String
take_digits n k String.[] = (n, k, nil)
take_digits n k (String.◌∷◌ c s) =
    let more = take_digits (n * 10 + (code c - b'0')) (k + 1) s in
    if is_digit (code c) then more else (n, k, cons c s)

-- `[+-]?`: whether the sign is a minus, and what follows
take_sign : String → Bool × String
take_sign String.[] = (false, nil)
take_sign (String.◌∷◌ c s) =
    if code c == b'-' then (true, s) else if code c == b'+' then (false, s) else (false, cons c s)

-- One given character.
expect : ℕ → String → Option String
expect d String.[] = none
expect d (String.◌∷◌ c s) = if code c == d then some s else none

-- `(.*)"$`: what stands before a quote at the end; `.` matches no line feed
before_quote : String → Option String
before_quote String.[] = none
before_quote (String.◌∷◌ c s) =
    let rest = before_quote s in
    if is_empty s
    then (if code c == b'"' then some nil else none)
    else if code c == 10
    then none
    else elim rest [ none ↦ none | some m ↦ some (cons c m) ]

infixl 5 ◌>>=◌
abbrev ◌>>=◌ : {A B : Type 0} → Option A → (A → Option B) → Option B
none >>= f = none
some a >>= f = f a

abbrev require : Bool → Option (Unit {0})
require true = some tt
require false = none

-- `_ERROR_RE.match(text)` on a stripped text: the code and the message
unfoldable match_error : String → Option (ℤ × String)
unfolding take_digits take_sign expect before_quote lstrip
match_error text = do
  let signed = take_sign text
  let digits = take_digits 0 0 signed.1
  _ ← require (ltb 0 digits.1)
  after_comma ← expect b',' (lstrip digits.2)
  quoted ← expect b'"' (lstrip after_comma)
  message ← before_quote quoted
  some ((if signed.0 then neg digits.0 else pos digits.0), message)

abbrev or_malformed : String → Option (ℤ × String) → Result ParsedError
or_malformed text none = err protocol
or_malformed text (some (c, m)) = ok (record { code = c; message = m; raw = text })

unfoldable pub parse_error : String → Result ParsedError
unfolding match_error
parse_error raw = let text = strip raw in or_malformed text (match_error text)

-- The fields of `*IDN?`; a serial of "0" or of nothing is no serial.
abbrev known_serial : String → Option String
known_serial s = if str_eq s "0" || is_empty s then none else some s

unfoldable pub parse_identity : String → Result (String × String × Option String × Option String)
unfolding fields strip split
parse_identity raw = elim (fields (strip raw)) [
  | [] ↦ err protocol
  | a ∷ [] ↦ err protocol
  | a ∷ b ∷ [] ↦ ok (a, b, none, none)
  | a ∷ b ∷ c ∷ [] ↦ ok (a, b, known_serial c, none)
  | a ∷ b ∷ c ∷ d ∷ rest ↦ ok (a, b, known_serial c, some d)
]

unfoldable pub looks_like_34401a : String → Bool
unfolding strip upper contains
looks_like_34401a raw =
    let text = upper (strip raw) in
    not (is_empty (strip raw))
    && contains (codes "34401A") text
    && (contains (codes "HEWLETT-PACKARD") text
        || contains (codes "AGILENT") text
        || contains (codes "KEYSIGHT") text)
