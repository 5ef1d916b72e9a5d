-- ===== src/Converters.antt =====
-- rf_hp34401a/converters.py: the arguments of the keywords, from what Robot passes to values. `none`
-- is a DriverValidationError. An int that is too large for a float, and letters outside ASCII that
-- `upper` and `lower` turn into ASCII, are left out.
pub mod Members
pub mod Numbers
use hp34401a_driver.Base.{
  ℕ, String, Bool, true, false, not, ◌&&◌, ◌||◌, Option, none, some, List, [], ◌∷◌, any, is_some,
  if◌then◌else◌, leb, ◌==◌,
}
use hp34401a_driver.Base.Int.{ℤ, pos, negsuc, eqb_ℤ}
use hp34401a_driver.Base.Show.{show_ℤ}
use hp34401a_driver.Base.Text.{lstrip, strip, codes, lower, upper, is_empty, cons, nil}
use hp34401a_driver.Base.Dict.{Key, same_key, find}
use Prim.Native.Char.{code}
use Prim.Native.String.{◌++◌ as append}
use hp34401a_driver.Float.{Float}
use hp34401a_driver.Config.{zero_f}
use hp34401a_driver.Enums.{
  Nplc, plc0_02, plc0_2, plc1, plc10, plc100, nplc_value, Aperture, aper0_01, aper0_1, aper1,
  aperture_value, AcFilterHz, hz3, hz20, hz200, ac_filter_value, AutozeroMode, off, once, on,
  TriggerSource, immediate, bus, external, InputTerminal, front, rear, AutoRange, auto, min_range,
  max_range, def_range, Range, value, token,
}

-- What a caller passes, but for a member of the enumeration that a converter gives.
pub data Arg (F : Type 0) : Type 0 where
  no_value : Arg F
  bool : Bool → Arg F
  int : ℤ → Arg F
  float : F → Arg F
  text : String → Arg F

pub data MemberOr (E F : Type 0) : Type 0 where
  member : E → MemberOr E F
  plain : Arg F → MemberOr E F

abbrev pub in_keys : List Key → Key → Bool
in_keys keys key = any (same_key key) keys

-- The members by their names, with the aliases that a converter adds.
abbrev autozero_names : List (Key × AutozeroMode)
autozero_names = (codes "OFF", off) ∷ (codes "ONCE", once) ∷ (codes "ON", on) ∷ []

abbrev pub trigger_names : List (Key × TriggerSource)
trigger_names =
    (codes "IMMEDIATE", immediate)
    ∷ (codes "IMM", immediate)
    ∷ (codes "BUS", bus)
    ∷ (codes "EXTERNAL", external)
    ∷ (codes "EXT", external)
    ∷ []

abbrev terminal_names : List (Key × InputTerminal)
terminal_names = (codes "FRONT", front) ∷ (codes "REAR", rear) ∷ []

abbrev pub range_names : List (Key × AutoRange)
range_names =
    (codes "AUTO", auto)
    ∷ (codes "AUTORANGE", auto)
    ∷ (codes "MIN", min_range)
    ∷ (codes "MAX", max_range)
    ∷ (codes "DEF", def_range)
    ∷ (codes "DEFAULT", def_range)
    ∷ []

-- `[0-9]*` at the start of a text, and what follows
abbrev digits : String → String × String
digits String.[] = (nil, nil)
digits (String.◌∷◌ c s) =
    let (d, rest) = digits s in
    if leb b'0' (code c) && leb (code c) b'9' then (cons c d, rest) else (nil, cons c s)

-- `\d+(\.\d*)?|\.\d+`: the number, and what follows
abbrev point_behind : String → String → Option (String × String)
point_behind d String.[] = if is_empty d then none else some (d, nil)
point_behind d (String.◌∷◌ c s) =
    let (f, rest) = digits s in
    if code c == b'.'
    then (if is_empty d && is_empty f then none else some (append d (cons c f), rest))
    else if is_empty d
    then none
    else some (d, cons c s)

abbrev unsigned : String → Option (String × String)
unsigned s = let (d, rest) = digits s in point_behind d rest

-- `[+-]?` in front of it
abbrev signed : String → Option (String × String)
signed String.[] = none
signed (String.◌∷◌ c s) =
    if code c == b'+' || code c == b'-'
    then elim (unsigned s) [ none ↦ none | some (n, rest) ↦ some (cons c n, rest) ]
    else unsigned (cons c s)

module _ (fl : Float) where
  open fl use {F, parse, le, eq, mul, of_int, truncate, is_finite, repr, lit}

  -- `str(value)`
  unfoldable pub str_of : Arg F → String
  unfolding show_ℤ
  str_of no_value = "None"
  str_of (bool true) = "True"
  str_of (bool false) = "False"
  str_of (int n) = show_ℤ n
  str_of (float x) = repr x
  str_of (text s) = s

  -- `float(value)`; `none` is a TypeError or a ValueError
  abbrev pub float_of : Arg F → Option F
  float_of no_value = none
  float_of (bool true) = some (of_int (pos 1))
  float_of (bool false) = some (of_int (pos 0))
  float_of (int n) = some (of_int n)
  float_of (float x) = some x
  float_of (text s) = parse s

  abbrev bool_of_text : Key → Option Bool
  bool_of_text key =
      if in_keys (codes "true" ∷ codes "yes" ∷ codes "on" ∷ codes "1" ∷ codes "${true}" ∷ []) key
      then some true
      else if in_keys (codes "false" ∷ codes "no" ∷ codes "off" ∷ codes "0" ∷ codes "${false}" ∷ [])
          key
      then some false
      else none

  unfoldable pub as_bool : Arg F → Option Bool
  unfolding strip
  as_bool (bool b) = some b
  as_bool (int n) =
      if eqb_ℤ n (pos 0)
      then some false
      else if eqb_ℤ n (pos 1)
      then some true
      else bool_of_text (lower (strip (show_ℤ n)))
  as_bool (float x) =
      if eq x (of_int (pos 0))
      then some false
      else if eq x (of_int (pos 1))
      then some true
      else bool_of_text (lower (strip (repr x)))
  as_bool v = bool_of_text (lower (strip (str_of v)))

  -- `math.isfinite`
  abbrev pub finite : Option F → Option F
  finite none = none
  finite (some x) = if is_finite x then some x else none

  unfoldable pub as_float : Arg F → Option F
  as_float v = finite (float_of v)

  abbrev pub integer : Option F → Option ℤ
  integer none = none
  integer (some x) = if eq x (of_int (truncate x)) then some (truncate x) else none

  unfoldable pub as_int : Arg F → Option ℤ
  as_int v = integer (finite (float_of v))

  -- The factors of the regular expression's units.
  unfoldable unit_factors : List (Key × F)
  unit_factors =
      (codes "ms", lit (pos 1) (negsuc 2))
      ∷ (codes "s", lit (pos 1) (pos 0))
      ∷ (codes "", lit (pos 1) (pos 0))
      ∷ (codes "sec", lit (pos 1) (pos 0))
      ∷ (codes "secs", lit (pos 1) (pos 0))
      ∷ (codes "second", lit (pos 1) (pos 0))
      ∷ (codes "seconds", lit (pos 1) (pos 0))
      ∷ (codes "min", lit (pos 60) (pos 0))
      ∷ (codes "mins", lit (pos 60) (pos 0))
      ∷ (codes "minute", lit (pos 60) (pos 0))
      ∷ (codes "minutes", lit (pos 60) (pos 0))
      ∷ (codes "h", lit (pos 3600) (pos 0))
      ∷ (codes "hr", lit (pos 3600) (pos 0))
      ∷ (codes "hrs", lit (pos 3600) (pos 0))
      ∷ (codes "hour", lit (pos 3600) (pos 0))
      ∷ (codes "hours", lit (pos 3600) (pos 0))
      ∷ []

  -- The match of a duration; `none` is no match.
  unfoldable match_duration : String → Option (String × F)
  unfolding unit_factors
  match_duration s = elim (signed s) [
    | none ↦ none
    | some (n, rest) ↦ elim (find (lower (lstrip rest)) unit_factors) [
      | none ↦ none
      | some factor ↦ some (n, factor)
    ]
  ]

  -- `timestr` is `robot.utils.timestr_to_secs`; `none` is any exception of it.
  unfoldable pub seconds_of : (String → Option F) → String → Option F
  unfolding as_float match_duration
  seconds_of timestr s = elim (timestr s) [
    | some x ↦ some x
    | none ↦ elim (match_duration s) [
      | none ↦ as_float (text s)
      | some (n, factor) ↦ elim (parse n) [ none ↦ none | some x ↦ some (mul x factor) ]
    ]
  ]

  -- `not math.isfinite(seconds) or seconds <= 0`
  abbrev pub positive : Option F → Option F
  positive none = none
  positive (some x) = if not (is_finite x) || le x (zero_f fl) then none else some x

  unfoldable pub as_seconds : (String → Option F) → Arg F → Option F
  as_seconds timestr (bool b) = positive (float_of (bool b))
  as_seconds timestr (int n) = positive (float_of (int n))
  as_seconds timestr (float x) = positive (some x)
  as_seconds timestr v = positive (seconds_of timestr (strip (str_of v)))

  -- `none` of the result is a DriverValidationError, `some none` is Python's None
  unfoldable pub as_optional_float : Arg F → Option (Option F)
  as_optional_float no_value = some none
  as_optional_float v =
      if in_keys (codes "" ∷ codes "none" ∷ codes "${none}" ∷ []) (lower (strip (str_of v)))
      then some none
      else elim (as_float v) [ none ↦ none | some x ↦ some (some x) ]

  -- `as_float`, and a number that must be positive
  abbrev pub positive_range : Option F → Option (Range F)
  positive_range none = none
  positive_range (some x) = if le x (zero_f fl) then none else some (value x)

  abbrev pub range_of_text : Arg F → Option (Range F)
  range_of_text v = elim (find (upper (strip (str_of v))) range_names) [
    | some t ↦ some (token t)
    | none ↦ positive_range (as_float v)
  ]

  unfoldable pub as_range : MemberOr AutoRange F → Option (Range F)
  as_range (member t) = some (token t)
  as_range (plain (bool b)) = positive_range (as_float (bool b))
  as_range (plain (int n)) = positive_range (as_float (int n))
  as_range (plain (float x)) = positive_range (as_float (float x))
  as_range (plain v) = range_of_text v

  -- The first member that a number equals.
  abbrev first_equal : {E : Type 0} → (E → Bool) → List E → Option E
  first_equal same [] = none
  first_equal same (m ∷ ms) = if same m then some m else first_equal same ms

  abbrev nplcs : List Nplc
  nplcs = plc0_02 ∷ plc0_2 ∷ plc1 ∷ plc10 ∷ plc100 ∷ []

  unfoldable pub as_nplc : Arg F → Option Nplc
  as_nplc v = elim (as_float v) [
    | none ↦ none
    | some x ↦ first_equal (λ m. eq (nplc_value fl m) x) nplcs
  ]

  unfoldable pub as_aperture : Arg F → Option Aperture
  as_aperture v = elim (as_float v) [
    | none ↦ none
    | some x ↦ first_equal (λ m. eq (aperture_value fl m) x) (aper0_01 ∷ aper0_1 ∷ aper1 ∷ [])
  ]

  pub as_ac_filter : Arg F → Option AcFilterHz
  as_ac_filter v = elim (as_int v) [
    | none ↦ none
    | some n ↦ first_equal (λ m. eqb_ℤ (pos (ac_filter_value m)) n) (hz3 ∷ hz20 ∷ hz200 ∷ [])
  ]

  unfoldable pub as_autozero : MemberOr AutozeroMode F → Option AutozeroMode
  as_autozero (member m) = some m
  as_autozero (plain v) = find (upper (strip (str_of v))) autozero_names

  pub as_trigger_source : MemberOr TriggerSource F → Option TriggerSource
  as_trigger_source (member m) = some m
  as_trigger_source (plain v) = find (upper (strip (str_of v))) trigger_names

  unfoldable pub as_terminal : MemberOr InputTerminal F → Option InputTerminal
  as_terminal (member m) = some m
  as_terminal (plain v) = find (upper (strip (str_of v))) terminal_names
