-- ===== src/Converters/Numbers.antt =====
-- The numbers that converters.py lets through.
use hp34401a_driver.Base.{
  ℕ, String, true, false, Option, none, some, ◌≡◌, refl, ◌≤◌, arith, Bool-cases, inl, inr,
}
use hp34401a_driver.Base.Int.{pos}
use hp34401a_driver.Base.Text.{strip, upper}
use hp34401a_driver.Base.Dict.{find}
use hp34401a_driver.Float.{Float}
use hp34401a_driver.Config.{zero_f}
use hp34401a_driver.Enums.{
  AcFilterHz, hz3, hz20, hz200, ac_filter_value, Range, AutoRange, value, token,
}
use hp34401a_driver.Converters.{
  Arg, no_value, bool, int, float, text, MemberOr, member, plain, str_of, float_of, as_float,
  as_int, finite, seconds_of, positive, as_seconds, positive_range, range_of_text, as_range,
  as_ac_filter, range_names,
}

module _ (fl : Float) where
  open fl use {F, le, eq, is_finite, of_int, truncate}

  -- A finite number above zero.
  abbrev IsPositive : F → Type 0
  IsPositive x = (is_finite x ≡ true) × (le x (zero_f fl) ≡ false)

  positive-IsPositive : (o : Option F) (x : F) → positive fl o ≡ some x → IsPositive x
  positive-IsPositive none x h = ground arith
  positive-IsPositive (some y) x h = ground (arith, h)

  -- A duration that as_seconds gives is a finite number above zero, whatever the parser of Robot
  -- Framework made of the text.
  as_seconds-IsPositive :
      (timestr : String → Option F) (v : Arg F) (x : F)
      → as_seconds fl timestr v ≡ some x
      → IsPositive x
  unfolding as_seconds
  as_seconds-IsPositive timestr no_value x h =
      positive-IsPositive (seconds_of fl timestr (strip (str_of fl no_value))) x h
  as_seconds-IsPositive timestr (bool b) x h = positive-IsPositive (float_of fl (bool b)) x h
  as_seconds-IsPositive timestr (int n) x h = positive-IsPositive (float_of fl (int n)) x h
  as_seconds-IsPositive timestr (float y) x h = positive-IsPositive (some y) x h
  as_seconds-IsPositive timestr (text s) x h =
      positive-IsPositive (seconds_of fl timestr (strip (str_of fl (text s)))) x h

  -- A range that names one of the settings, or is a finite number above zero.
  abbrev IsUsable : Option (Range F) → Type 0
  IsUsable none = Unit
  IsUsable (some (token t)) = Unit
  IsUsable (some (value x)) = IsPositive x

  finite_range-IsUsable : (o : Option F) → IsUsable (positive_range fl (finite fl o))
  finite_range-IsUsable none = tt
  finite_range-IsUsable (some x) = elim (Bool-cases (is_finite x)) [
    | inr e ↦ rw e tt
    | inl e ↦ elim (Bool-cases (le x (zero_f fl))) [
      | inl f ↦ rw (e, f) tt
      | inr f ↦ rw (e, f) (e, f)
    ]
  ]

  positive_range-IsUsable : (v : Arg F) → IsUsable (positive_range fl (as_float fl v))
  unfolding as_float
  positive_range-IsUsable v = finite_range-IsUsable (float_of fl v)

  token_or :
      (t : Option AutoRange) (r : Option (Range F))
      → IsUsable r
      → IsUsable (elim t [ some t ↦ some (token t) | none ↦ r ])
  token_or (some t) r h = tt
  token_or none r h = h

  range_of_text-IsUsable : (v : Arg F) → IsUsable (range_of_text fl v)
  range_of_text-IsUsable v =
      token_or (find (upper (strip (str_of fl v))) range_names) (positive_range fl (as_float fl v))
        (positive_range-IsUsable v)

  -- A range that as_range gives is one of the names for a setting or a finite number above zero.
  as_range-IsUsable : (v : MemberOr AutoRange F) → IsUsable (as_range fl v)
  unfolding as_range
  as_range-IsUsable (member t) = tt
  as_range-IsUsable (plain no_value) = range_of_text-IsUsable no_value
  as_range-IsUsable (plain (bool b)) = positive_range-IsUsable (bool b)
  as_range-IsUsable (plain (int n)) = positive_range-IsUsable (int n)
  as_range-IsUsable (plain (float y)) = positive_range-IsUsable (float y)
  as_range-IsUsable (plain (text s)) = range_of_text-IsUsable (text s)

  module _ (truncate_small : (n : ℕ) → n ≤ 200 → truncate (of_int (pos n)) ≡ pos n)
      (finite_small : (n : ℕ) → n ≤ 200 → is_finite (of_int (pos n)) ≡ true)
      (eq_small : (n : ℕ) → n ≤ 200 → eq (of_int (pos n)) (of_int (pos n)) ≡ true) where
    as_int_small : (n : ℕ) → n ≤ 200 → as_int fl (int (pos n)) ≡ some (pos n)
    unfolding as_int
    as_int_small n h = ground (arith, truncate_small n h, finite_small n h, eq_small n h)

    -- The cut-off frequency of each AC filter is read back as that filter, where floats are exact
    -- and finite up to 200.
    pub as_ac_filter-value :
        (m : AcFilterHz) → as_ac_filter fl (int (pos (ac_filter_value m))) ≡ some m
    unfolding as_ac_filter
    as_ac_filter-value hz3 = rw (as_int_small 3 (omega arith), as_ac_filter) refl
    as_ac_filter-value hz20 = rw (as_int_small 20 (omega arith), as_ac_filter) refl
    as_ac_filter-value hz200 = rw (as_int_small 200 (omega arith), as_ac_filter) refl
