-- ===== src/Parser/Readings.antt =====
-- `parse_reading_list` against a plain reading of the comma-separated fields.
use Prim.Native.Char.{Char, code}
use hp34401a_driver.Base.{
  ◌<◌, ◌≤◌, String, Bool, true, false, Option, none, some, List, [], ◌∷◌, map, any, length, not,
  ◌||◌, if◌then◌else◌, ◌≡◌, refl, ◌∙◌, ap, sym, arith, Bool-cases, inl, inr, ◌==◌,
}
use hp34401a_driver.Base.Text.{is_empty, strip, split, ends_with, cons, push_first}
use hp34401a_driver.Float.{Float}
use hp34401a_driver.Errors.{Result, err, protocol}
use hp34401a_driver.Parser.{fields, keep_full, is_nil, float_all, or_garbled, parse_reading_list}

-- One of the pieces behind the first is empty.
abbrev tail_has_empty : List String → Bool
tail_has_empty [] = false
tail_has_empty (p ∷ ps) = any is_empty ps

tail_has_empty-push_first :
    (c : Char) (ps : List String)
    → tail_has_empty ps ≡ true
    → tail_has_empty (push_first c ps) ≡ true
tail_has_empty-push_first c [] h = h
tail_has_empty-push_first c (p ∷ ps) h = h

any_of_tail : (ps : List String) → tail_has_empty ps ≡ true → any is_empty ps ≡ true
any_of_tail [] h = h
any_of_tail (p ∷ ps) h = ground arith

abbrev CommaLeavesEmpty : String → Type 0
CommaLeavesEmpty s = ends_with b',' s ≡ true → tail_has_empty (split b',' s) ≡ true

comma_step : (c : Char) (s : String) → CommaLeavesEmpty s → CommaLeavesEmpty (cons c s)
unfolding ends_with split
comma_step c String.[] ih h = ground arith
comma_step c (String.◌∷◌ d s) ih h =
    let rest = split b',' (cons d s) in
    elim (Bool-cases (code c == b',')) [
      | inl comma ↦ rw comma (any_of_tail rest (ih h))
      | inr plain ↦ rw plain (tail_has_empty-push_first c rest (ih h))
    ]

-- A text that ends in a comma has an empty piece.
ends_with-split : (s : String) → CommaLeavesEmpty s
unfolding ends_with
ends_with-split String.[] h = ground arith
ends_with-split (String.◌∷◌ c s) h = comma_step c s (ends_with-split s) h

any-map-strip : (ps : List String) → any is_empty ps ≡ true → any is_empty (map strip ps) ≡ true
unfolding strip
any-map-strip [] h = h
any-map-strip (String.[] ∷ ps) h = refl
any-map-strip (String.◌∷◌ c p ∷ ps) h = ground (arith, any-map-strip ps h)

length-map-strip : (ps : List String) → length (map strip ps) ≡ length ps
length-map-strip [] = refl
length-map-strip (p ∷ ps) = omega (arith, length-map-strip ps)

keep_full_all : (fs : List String) → any is_empty fs ≡ false → keep_full fs ≡ fs
keep_full_all [] h = refl
keep_full_all (f ∷ fs) h = ground (arith, keep_full_all fs)

length-keep_full-le : (fs : List String) → length (keep_full fs) ≤ length fs
length-keep_full-le [] = omega arith
length-keep_full-le (f ∷ fs) = ground (arith, length-keep_full-le fs)

length-keep_full-lt :
    (fs : List String) → any is_empty fs ≡ true → length (keep_full fs) < length fs
length-keep_full-lt [] h = ground arith
length-keep_full-lt (f ∷ fs) h = ground (arith, length-keep_full-lt fs, length-keep_full-le fs)

is_nil-push_first : (c : Char) (ps : List String) → is_nil (map strip (push_first c ps)) ≡ false
is_nil-push_first c [] = refl
is_nil-push_first c (p ∷ ps) = refl

is_nil-fields : (text : String) → is_nil (fields text) ≡ false
unfolding fields split
is_nil-fields String.[] = refl
is_nil-fields (String.◌∷◌ c s) = ground (arith, is_nil-push_first c (split b',' s))

length-fields : (text : String) → length (fields text) ≡ length (split b',' text)
unfolding fields
length-fields text = length-map-strip (split b',' text)

split-any :
    (text : String) → tail_has_empty (split b',' text) ≡ true → any is_empty (fields text) ≡ true
unfolding fields
split-any text h = any-map-strip (split b',' text) (any_of_tail (split b',' text) h)

module _ (fl : Float) where
  open fl use {F, parse}

  -- Every field must hold a number: no field is skipped, and none may be empty.
  pub read_fields : List String → Option (List F)
  read_fields [] = some []
  read_fields (f ∷ fs) = if is_empty f then none else elim (parse f) [
    | none ↦ none
    | some v ↦ elim (read_fields fs) [ none ↦ none | some vs ↦ some (v ∷ vs) ]
  ]

  read_fields-none : (fs : List String) → any is_empty fs ≡ true → read_fields fs ≡ none
  unfolding read_fields
  read_fields-none [] h = ground arith
  read_fields-none (f ∷ fs) h = ground (arith, read_fields-none fs)

  read_fields-full : (fs : List String) → any is_empty fs ≡ false → float_all fl fs ≡ read_fields fs
  unfolding read_fields float_all
  read_fields-full [] h = refl
  read_fields-full (f ∷ fs) h = ground (arith, read_fields-full fs)

  -- The three tests on a stripped text, and the conversion behind them.
  abbrev parse_stripped : String → Result (List F)
  parse_stripped text =
      if is_empty text
      then err protocol
      else if ends_with b',' text
      then err protocol
      else if is_nil (keep_full (fields text))
          || not (length (keep_full (fields text)) == length (split b',' text))
      then err protocol
      else or_garbled fl (float_all fl (keep_full (fields text)))

  fields_with_empty :
      (text : String) → any is_empty (fields text) ≡ true → parse_stripped text ≡ err protocol
  unfolding fields
  fields_with_empty text h =
      ground (arith, length-keep_full-lt (fields text) h, length-map-strip (split b',' text))

  full_step :
      (text : String)
      → is_empty text ≡ false
      → any is_empty (fields text) ≡ false
      → parse_stripped text ≡ or_garbled fl (float_all fl (fields text))
  full_step text p h =
      rw (p, keep_full_all (fields text) h)
        (ground
          (arith, is_nil-fields text, length-fields text, ends_with-split text, split-any text))

  fields_full :
      (text : String)
      → any is_empty (fields text) ≡ false
      → parse_stripped text ≡ or_garbled fl (float_all fl (fields text))
  unfolding fields split strip
  fields_full String.[] h = cc
  fields_full (String.◌∷◌ c s) h = full_step (cons c s) refl h

  parse_stripped-eq :
      (text : String) → parse_stripped text ≡ or_garbled fl (read_fields (fields text))
  parse_stripped-eq text = elim (Bool-cases (any is_empty (fields text))) [
    | inl h ↦ fields_with_empty text h ∙ ap (or_garbled fl) (sym (read_fields-none (fields text) h))
    | inr h ↦ fields_full text h ∙ ap (or_garbled fl) (read_fields-full (fields text) h)
  ]

  -- A response of readings is accepted exactly when each of its comma-separated fields, stripped,
  -- is there and is a number: the result is those numbers, in order, and a ProtocolError otherwise.
  pub parse_reading_list-eq :
      (raw : String) → parse_reading_list fl raw ≡ or_garbled fl (read_fields (fields (strip raw)))
  unfolding parse_reading_list
  parse_reading_list-eq raw = parse_stripped-eq (strip raw)
