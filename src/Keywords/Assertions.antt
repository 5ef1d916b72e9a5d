-- ===== src/Keywords/Assertions.antt =====
-- When the assertion on the limits of the last reading passes, and how exceptions are translated.
use hp34401a_driver.Base.{
  Bool, true, false, Option, none, some, ◌≡◌, refl, arith, inl, inr, Option-cases, ◌↔◌,
}
use hp34401a_driver.Base.Text.{contains, starts_with}
use hp34401a_driver.Float.{Float}
use hp34401a_driver.Errors.{
  Error, connection, timeout, transport, protocol, overload, not_stable, safety, recovery, base,
  scpi, value_error, os_error, key_error, other, command_error, execution_error, query_error,
  device_error, scpi_error,
}
use hp34401a_driver.Measurement.{MeasurementReading}
use hp34401a_driver.Transport.{Transport}
use hp34401a_driver.Converters.{Arg, as_float}
use hp34401a_driver.Keywords.{
  Answer, done, robot, assertion_failed, untranslated, Session, Library, translate,
  default_retryable, class_name,
}
use hp34401a_driver.Keywords.Readings.{
  then_answer, argument, get_last_dmm_reading, scalar_or, value_for_assertion, judge_between,
  dmm_reading_should_be_between,
}

-- The failures behind which a repetition may help: no answer in time, and no line.
abbrev is_line_failure : Error → Bool
is_line_failure connection = true
is_line_failure timeout = true
is_line_failure os_error = true
is_line_failure _ = false

-- What a keyword raises for an exception of the driver is retryable exactly when that exception is a
-- timeout or a failed connection.
translate-retryable : (e : Error) → default_retryable (translate e) ≡ is_line_failure e
unfolding translate class_name contains starts_with
translate-retryable connection = refl
translate-retryable timeout = refl
translate-retryable transport = refl
translate-retryable protocol = refl
translate-retryable overload = refl
translate-retryable not_stable = refl
translate-retryable safety = refl
translate-retryable recovery = refl
translate-retryable base = refl
translate-retryable (scpi command_error n s t) = refl
translate-retryable (scpi execution_error n s t) = refl
translate-retryable (scpi query_error n s t) = refl
translate-retryable (scpi device_error n s t) = refl
translate-retryable (scpi scpi_error n s t) = refl
translate-retryable value_error = refl
translate-retryable os_error = refl
translate-retryable key_error = refl
translate-retryable other = refl

then_answer-done :
    {A B : Type 0} (x : Answer A) (f : A → Answer B) (b : B)
    → then_answer x f ≡ done b
    → (a : A) × (x ≡ done a) × (f a ≡ done b)
then_answer-done (done a) f b h = (a, refl, h)
then_answer-done (robot c) f b h = ground (arith, h)
then_answer-done assertion_failed f b h = ground (arith, h)
then_answer-done (untranslated e) f b h = ground (arith, h)

argument-done : {A : Type 0} (o : Option A) (a : A) → argument o ≡ done a → o ≡ some a
argument-done none a h = ground (arith, h)
argument-done (some b) a h = ground (arith, h)

scalar-done :
    {F : Type 0} (r : MeasurementReading F) (v : F)
    → scalar_or assertion_failed r ≡ done v
    → (r.is_valid ≡ true) × (r.is_overload ≡ false) × (r.reading_value ≡ some v)
scalar-done r v h = ground (arith, h)

judge-done :
    (fl : Float) (v low high : fl.F)
    → judge_between fl v low high ≡ done tt
    → (fl.lt high low ≡ false) × (fl.le low v ≡ true) × (fl.le v high ≡ true)
judge-done fl v low high h = ground (arith, h)

module _ {fl : Float} {T : Transport fl.F} where
  open fl use {F, lt, le}

  -- The last reading of an open session is valid, no overload, and within limits that are numbers.
  pub record IsWithin (minimum maximum : Arg F) (lib : Library fl T) : Type 0 where
    pub session : Session fl T
    pub reading : MeasurementReading F
    pub value : F
    pub low : F
    pub high : F
    pub is_open : lib.session ≡ some session
    pub remembered : session.last_reading ≡ some reading
    pub valid : reading.is_valid ≡ true
    pub no_overload : reading.is_overload ≡ false
    pub has_value : reading.reading_value ≡ some value
    pub is_low : as_float fl minimum ≡ some low
    pub is_high : as_float fl maximum ≡ some high
    pub ordered : lt high low ≡ false
    pub above : le low value ≡ true
    pub below : le value high ≡ true

  passes :
      (minimum maximum : Arg F) (lib : Library fl T)
      → IsWithin minimum maximum lib
      → dmm_reading_should_be_between minimum maximum lib ≡ done tt
  unfolding dmm_reading_should_be_between value_for_assertion get_last_dmm_reading
  passes minimum maximum lib w =
      rw
        (
          w.is_open, w.remembered, w.valid, w.no_overload, w.has_value, w.is_low, w.is_high,
          w.ordered, w.above, w.below,
        )
        refl

  last-done :
      (lib : Library fl T) (r : MeasurementReading F)
      → get_last_dmm_reading lib ≡ done r
      → (s : Session fl T) × (lib.session ≡ some s) × (s.last_reading ≡ some r)
  unfolding get_last_dmm_reading
  last-done lib r h = elim (Option-cases lib.session) [
    | inl e ↦ ground (arith, h, e)
    | inr (s, e) ↦ (s, e, ground (arith, h, e))
  ]

  passed :
      (minimum maximum : Arg F) (lib : Library fl T)
      → dmm_reading_should_be_between minimum maximum lib ≡ done tt
      → IsWithin minimum maximum lib
  unfolding dmm_reading_should_be_between value_for_assertion
  passed minimum maximum lib h =
      let (v, is_v, h1) = then_answer-done (value_for_assertion lib) _ tt h in
      let (low, is_low, h2) = then_answer-done (argument (as_float fl minimum)) _ tt h1 in
      let (high, is_high, h3) = then_answer-done (argument (as_float fl maximum)) _ tt h2 in
      let (r, is_r, scalar) = then_answer-done (get_last_dmm_reading lib) _ v is_v in
      let (s, open_s, last) = last-done lib r is_r in
      let (valid, fits, has) = scalar-done r v scalar in
      let (ordered, above, below) = judge-done fl v low high h3 in
      record {
        session = s;
        reading = r;
        value = v;
        low = low;
        high = high;
        is_open = open_s;
        remembered = last;
        valid = valid;
        no_overload = fits;
        has_value = has;
        is_low = argument-done (as_float fl minimum) low is_low;
        is_high = argument-done (as_float fl maximum) high is_high;
        ordered = ordered;
        above = above;
        below = below;
      }

  -- The assertion on the limits passes exactly when the session is open, its last reading is valid
  -- and no overload, and the value of that reading is within the limits, which are in order.
  pub dmm_reading_should_be_between-IsWithin :
      (minimum maximum : Arg F) (lib : Library fl T)
      → dmm_reading_should_be_between minimum maximum lib ≡ done tt ↔ IsWithin minimum maximum lib
  dmm_reading_should_be_between-IsWithin minimum maximum lib =
      (passed minimum maximum lib, passes minimum maximum lib)
