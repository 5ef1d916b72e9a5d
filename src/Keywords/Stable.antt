-- ===== src/Keywords/Stable.antt =====
-- The keywords of rf_hp34401a/legacy_library.py that wait for a stable resistance, with the profile
-- that rf_hp34401a/runtime_library.py makes of their arguments. `none` is fuel that ran out.
pub mod Returned
use hp34401a_driver.Base.{
  ℕ, String, Bool, true, false, not, ◌||◌, Option, none, some, List, [], ◌∷◌, if◌then◌else◌,
}
use hp34401a_driver.Base.Int.{ℤ, pos_part}
use hp34401a_driver.Base.Text.{codes, lower, strip}
use hp34401a_driver.Float.{Float}
use hp34401a_driver.Enums.{AutoRange, Nplc}
use hp34401a_driver.Errors.{Result, ok, err, not_stable}
use hp34401a_driver.Measurement.{MeasurementReading, StableMeasurementResult}
use hp34401a_driver.Config.{StabilityProfile, profile_post_init, zero_f}
use hp34401a_driver.Transport.{Transport}
use hp34401a_driver.Driver.{Driver}
use hp34401a_driver.Driver.Stable.{read_stable_resistance as settle}
use hp34401a_driver.Converters.{
  Arg, no_value, bool, int, float, text, MemberOr, in_keys, str_of, float_of, as_bool, as_int,
  as_nplc, as_optional_float, as_range, as_seconds,
}
use hp34401a_driver.Keywords.{
  Raised, returned, rfds, native, Answer, done, robot, assertion_failed, untranslated,
  driver_state_error, driver_validation_error, execute, raised_of, Session, Library,
}

-- The arguments, but for the alias.
pub record StableArguments (F : Type 0) : Type 0 where
  pub expected_ohm : Arg F
  pub range_value : MemberOr AutoRange F
  pub nplc : Arg F
  pub final_nplc : Arg F
  pub min_settle : Arg F
  pub max_wait : Arg F
  pub sample_interval : Arg F
  pub window_size : Arg F
  pub max_stdev_ohm : Arg F
  pub max_relative_stdev : Arg F
  pub max_slope_relative_per_s : Arg F
  pub four_wire : Arg F

infixl 5 ◌>>=◌
abbrev ◌>>=◌ : {A B : Type 0} → Option A → (A → Option B) → Option B
none >>= f = none
some a >>= f = f a

module _ (fl : Float) (timestr : String → Option fl.F) where
  open fl use {F, lt, is_finite}

  -- `not math.isfinite(seconds) or seconds < 0`
  abbrev nonnegative : Option F → Option F
  nonnegative none = none
  nonnegative (some x) = if not (is_finite x) || lt x (zero_f fl) then none else some x

  -- `_as_nonnegative_seconds`
  unfoldable pub as_nonnegative_seconds : Arg F → Option F
  as_nonnegative_seconds (bool b) = nonnegative (float_of fl (bool b))
  as_nonnegative_seconds (int n) = nonnegative (float_of fl (int n))
  as_nonnegative_seconds (float x) = nonnegative (some x)
  as_nonnegative_seconds v = nonnegative (timestr (strip (str_of fl v)))

  abbrev optional_nplc : Arg F → Option (Option Nplc)
  optional_nplc no_value = some none
  optional_nplc v =
      if in_keys (codes "" ∷ codes "none" ∷ codes "${none}" ∷ []) (lower (strip (str_of fl v)))
      then some none
      else elim (as_nplc fl v) [ none ↦ none | some n ↦ some (some n) ]

  -- The conversions of `_stable_profile`; `none` is a DriverValidationError
  unfoldable pub converted_profile : StableArguments F → Option (StabilityProfile F)
  converted_profile a = do
    final ← optional_nplc a.final_nplc
    expected ← as_optional_float fl a.expected_ohm
    range ← as_range fl a.range_value
    nplc ← as_nplc fl a.nplc
    settle ← as_nonnegative_seconds a.min_settle
    wait ← as_seconds fl timestr a.max_wait
    interval ← as_seconds fl timestr a.sample_interval
    window ← as_int fl a.window_size
    stdev ← as_optional_float fl a.max_stdev_ohm
    relative ← as_optional_float fl a.max_relative_stdev
    slope ← as_optional_float fl a.max_slope_relative_per_s
    four ← as_bool fl a.four_wire
    some (record {
      expected_ohm = expected;
      range_ohm = range;
      nplc = nplc;
      final_nplc = final;
      min_settle_s = settle;
      max_wait_s = wait;
      sample_interval_s = interval;
      window_size = pos_part window;
      max_stdev_ohm = stdev;
      max_relative_stdev = relative;
      max_slope_relative_per_s = slope;
      reject_overload = true;
      four_wire = four;
    })

  abbrev checked : Option (StabilityProfile F) → Answer (StabilityProfile F)
  checked none = robot driver_validation_error
  checked (some p) = elim (profile_post_init fl p) [ ok q ↦ done q | err e ↦ untranslated e ]

  -- `_stable_profile`; the ValueError of StabilityProfile passes no `_execute`
  abbrev pub stable_profile : StableArguments F → Answer (StabilityProfile F)
  stable_profile a = checked (converted_profile a)

-- `session.last_reading = result.reading`, if there is one
abbrev remember :
    {fl : Float} {T : Transport fl.F}
    → Option (MeasurementReading fl.F)
    → Session fl T
    → Session fl T
remember none s = s
remember (some r) s = record s { last_reading = some r }

-- The loop under `_execute`, then its reading.
abbrev pub kept :
    {fl : Float} {T : Transport fl.F}
    → Option (Result (StableMeasurementResult fl.F))
    → Session fl T
    → Option (Answer (StableMeasurementResult fl.F)) × Session fl T
kept none s = (none, s)
kept (some (ok r)) s = (some (execute (returned r)), remember r.reading s)
kept (some (err e)) s = (some (execute (native e)), s)

abbrev pub settled_with :
    {fl : Float} {T : Transport fl.F}
    → Answer (StabilityProfile fl.F)
    → ℕ
    → Session fl T
    → Option (Answer (StableMeasurementResult fl.F)) × Session fl T
settled_with (done p) fuel s =
    let (o, d) = settle p fuel s.driver in kept o (record s { driver = d })
settled_with (robot c) fuel s = (some (robot c), s)
settled_with assertion_failed fuel s = (some assertion_failed, s)
settled_with (untranslated e) fuel s = (some (untranslated e), s)

module _ {fl : Float} {T : Transport fl.F} (timestr : String → Option fl.F) where
  open fl use {F}

  -- `try_read_stable_resistance`, as the result in place of its dictionary
  pub try_read_stable_resistance :
      StableArguments F
      → ℕ
      → Library fl T
      → Option (Answer (StableMeasurementResult F)) × Library fl T
  try_read_stable_resistance a fuel lib = elim lib.session [
    | none ↦ (some (robot driver_state_error), lib)
    | some s ↦
        let (o, s') = settled_with (stable_profile fl timestr a) fuel s in
        (o, record lib { session = some s' })
  ]

-- The number of a result that is stable.
abbrev pub number_of : {F : Type 0} → Answer (StableMeasurementResult F) → Answer F
number_of (done r) =
    if not r.stable
    then untranslated not_stable
    else elim r.result_value [ none ↦ untranslated not_stable | some v ↦ done v ]
number_of (robot c) = robot c
number_of assertion_failed = assertion_failed
number_of (untranslated e) = untranslated e

abbrev pub number_if_ended :
    {F : Type 0} → Option (Answer (StableMeasurementResult F)) → Option (Answer F)
number_if_ended none = none
number_if_ended (some a) = some (number_of a)

module _ {fl : Float} {T : Transport fl.F} (timestr : String → Option fl.F) where
  open fl use {F}

  -- `read_stable_resistance`
  unfoldable pub read_stable_resistance :
      StableArguments F → ℕ → Library fl T → Option (Answer F) × Library fl T
  read_stable_resistance a fuel lib =
      let (o, lib') = try_read_stable_resistance timestr a fuel lib in (number_if_ended o, lib')
