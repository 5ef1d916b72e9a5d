-- ===== src/Driver/Policy.antt =====
-- The runtime policy of hp34401a_dmm/driver.py. A value that `float()` refuses, which is a
-- ValueError before anything else, is `none`. The transport's own traffic-log flag is left out.
pub mod Atomic
use hp34401a_driver.Base.{
  String, Bool, true, false, not, ◌||◌, Option, none, some, if◌then◌else◌, or_else, is_some,
}
use hp34401a_driver.Base.Int.{ℤ, pos, ltb_ℤ}
use hp34401a_driver.Float.{Float}
use hp34401a_driver.Errors.{Result, ok, err, value_error}
use hp34401a_driver.Config.{DriverConfig, zero_f, driver_post_init}
use hp34401a_driver.Transport.{Transport}
use hp34401a_driver.Driver.{
  Driver, M, inbound, pure, lift, modify, ◌>>=◌, ◌>>◌, on_transport, set_timeout, call_trace,
}

-- The keyword arguments of `apply_runtime_policy`.
pub record RuntimePolicy (F : Type 0) : Type 0 where
  pub communication_timeout_s : Option (Option F)
  pub self_test_timeout_s : Option (Option F)
  pub long_measurement_timeout_s : Option (Option F)
  pub retry_queries : Option Bool
  pub max_query_retries : Option ℤ
  pub allow_calibration_commands : Option Bool
  pub raw_traffic_log : Option Bool

-- `if changes`
abbrev pub has_changes : {F : Type 0} → RuntimePolicy F → Bool
has_changes p =
    is_some p.communication_timeout_s
    || is_some p.self_test_timeout_s
    || is_some p.long_measurement_timeout_s
    || is_some p.retry_queries
    || is_some p.max_query_retries
    || is_some p.allow_calibration_commands
    || is_some p.raw_traffic_log

module _ (fl : Float) where
  open fl use {F, le, is_finite}

  -- `_positive_finite`
  pub positive_finite : Option F → Result F
  positive_finite none = err value_error
  positive_finite (some x) = if not (is_finite x) || le x (zero_f fl) then err value_error else ok x

  -- One of the three timeouts: its change, if it is given.
  abbrev pub checked_timeout : Option (Option F) → Result (Option F)
  checked_timeout none = ok none
  checked_timeout (some x) = elim (positive_finite x) [ ok y ↦ ok (some y) | err e ↦ err e ]

  abbrev pub checked_retries : Option ℤ → Result (Option ℤ)
  checked_retries none = ok none
  checked_retries (some n) = if ltb_ℤ n (pos 0) then err value_error else ok (some n)

  -- `replace(cfg, **changes)` before `__post_init__` runs again
  abbrev pub replaced :
      Option F → Option F → Option F → Option ℤ → RuntimePolicy F → DriverConfig F → DriverConfig F
  replaced comm test long retries p c = record c {
    default_timeout_s = or_else comm c.default_timeout_s;
    self_test_timeout_s = or_else test c.self_test_timeout_s;
    long_measurement_timeout_s = or_else long c.long_measurement_timeout_s;
    retry_queries = or_else p.retry_queries c.retry_queries;
    max_query_retries = or_else retries c.max_query_retries;
    allow_calibration_commands = or_else p.allow_calibration_commands c.allow_calibration_commands;
    raw_traffic_log = or_else p.raw_traffic_log c.raw_traffic_log;
  }

module _ {fl : Float} {T : Transport fl.F} where
  open fl use {F}

  abbrev pub set_timeout_if : Option F → M fl T (Unit {0})
  set_timeout_if none = pure tt
  set_timeout_if (some x) = set_timeout x

  -- `self._cfg = replace(self._cfg, …)`, which validates the new configuration
  abbrev pub replace_config : (DriverConfig F → DriverConfig F) → M fl T (Unit {0})
  replace_config change d = elim (driver_post_init fl (change d.cfg)) [
    | ok c ↦ (ok tt, record d { cfg = c })
    | err e ↦ (err e, d)
  ]

  unfoldable set_communication_timeout : Option F → M fl T F
  set_communication_timeout x = do
    v ← lift (positive_finite fl x)
    set_timeout v
    replace_config (λ c. record c { default_timeout_s = v })
    pure v

  unfoldable read_raw_response : M fl T String
  read_raw_response = do
    response ← on_transport T.read_raw
    call_trace inbound response
    pure response

  pub apply_runtime_policy : RuntimePolicy F → M fl T (Unit {0})
  apply_runtime_policy p = do
    comm ← lift (checked_timeout fl p.communication_timeout_s)
    test ← lift (checked_timeout fl p.self_test_timeout_s)
    long ← lift (checked_timeout fl p.long_measurement_timeout_s)
    retries ← lift (checked_retries fl p.max_query_retries)
    set_timeout_if comm
    if has_changes p then replace_config (replaced fl comm test long retries p) else pure tt
