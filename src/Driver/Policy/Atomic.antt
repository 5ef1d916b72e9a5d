-- ===== src/Driver/Policy/Atomic.antt =====
-- A change of the runtime policy is all or nothing, and never leaves a configuration that its own
-- validation refuses.
use hp34401a_driver.Base.{false, Option, none, some, ◌≡◌, ◌⊎◌, or_else}
use hp34401a_driver.Base.Int.{pos, ltb_ℤ}
use hp34401a_driver.Float.{Float}
use hp34401a_driver.Errors.{Result, ok, err, value_error}
use hp34401a_driver.Config.{DriverConfig, zero_f, driver_post_init}
use hp34401a_driver.Transport.{Transport}
use hp34401a_driver.Driver.{Driver}
use hp34401a_driver.Driver.Policy.{RuntimePolicy}

module _ (fl : Float) where
  open fl use {F, lt, le}

  -- What the validation of a configuration asks for.
  IsValid : DriverConfig F → Type 0
  IsValid c =
      (le c.default_timeout_s (zero_f fl) ≡ false)
      × (le c.long_measurement_timeout_s (zero_f fl) ≡ false)
      × (le c.self_test_timeout_s (zero_f fl) ≡ false)
      × (ltb_ℤ c.max_reconnect_attempts (pos 0) ≡ false)
      × (ltb_ℤ c.max_query_retries (pos 0) ≡ false)
      × (lt c.query_retry_delay_s (zero_f fl) ≡ false)

  -- The timeout that a policy asks for, if it gives a number.
  abbrev asked : Option (Option F) → Option F
  asked (some (some x)) = some x
  asked _ = none

  -- The configuration with every value of the policy that is given, and else as it was.
  unfoldable followed : RuntimePolicy F → DriverConfig F → DriverConfig F
  followed p c = record c {
    default_timeout_s = or_else (asked p.communication_timeout_s) c.default_timeout_s;
    self_test_timeout_s = or_else (asked p.self_test_timeout_s) c.self_test_timeout_s;
    long_measurement_timeout_s =
        or_else (asked p.long_measurement_timeout_s) c.long_measurement_timeout_s;
    retry_queries = or_else p.retry_queries c.retry_queries;
    max_query_retries = or_else p.max_query_retries c.max_query_retries;
    allow_calibration_commands = or_else p.allow_calibration_commands c.allow_calibration_commands;
    raw_traffic_log = or_else p.raw_traffic_log c.raw_traffic_log;
  }

abbrev timed : {F : Type 0} (t : Transport F) → Option F → t.S → t.S
timed t none s = s
timed t (some x) s = t.set_timeout x s

module _ {fl : Float} {T : Transport fl.F} where
  open fl use {F}

  -- The driver with another configuration, and with a new timeout of its transport.
  abbrev applied : Option F → DriverConfig F → Driver fl T → Driver fl T
  applied comm c d = record d { cfg = c; t = timed T comm d.t }

  -- Either a ValueError with nothing changed, or success with a configuration that is valid, and
  -- nothing changed but what the policy gives.
  pub IsAtomic : RuntimePolicy F → Driver fl T → Result (Unit {0}) × Driver fl T → Type 0
  IsAtomic p d q =
      ((q.0 ≡ err value_error) × (q.1 ≡ d))
      ⊎ ((q.0 ≡ ok tt)
          × (driver_post_init fl q.1.cfg ≡ ok q.1.cfg)
          × (q.1 ≡ applied (asked fl p.communication_timeout_s) (followed fl p d.cfg) d))
