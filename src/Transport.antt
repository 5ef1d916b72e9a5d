-- ===== src/Transport.antt =====
-- The contract between the driver and what carries its bytes: the `Transport` protocol of
-- hp34401a_dmm/transports.py, with the clock and the sleep that the driver takes from `time`.
pub mod BaseTransport
pub mod Fake
use hp34401a_driver.Base.{String, Bool, true, false, ◌≡◌}
use hp34401a_driver.Enums.{TransportType}
use hp34401a_driver.Errors.{Result, ok}

-- `S` is the transport object with the instrument and the time behind it. A call that raises
-- leaves a state too. `set_timeout` sets a field, and does not raise.
pub record Transport (F : Type 0) : Type 1 where
  pub S : Type 0
  pub transport_type : TransportType
  pub recover_on_connect : Bool
  pub clear_on_connect : Bool
  pub send_local_on_close : Bool
  pub open_t : S → Result (Unit {0}) × S
  pub close_t : S → Result (Unit {0}) × S
  pub is_open : S → Bool
  pub write : String → S → Result (Unit {0}) × S
  pub query : String → S → Result String × S
  pub read_raw : S → Result String × S
  pub write_raw : String → S → Result (Unit {0}) × S
  pub clear : S → Result (Unit {0}) × S
  pub set_timeout : F → S → S
  pub sleep : F → S → S
  pub monotonic : S → F

-- What the driver relies on: a closed transport is not open, however `close` ended, and a new
-- timeout closes nothing.
module _ {F : Type 0} (t : Transport F) where
  open t use {S, close_t, is_open, set_timeout}

  pub record Laws : Type 0 where
    pub closed : (s : S) → is_open (close_t s).1 ≡ false
    pub timeout_keeps_open : (x : F) (s : S) → is_open (set_timeout x s) ≡ is_open s
