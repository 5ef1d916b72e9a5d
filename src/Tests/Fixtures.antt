-- ===== src/Tests/Fixtures.antt =====
-- Concrete parameters for the tests: whole numbers as `float`, and transports that follow a script.
use text.Mathlib.Text.{◌==◌ as str_eq}
use hp34401a_driver.Base.{
  ℕ, zero, suc, ◌+◌, ◌*◌, String, Bool, true, false, Option, none, some, List, [], ◌∷◌,
  if◌then◌else◌,
}
use hp34401a_driver.Base.Int.{ℤ, pos, negsuc, pos_part, neg_part, sub_ℕ, ◌*ℤ◌, leb_ℤ, ltb_ℤ, eqb_ℤ}
use hp34401a_driver.Float.{Float}
use hp34401a_driver.Enums.{visa_gpib, configured, volt_dc, value, plc10, on}
use hp34401a_driver.Errors.{Result, ok, err, timeout}
use hp34401a_driver.Config.{DriverConfig}
use hp34401a_driver.Transport.{Transport}
use hp34401a_driver.Transport.BaseTransport.{Core, returned, raised, core_timeout, Line}
use hp34401a_driver.Driver.{Driver, init, plain}

-- The power of ten.
abbrev ten_to : ℕ → ℕ
ten_to zero = 1
ten_to (suc n) = 10 * ten_to n

abbrev literal : ℤ → ℤ → ℤ
literal m (pos e) = m *ℤ pos (ten_to e)
literal m (negsuc e) = pos 0

-- The responses of the tests.
abbrev parsed : String → Option ℤ
parsed text =
    if str_eq text "7"
    then some (pos 7)
    else if str_eq text "8"
    then some (pos 8)
    else if str_eq text "-9"
    then some (negsuc 8)
    else none

abbrev pub whole : Float
whole = record {
  F = ℤ;
  parse = parsed;
  lit = literal;
  lt = ltb_ℤ;
  le = leb_ℤ;
  eq = eqb_ℤ;
  add = λ a b. sub_ℕ (pos_part a + pos_part b) (neg_part a + neg_part b);
  sub = λ a b. sub_ℕ (pos_part a + neg_part b) (neg_part a + pos_part b);
  mul = λ a b. a *ℤ b;
  div = λ a b. a;
  abs = λ a. pos (pos_part a + neg_part a);
  of_int = λ n. n;
  truncate = λ a. a;
  round = λ a. a;
  is_finite = λ a. true;
  repr = λ a. "";
  pstdev = λ xs. pos 0;
  sum = λ xs. pos 0;
  inf = pos 0;
}

-- A transport that is open, takes every command, and answers queries from a script; where the
-- script ends, a query times out.
pub record Script : Type 0 where
  pub answers : List String
  pub opened : Bool

abbrev answer : Script → Result String × Script
answer s = elim s.answers [
  | [] ↦ (err timeout, s)
  | (a ∷ rest) ↦ (ok a, record s { answers = rest })
]

abbrev pub scripted : Transport ℤ
scripted = record {
  S = Script;
  transport_type = visa_gpib;
  recover_on_connect = false;
  clear_on_connect = false;
  send_local_on_close = false;
  open_t = λ s. (ok tt, record s { opened = true });
  close_t = λ s. (ok tt, record s { opened = false });
  is_open = λ s. s.opened;
  write = λ c s. (ok tt, s);
  query = λ c s. answer s;
  read_raw = λ s. answer s;
  write_raw = λ c s. (ok tt, s);
  clear = λ s. (ok tt, s);
  set_timeout = λ x s. s;
  sleep = λ x s. s;
  monotonic = λ s. pos 0;
}

abbrev pub open_script : List String → Script
open_script answers = record { answers = answers; opened = true }

abbrev pub config : DriverConfig ℤ
config = record {
  reset_on_connect = false;
  clear_status_on_connect = true;
  verify_identity_on_connect = true;
  drain_error_queue_on_connect = true;
  default_timeout_s = pos 5;
  long_measurement_timeout_s = pos 30;
  self_test_timeout_s = pos 30;
  line_frequency_hz = 50;
  auto_reconnect = false;
  max_reconnect_attempts = pos 1;
  retry_queries = true;
  max_query_retries = pos 1;
  query_retry_delay_s = pos 0;
  retry_all_queries_on_timeout = false;
  retry_writes = false;
  allow_calibration_commands = false;
  thread_safe = true;
  raw_traffic_log = true;
}

-- A byte transport on which every query times out.
abbrev pub silent : Core ℤ
silent = record {
  W = Unit {0};
  build = λ w. (returned tt, w);
  open_core = λ w. (returned tt, w);
  new_client = λ w. (returned tt, w);
  close_core = λ w. (returned tt, w);
  client_write = λ c x w. (returned tt, w);
  client_query = λ c x w. (raised core_timeout, w);
  read = λ x w. (raised core_timeout, w);
  decode_response = λ s. returned s;
  write_bytes = λ c x w. (returned tt, w);
  do_clear = λ x w. (returned tt, w);
  pause = λ x w. w;
  clock = λ w. pos 0;
}

abbrev pub silent_line : Line silent
silent_line = record {
  has_unread_output = false;
  is_opened = true;
  timeout_s = pos 5;
  has_core = true;
  world = tt;
}

-- Configured for DC voltage, with a script of answers.
abbrev pub ready_driver : List String → Driver whole scripted
ready_driver answers = record (init whole scripted (open_script answers) config) {
  state = configured;
  active_function = some volt_dc;
  last_configure = some (plain volt_dc (value (pos 10)) (some plc10) on none);
  trace = some [];
}

-- A driver whose configuration was rejected, for a range of 11 V.
abbrev pub rejected_driver : List String → Driver whole scripted
rejected_driver answers = record (ready_driver answers) {
  last_configure = some (plain volt_dc (value (pos 11)) (some plc10) on none);
}
