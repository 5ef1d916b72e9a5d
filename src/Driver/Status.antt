-- ===== src/Driver/Status.antt =====
-- The error queue, identity, self-test, reset, terminals, heartbeat and `recover` of
-- hp34401a_dmm/legacy_driver.py, but for the part of `recover` that configures again.
pub mod Queue
use Prim.Native.String.{◌++◌ as append}
use hp34401a_driver.Base.{
  ℕ, zero, suc, String, Bool, true, false, not, ◌&&◌, Option, none, some, List, [], ◌∷◌,
  if◌then◌else◌,
}
use hp34401a_driver.Base.Int.{ℤ, pos}
use hp34401a_driver.Base.Text.{is_empty, strip, upper, codes, starts_with}
use hp34401a_driver.Float.{Float}
use hp34401a_driver.Enums.{
  InputTerminal, front, rear, unknown, same_terminal, immediate, connected_remote, is_not_closed,
}
use hp34401a_driver.Errors.{
  Error, Result, ok, err, base, safety, other, is_hp_error, scpi_error_for,
}
use hp34401a_driver.Measurement.{Identity, SelfTestResult, ErrorRecord, is_no_error, HealthReport}
use hp34401a_driver.Config.{zero_f}
use hp34401a_driver.Parser.{parse_float, parse_error, parse_identity}
use hp34401a_driver.Transport.{Transport}
use hp34401a_driver.Driver.{
  Driver, M, pure, raise, lift, modify, ◌>>=◌, ◌>>◌, finally, set_timeout, when,
}
use hp34401a_driver.Driver.Raw.{write, query}

-- the default of `max_errors`
abbrev pub max_errors : ℕ
max_errors = 25

abbrev with_context : String → String → String
with_context context message =
    if is_empty context then message else append context (append ": " message)

abbrev pub identity_of : String → String × String × Option String × Option String → Identity
identity_of raw (a, b, c, e) = record {
  manufacturer = a;
  model = b;
  serial = c;
  firmware = e;
  raw = raw;
}

real_errors : List ErrorRecord → List ErrorRecord
real_errors [] = []
real_errors (r ∷ rs) = let rest = real_errors rs in if is_no_error r then rest else r ∷ rest

abbrev is_clean : List ErrorRecord → Bool
is_clean [] = true
is_clean (r ∷ rs) = false

abbrev terminal_of : List ℕ → InputTerminal
terminal_of text =
    if starts_with text (codes "FRON")
    then front
    else if starts_with text (codes "REAR")
    then rear
    else unknown

module _ {fl : Float} {T : Transport fl.F} where
  open fl use {F, eq, truncate, is_finite}

  abbrev pub is_connected : Driver fl T → Bool
  is_connected d = T.is_open d.t && is_not_closed d.state

  unfoldable pub read_error : M fl T ErrorRecord
  read_error = do
    raw ← query "SYSTem:ERRor?"
    parsed ← lift (parse_error raw)
    pure (record { code = parsed.code; message = parsed.message; raw = parsed.raw })

  -- `drain_error_queue`, with the number of errors left to read
  unfoldable pub drain_error_queue : ℕ → M fl T (List ErrorRecord)
  drain_error_queue zero = pure []
  drain_error_queue (suc n) = do
    rec ← read_error
    if is_no_error rec then pure (rec ∷ []) else do rest ← drain_error_queue n; pure (rec ∷ rest)

  abbrev pub drain_all : M fl T (Unit {0})
  drain_all = do drain_error_queue max_errors; pure tt

  unfoldable pub assert_no_error : String → M fl T (Unit {0})
  assert_no_error context = do
    rec ← read_error
    when (not (is_no_error rec))
        (do drain_all; raise (scpi_error_for rec.code (with_context context rec.message) rec.raw))

  unfoldable pub identify : M fl T Identity
  identify = do
    raw ← query "*IDN?"
    parts ← lift (parse_identity raw)
    modify (λ d. record d { identity = some (identity_of raw parts) })
    pure (identity_of raw parts)

  -- `int(code)` raises on an infinity or a NaN.
  unfoldable pub self_test : M fl T SelfTestResult
  self_test d =
      (do
        set_timeout d.cfg.self_test_timeout_s
        raw ← finally (query "*TST?") (set_timeout d.cfg.default_timeout_s)
        code ← lift (parse_float fl raw)
        lift (if is_finite code then ok tt else err other)
        pure (record {
          passed = eq code (zero_f fl);
          code = truncate code;
          raw = raw;
          message = if eq code (zero_f fl) then "self-test passed" else "self-test FAILED";
        }))
        d

  abbrev pub clear_status : M fl T (Unit {0})
  clear_status = write "*CLS"

  unfoldable pub reset : Bool → M fl T (Unit {0})
  reset confirm = if not confirm then raise safety else do
    write "*RST"
    modify (λ d. record d {
      state = connected_remote;
      trigger_source = immediate;
      active_function = none;
      last_configure = none;
    })

  -- `self._identity or self.identify()`
  abbrev cached_identity : Option Identity → M fl T Identity
  cached_identity (some ident) = pure ident
  cached_identity none = identify

  healthy : Identity → List ErrorRecord → Driver fl T → HealthReport
  healthy ident found d = record {
    connected = is_connected d;
    identity = some ident;
    error_queue_clean = is_clean found;
    pending_errors = found;
    state = d.state;
    message = none;
  }

  unhealthy : Error → Driver fl T → HealthReport
  unhealthy e d = record {
    connected = false;
    identity = d.identity;
    error_queue_clean = false;
    pending_errors = [];
    state = d.state;
    message = some e;
  }

  abbrev health : M fl T HealthReport
  health d =
      (do
        ident ← cached_identity d.identity
        pending ← drain_error_queue max_errors
        λ d'. (ok (healthy ident (real_errors pending) d'), d'))
        d

  unfoldable pub heartbeat : M fl T HealthReport
  unfolding real_errors healthy unhealthy
  heartbeat d =
      let (r, d') = health d in
      elim r [
        | ok report ↦ (ok report, d')
        | err e ↦ (if is_hp_error e then ok (unhealthy e d') else err e, d')
      ]

  unfoldable pub query_terminal : M fl T InputTerminal
  query_terminal = do
    raw ← query "ROUTe:TERMINals?"
    let found = terminal_of (upper (strip raw))
    modify (λ d. record d { terminal = some found })
    pure found

  unfoldable pub require_terminal : InputTerminal → M fl T (Unit {0})
  require_terminal expected = do
    actual ← query_terminal
    lift (if same_terminal actual expected then ok tt else err base)
