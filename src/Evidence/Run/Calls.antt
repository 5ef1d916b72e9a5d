-- ===== src/Evidence/Run/Calls.antt =====
-- Any sequence of calls of an evidence run, with operations inside operations, and what it adds up
-- to, counted on the calls alone.
use hp34401a_driver.Base.{ℕ, ◌+◌, String, Bool, Option, if◌then◌else◌, or_else}
use hp34401a_driver.Evidence.Json.{Fields}
use hp34401a_driver.Evidence.Records.{Exc, EventCall, Subject, Outcome, raised, Run, is_warn}
use hp34401a_driver.Evidence.Run.{
  emit_event, record_error, record_operation, log_protocol, record_device_identity,
}

-- The body of an operation is a sequence of calls, and how it ends: an exception of an operation in
-- it may be caught there or go on.
mutual
  pub data Call (F : Type 0) : Type 0 where
    event : EventCall F → Call F
    failure : Exc F → Subject → Option Bool → Call F
    operation : String → String → Option String → Fields F → Calls F → Outcome F → Call F
    protocol : String → String → String → Option String → Call F
    identity : String → Option String → Fields F → Call F

  pub data Calls (F : Type 0) : Type 0 where
    stop : Calls F
    next : Call F → Calls F → Calls F

-- A refused protocol entry is a ValueError, and changes nothing.
unfoldable mutual
  pub perform : {F : Type 0} → Call F → Run F → Run F
  perform (event c) r = emit_event c r
  perform (failure e c recoverable) r = record_error e c recoverable r
  perform (operation fresh name alias args body out) r =
      (record_operation fresh name alias args (λ r'. (out, perform_all body r')) r).1
  perform (protocol direction kind sent alias) r =
      or_else (log_protocol direction kind sent alias r) r
  perform (identity alias transport fields) r = record_device_identity alias transport fields r

  pub perform_all : {F : Type 0} → Calls F → Run F → Run F
  perform_all stop r = r
  perform_all (next c cs) r = perform_all cs (perform c r)

abbrev pub failed : {F : Type 0} → Outcome F → ℕ
failed (raised e) = 1
failed _ = 0

-- How many errors are recorded: by a call, or as an operation that ends with an Exception.
unfoldable mutual
  pub failures : {F : Type 0} → Call F → ℕ
  failures (failure e c recoverable) = 1
  failures (operation fresh name alias args body out) = failures_all body + failed out
  failures _ = 0

  pub failures_all : {F : Type 0} → Calls F → ℕ
  failures_all stop = 0
  failures_all (next c cs) = failures c + failures_all cs

-- How many events of the level WARN are emitted.
unfoldable mutual
  pub warnings : {F : Type 0} → Call F → ℕ
  warnings (event c) = if is_warn c.call_level then 1 else 0
  warnings (operation fresh name alias args body out) = warnings_all body
  warnings _ = 0

  pub warnings_all : {F : Type 0} → Calls F → ℕ
  warnings_all stop = 0
  warnings_all (next c cs) = warnings c + warnings_all cs
