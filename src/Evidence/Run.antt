-- ===== src/Evidence/Run.antt =====
-- `EvidenceRun` of hp34401a_dmm/evidence.py, with the files it appends to as lists and the context
-- variables of the thread. Writing a file does not fail.
pub mod Calls
pub mod Numbering
pub mod Complete
pub mod Counted
pub mod FailClosed
pub mod Mode
pub mod Trail
use Prim.Native.String.{◌++◌ as append}
use hp34401a_driver.Base.{
  ℕ, suc, ◌+◌, String, Bool, true, false, Option, none, some, List, [], ◌∷◌, ◌++◌, ◌||◌, any,
  if◌then◌else◌, ltb, or_else,
}
use hp34401a_driver.Base.Text.{codes, upper, lower, strip, contains, is_empty}
use hp34401a_driver.Base.Show.{show}
use hp34401a_driver.Base.Dict.{Key, same_key, find, put}
use hp34401a_driver.Evidence.Json.{
  Value, null, text, mapping, Fields, end, field, json_safe, redact_mapping,
}
use hp34401a_driver.Evidence.Records.{
  Exc, Category, names, classify_exception, Level, is_warn, or_text, Event, Operation, ErrorEntry,
  Exchange, Summary, Run, EventCall, Subject, Outcome, Started, count_of, events_stream,
  operations_stream, errors_stream, exchanges_stream, six_digits, warn_level, info_level,
  debug_level, error_level, done, raised, interrupted,
}

-- The execution mode after a device, with its transport in lower case.
pub mode_after : Key → Key → Key
mode_after transport mode =
    if same_key transport (codes "simulation")
    then codes "SIMULATION"
    else if same_key transport []
    then mode
    else if same_key mode (codes "UNKNOWN")
    then codes "REAL_HARDWARE"
    else mode

-- `_write_environment` follows each assignment of the mode.
abbrev environment_after : Key → Key → List Key
environment_after transport mode =
    if same_key transport (codes "simulation")
    then codes "SIMULATION" ∷ []
    else if same_key transport []
    then []
    else if same_key mode (codes "UNKNOWN")
    then codes "REAL_HARDWARE" ∷ []
    else []

abbrev pub transport_key : Option String → Key
transport_key none = []
transport_key (some t) = lower t

-- `str(status).strip().upper() or "PASS"`
abbrev pub requested_status : String → Key
requested_status status =
    let asked = upper (strip status) in if same_key asked [] then codes "PASS" else asked

module _ {F : Type 0} where
  -- The lock around the next number of a stream.
  abbrev pub next_number : Key → Run F → ℕ
  next_number stream r = suc (count_of stream r.sequence)

  unfoldable pub emit_event : EventCall F → Run F → Run F
  emit_event c r =
      let entry : Event F = record {
        event_number = next_number events_stream r;
        producer = append "rf_hp34401a:" (or_else (or_text c.call_alias none) r.driver_id);
        level = c.call_level;
        event_type = c.call_type;
        event_correlation = or_text c.call_correlation r.current_correlation;
        event_operation = or_text c.call_operation r.current_operation;
        event_alias = c.call_alias;
        suite = r.current_suite;
        test = r.current_test;
        keyword = r.current_keyword;
        event_data = redact_mapping c.call_data;
      } in
      record r {
        sequence = put events_stream (next_number events_stream r) r.sequence;
        events = r.events ++ entry ∷ [];
        warning_count = if is_warn c.call_level then suc r.warning_count else r.warning_count;
      }

  unfoldable pub record_error : Exc F → Subject → Option Bool → Run F → Run F
  record_error e c recoverable r =
      let entry : ErrorEntry F = record {
        error_number = next_number errors_stream r;
        error_id = append "err-" (six_digits (suc r.error_counter));
        error_correlation = or_text c.subject_correlation r.current_correlation;
        error_operation = or_text c.subject_operation r.current_operation;
        error_capability = c.subject_capability;
        error_alias = c.subject_alias;
        category = classify_exception e;
        exception = e;
        recoverable = recoverable;
      } in
      record r {
        error_counter = suc r.error_counter;
        run_failed = true;
        sequence = put errors_stream (next_number errors_stream r) r.sequence;
        errors = r.errors ++ entry ∷ [];
        error_count = suc r.error_count;
      }

  -- `record_operation` up to the `try`, where `fresh` is a new correlation id.
  unfoldable pub start_operation :
      String → String → Option String → Fields F → Run F → Started F × Run F
  start_operation fresh name alias args r =
      let id = append "op-" (six_digits (suc r.operation_counter)) in
      let correlation = or_else (or_text r.current_correlation none) fresh in
      let safe = redact_mapping args in
      let started : Started F = record {
        operation_id = id;
        correlation_id = correlation;
        operation_name = name;
        alias = alias;
        safe_arguments = safe;
      } in
      (
        started,
        emit_event
            (record {
              call_type = "OPERATION_STARTED";
              call_level = debug_level;
              call_data = field "arguments" (mapping safe) end;
              call_correlation = some correlation;
              call_operation = some id;
              call_alias = alias;
            })
            (record r {
              operation_counter = suc r.operation_counter;
              current_correlation = some correlation;
              current_operation = some id;
            }),
      )

  -- The handler of an `Exception`.
  unfoldable pub handle : Started F → Outcome F → Run F → Run F
  handle s (raised e) r =
      record_error e
        (record {
          subject_correlation = some s.correlation_id;
          subject_operation = some s.operation_id;
          subject_capability = some s.operation_name;
          subject_alias = s.alias;
        })
        none (record r { run_failed = true })
  handle s out r = r

  -- `status == "PASS"`, which only the handler changes
  abbrev is_pass : Outcome F → Bool
  is_pass (raised e) = false
  is_pass _ = true

  -- `_json_safe(ctx.result) if status == "PASS" else None`
  abbrev shown_result : Outcome F → Value F
  shown_result (done v) = json_safe v
  shown_result (interrupted v) = json_safe v
  shown_result (raised e) = null

  abbrev failure_of : Outcome F → Option (Exc F)
  failure_of (raised e) = some e
  failure_of _ = none

  -- The `finally`, with the two context variables of before.
  unfoldable pub finish_operation :
      Started F → Outcome F → Option String → Option String → Run F → Run F
  finish_operation s out old_correlation old_operation r =
      let entry : Operation F = record {
        operation_number = next_number operations_stream r;
        id = s.operation_id;
        correlation = s.correlation_id;
        capability = s.operation_name;
        operation_alias = s.alias;
        arguments = s.safe_arguments;
        outcome = shown_result out;
        passed = is_pass out;
        failure = failure_of out;
      } in
      let closed =
        emit_event
          (record {
            call_type = if is_pass out then "OPERATION_COMPLETED" else "OPERATION_FAILED";
            call_level = if is_pass out then info_level else error_level;
            call_data = end;
            call_correlation = some s.correlation_id;
            call_operation = some s.operation_id;
            call_alias = s.alias;
          })
          (record r {
            sequence = put operations_stream (next_number operations_stream r) r.sequence;
            operations = r.operations ++ entry ∷ [];
          }) in
      record closed { current_correlation = old_correlation; current_operation = old_operation }

  unfoldable pub record_operation :
      String
      → String
      → Option String
      → Fields F
      → (Run F → Outcome F × Run F)
      → Run F
      → Outcome F × Run F
  record_operation fresh name alias args body r =
      let (s, r') = start_operation fresh name alias args r in
      let (out, r'') = body r' in
      (out, finish_operation s out r.current_correlation r.current_operation (handle s out r''))

  -- `none` is a ValueError
  unfoldable pub log_protocol : String → String → String → Option String → Run F → Option (Run F)
  log_protocol direction kind sent alias r =
      let entry : Exchange F = record {
        exchange_number = next_number exchanges_stream r;
        exchange_operation = r.current_operation;
        exchange_correlation = r.current_correlation;
        transport_kind = kind;
        direction = direction;
        exchange_alias = alias;
        sent_text = sent;
      } in
      if same_key (codes direction) (codes "outbound")
        || same_key (codes direction) (codes "inbound")
      then some (record r {
        sequence = put exchanges_stream (next_number exchanges_stream r) r.sequence;
        exchanges = r.exchanges ++ entry ∷ [];
      })
      else none

  -- `d[key] = value` on a dict of values
  abbrev put_field : String → Value F → Fields F → Fields F
  put_field key v end = field key v end
  put_field key v (field k w fs) =
      let rest = put_field key v fs in
      if same_key (codes key) (codes k) then field k v fs else field k w rest

  abbrev is_null : Value F → Bool
  is_null null = true
  is_null _ = false

  -- `existing.update(...)` with the fields that are not None
  abbrev update : Fields F → Fields F → Fields F
  update old end = old
  update old (field k v fs) = update (if is_null v then old else put_field k v old) fs

  abbrev transport_field : Option String → Fields F → Fields F
  transport_field none fs = fs
  transport_field (some t) fs = field "transport" (text t) fs

  -- `record_device_identity`, with the transport apart from the other fields
  unfoldable pub record_device_identity : String → Option String → Fields F → Run F → Run F
  record_device_identity alias transport fields r =
      let known = or_else (find (codes alias) r.device_identities) end in
      record r {
        device_identities =
            put (codes alias) (update known (transport_field transport fields)) r.device_identities;
        execution_mode = mode_after (transport_key transport) r.execution_mode;
        environments =
            r.environments ++ environment_after (transport_key transport) r.execution_mode;
      }

  pub effective_status : String → Run F → Key
  effective_status status r =
      if r.run_failed || ltb 0 r.error_count || same_key (requested_status status) (codes "FAIL")
      then codes "FAIL"
      else requested_status status

  abbrev is_empty_dict : List (Key × Fields F) → Bool
  is_empty_dict [] = true
  is_empty_dict _ = false

  -- An event of the run itself.
  abbrev pub run_event : String → EventCall F
  run_event name = record {
    call_type = name;
    call_level = info_level;
    call_data = end;
    call_correlation = none;
    call_operation = none;
    call_alias = none;
  }

  unfoldable pub finalize : String → Run F → Run F
  finalize status r =
      let told = emit_event (run_event "RUN_FINISHING") r in
      if r.finalized then r else record told {
        summary = some (record {
          final_status = effective_status status r;
          summary_mode = told.execution_mode;
          summary_errors = told.error_count;
          summary_warnings = told.warning_count;
          has_identity = if is_empty_dict told.device_identities then false else true;
        });
        finalized = true;
      }

  -- `EvidenceRun.__init__`
  unfoldable pub new_run : String → String → Run F
  new_run driver_id execution_mode = emit_event (run_event "RUN_STARTED") (record {
    driver_id = driver_id;
    execution_mode = upper execution_mode;
    sequence = [];
    operation_counter = 0;
    error_counter = 0;
    error_count = 0;
    warning_count = 0;
    run_failed = false;
    finalized = false;
    device_identities = [];
    events = [];
    operations = [];
    errors = [];
    exchanges = [];
    environments = upper execution_mode ∷ [];
    summary = none;
    current_correlation = none;
    current_operation = none;
    current_suite = none;
    current_test = none;
    current_keyword = none;
  })
