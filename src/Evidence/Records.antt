-- ===== src/Evidence/Records.antt =====
-- The records of hp34401a_dmm/evidence.py: what a run keeps and writes, without time stamps, texts
-- for people, and the identifiers that `uuid4` makes, but for the correlation.
use Prim.Native.String.{◌++◌ as append}
use hp34401a_driver.Base.{
  ℕ, String, Bool, true, false, Option, none, some, List, ◌||◌, if◌then◌else◌, ltb, or_else,
}
use hp34401a_driver.Base.Text.{codes, contains, is_empty}
use hp34401a_driver.Base.Show.{show}
use hp34401a_driver.Base.Dict.{Key, find}
use hp34401a_driver.Evidence.Json.{Value, Fields}

-- An exception: `type(exc).__name__`, its text and its `code`.
pub record Exc (F : Type 0) : Type 0 where
  pub class_name : String
  pub message : String
  pub code : Value F

pub data Category : Type 0 where
  validation configuration state timeout connection protocol cleanup unsupported safety device
        unknown_category :
      Category

abbrev pub names : String → String → Bool
names part name = contains (codes part) (codes name)

-- `_classify_exception`
unfoldable pub classify_exception : {F : Type 0} → Exc F → Category
classify_exception e =
    let has = λ (part : String). names part e.class_name in
    if has "Validation"
    then validation
    else if has "Configuration"
    then configuration
    else if has "State"
    then state
    else if has "Timeout"
    then timeout
    else if has "Connection"
    then connection
    else if has "Protocol" || has "SCPI" || has "Recovery"
    then protocol
    else if has "Cleanup"
    then cleanup
    else if has "Unsupported"
    then unsupported
    else if has "Safety"
    then safety
    else if has "Device" || has "Overload" || has "Stable"
    then device
    else unknown_category

pub data Level : Type 0 where
  trace_level debug_level info_level warn_level error_level critical_level : Level

abbrev pub is_warn : Level → Bool
is_warn warn_level = true
is_warn _ = false

-- `a or b` on optional texts
abbrev pub or_text : Option String → Option String → Option String
or_text none b = b
or_text (some a) b = if is_empty a then b else some a

-- What `record_operation` and `record_error` are told about a call.
pub record Subject : Type 0 where
  pub subject_correlation : Option String
  pub subject_operation : Option String
  pub subject_capability : Option String
  pub subject_alias : Option String

module _ (F : Type 0) where
  pub record Event : Type 0 where
    pub event_number : ℕ
    pub producer : String
    pub level : Level
    pub event_type : String
    pub event_correlation : Option String
    pub event_operation : Option String
    pub event_alias : Option String
    pub suite : Option String
    pub test : Option String
    pub keyword : Option String
    pub event_data : Fields F

  pub record Operation : Type 0 where
    pub operation_number : ℕ
    pub id : String
    pub correlation : String
    pub capability : String
    pub operation_alias : Option String
    pub arguments : Fields F
    pub outcome : Value F
    pub passed : Bool
    pub failure : Option (Exc F)

  pub record ErrorEntry : Type 0 where
    pub error_number : ℕ
    pub error_id : String
    pub error_correlation : Option String
    pub error_operation : Option String
    pub error_capability : Option String
    pub error_alias : Option String
    pub category : Category
    pub exception : Exc F
    pub recoverable : Option Bool

  pub record Exchange : Type 0 where
    pub exchange_number : ℕ
    pub exchange_operation : Option String
    pub exchange_correlation : Option String
    pub transport_kind : String
    pub direction : String
    pub exchange_alias : Option String
    pub sent_text : String

  pub record Summary : Type 0 where
    pub final_status : Key
    pub summary_mode : Key
    pub summary_errors : ℕ
    pub summary_warnings : ℕ
    pub has_identity : Bool

  -- The fields of the run, its files, and the context variables.
  pub record Run : Type 0 where
    pub driver_id : String
    pub execution_mode : Key
    pub sequence : List (Key × ℕ)
    pub operation_counter : ℕ
    pub error_counter : ℕ
    pub error_count : ℕ
    pub warning_count : ℕ
    pub run_failed : Bool
    pub finalized : Bool
    pub device_identities : List (Key × Fields F)
    pub events : List Event
    pub operations : List Operation
    pub errors : List ErrorEntry
    pub exchanges : List Exchange
    pub environments : List Key
    pub summary : Option Summary
    pub current_correlation : Option String
    pub current_operation : Option String
    pub current_suite : Option String
    pub current_test : Option String
    pub current_keyword : Option String

  -- What a caller of `emit_event` passes.
  pub record EventCall : Type 0 where
    pub call_type : String
    pub call_level : Level
    pub call_data : Fields F
    pub call_correlation : Option String
    pub call_operation : Option String
    pub call_alias : Option String

  -- How a body under `with record_operation(...)` ends: with the result that it set, with an
  -- `Exception`, or with another BaseException, such as a KeyboardInterrupt, after a result or none.
  pub data Outcome : Type 0 where
    done : Value F → Outcome
    raised : Exc F → Outcome
    interrupted : Value F → Outcome

  pub record Started : Type 0 where
    pub operation_id : String
    pub correlation_id : String
    pub operation_name : String
    pub alias : Option String
    pub safe_arguments : Fields F

-- `self._sequence.get(stream, 0)`
abbrev pub count_of : Key → List (Key × ℕ) → ℕ
count_of stream d = or_else (find stream d) 0

abbrev pub events_stream : Key
events_stream = codes "events"

abbrev pub operations_stream : Key
operations_stream = codes "operations"

abbrev pub errors_stream : Key
errors_stream = codes "errors"

abbrev pub exchanges_stream : Key
exchanges_stream = codes "protocol_exchanges"

-- `f"{n:06d}"`
unfoldable pub six_digits : ℕ → String
six_digits n =
    let zeros =
      if ltb n 10
      then "00000"
      else if ltb n 100
      then "0000"
      else if ltb n 1000
      then "000"
      else if ltb n 10000
      then "00"
      else if ltb n 100000
      then "0"
      else "" in
    append zeros (show n)
