-- ===== src/Evidence/Folder.antt =====
-- The directory of an evidence run in hp34401a_dmm/evidence.py: which files a run has written, the
-- manifest of them, and the bundle. The bytes of a file are those of its content, as far as Records
-- keeps it; their number and SHA-256 are parameters. Writing a file does not fail.
pub mod Found
pub mod Accepted
pub mod Late
use hp34401a_driver.Base.{
  ℕ, String, Bool, true, false, not, ◌&&◌, Option, none, some, List, [], ◌∷◌, ◌++◌, map, any,
  if◌then◌else◌, ◌==◌,
}
use hp34401a_driver.Base.Text.{codes}
use hp34401a_driver.Base.Dict.{Key, same_key, find}
use hp34401a_driver.Evidence.Json.{Fields}
use hp34401a_driver.Evidence.Records.{Event, Operation, ErrorEntry, Exchange, Summary, Run}
use hp34401a_driver.Evidence.Run.{emit_event, run_event, finalize}
use hp34401a_driver.Evidence.Lines.{
  read_lines, event_breaks, operation_breaks, error_breaks, exchange_breaks,
}
use hp34401a_driver.Evidence.Validate.{
  Line, Stored, Role, authoritative_result, derived_report, identity, raw_observation,
  structured_event, integrity, Entry, Directory, has_suffix,
}

-- What a file of the run holds.
pub data Content (F : Type 0) : Type 0 where
  identities : List (Key × Fields F) → Content F
  environment : Key → Content F
  error_lines : List (ErrorEntry F) → Content F
  event_lines : List (Event F) → Content F
  operation_lines : List (Operation F) → Content F
  exchange_lines : List (Exchange F) → Content F
  trace_lines : List (Exchange F) → Content F
  summary_json summary_text : Summary F → Content F
  manifest_json checksums : List Entry → Content F

module _ {F : Type 0} where
  abbrev lines_of : Content F → List Line
  lines_of (error_lines es) = read_lines error_breaks (λ (e : ErrorEntry F). e.error_number) es
  lines_of (event_lines es) = read_lines event_breaks (λ (e : Event F). e.event_number) es
  lines_of (operation_lines os) =
      read_lines operation_breaks (λ (o : Operation F). o.operation_number) os
  lines_of (exchange_lines xs) =
      read_lines exchange_breaks (λ (x : Exchange F). x.exchange_number) xs
  lines_of _ = []

  -- The keys of `summary` in `finalize`; of the other files no check reads the keys.
  abbrev fields_of : Content F → List Key
  fields_of (summary_json s) =
      codes "schema"
      ∷ codes "schema_version"
      ∷ codes "run_id"
      ∷ codes "activity"
      ∷ codes "driver_id"
      ∷ codes "start_timestamp_utc"
      ∷ codes "end_timestamp_utc"
      ∷ codes "duration_s"
      ∷ codes "execution_mode"
      ∷ codes "final_status"
      ∷ codes "error_count"
      ∷ codes "warning_count"
      ∷ codes "dropped_events"
      ∷ codes "evidence_completeness"
      ∷ codes "device_identity_reference"
      ∷ codes "result_root"
      ∷ []
  fields_of _ = []

  -- A file that is appended to is there once something was.
  abbrev if_any : {A : Type 0} → (List A → Content F) → List A → Option (Content F)
  if_any f [] = none
  if_any f (x ∷ xs) = some (f (x ∷ xs))

  -- `environment.json` is written again for each mode.
  abbrev last_mode : List Key → Option (Content F)
  last_mode [] = none
  last_mode (m ∷ []) = some (environment m)
  last_mode (m ∷ more) = last_mode more

  abbrev sent_in : String → List (Exchange F) → List (Exchange F)
  sent_in way [] = []
  sent_in way (x ∷ xs) =
      let rest = sent_in way xs in
      if same_key (codes x.direction) (codes way) then x ∷ rest else rest

  abbrev if_summary : (Summary F → Content F) → Option (Summary F) → Option (Content F)
  if_summary f none = none
  if_summary f (some s) = some (f s)

  -- The paths that a run writes to, in their order, with what is there.
  abbrev pub table : Run F → List (Key × Option (Content F))
  table r =
      (codes "device_identity.json", if_any identities r.device_identities)
      ∷ (codes "environment.json", last_mode r.environments)
      ∷ (codes "events/errors.jsonl", if_any error_lines r.errors)
      ∷ (codes "events/events.jsonl", if_any event_lines r.events)
      ∷ (codes "events/operations.jsonl", if_any operation_lines r.operations)
      ∷ (codes "protocol/exchanges.jsonl", if_any exchange_lines r.exchanges)
      ∷ (codes "protocol/inbound_trace.log", if_any trace_lines (sent_in "inbound" r.exchanges))
      ∷ (codes "protocol/outbound_trace.log", if_any trace_lines (sent_in "outbound" r.exchanges))
      ∷ (codes "run_summary.json", if_summary summary_json r.summary)
      ∷ (codes "run_summary.md", if_summary summary_text r.summary)
      ∷ []

  -- The files that are there.
  abbrev pub present : List (Key × Option (Content F)) → List (Key × Content F)
  present [] = []
  present ((path, none) ∷ more) = present more
  present ((path, some c) ∷ more) = (path, c) ∷ present more

-- `relative_path.name`: what follows the last slash, or else `name`
abbrev name_after : Key → Key → Key
name_after name [] = name
name_after name (c ∷ cs) = name_after (if c == b'/' then cs else name) cs

abbrev name_of : Key → Key
name_of path = name_after path path

-- `relative_path.parts[0]`
abbrev first_part : Key → Key
first_part [] = []
first_part (c ∷ cs) = let rest = first_part cs in if c == b'/' then [] else c ∷ rest

-- `_ROLE_BY_NAME`
abbrev role_by_name : List (Key × Role)
role_by_name =
    (codes "run_summary.json", authoritative_result)
    ∷ (codes "run_summary.md", derived_report)
    ∷ (codes "environment.json", identity)
    ∷ (codes "device_identity.json", identity)
    ∷ []

-- `relative_path.suffix == ".jsonl"`
abbrev is_jsonl : Key → Bool
is_jsonl name = has_suffix (codes ".jsonl") name && not (same_key name (codes ".jsonl"))

-- `_role_for`
pub role_for : Key → Role
role_for path = elim (find (name_of path) role_by_name) [
  | some role ↦ role
  | none ↦
      if same_key (first_part path) (codes "protocol")
      then raw_observation
      else if is_jsonl (name_of path)
      then structured_event
      else if same_key (first_part path) (codes "integrity")
      then integrity
      else derived_report
]

-- The run, and the manifest that was last written.
pub record Folder (F : Type 0) : Type 0 where
  pub run : Run F
  pub manifest : Option (List Entry)

-- The two files that `_write_manifest` writes.
abbrev pub manifest_table : {F : Type 0} → Option (List Entry) → List (Key × Option (Content F))
manifest_table none = []
manifest_table (some es) =
    (codes "evidence_manifest.json", some (manifest_json es))
    ∷ (codes "integrity/checksums.sha256", some (checksums es))
    ∷ []

module _ {F : Type 0} (length_of : Content F → ℕ) (sha256_of : Content F → Key) where
  abbrev pub stored : Key × Content F → Key × Stored
  stored (path, c) = (
    path,
    record { size = length_of c; digest = sha256_of c; lines = lines_of c; fields = fields_of c },
  )

  abbrev pub entry_of : Key × Content F → Entry
  entry_of (path, c) = record {
    entry_path = path;
    role = role_for path;
    size_bytes = length_of c;
    sha256 = sha256_of c;
  }

  -- `_write_manifest`: the manifest and the checksums themselves, which it skips, are no files of
  -- `table`.
  unfoldable pub write_manifest : Folder F → Folder F
  write_manifest d = record d { manifest = some (map entry_of (present (table d.run))) }

  -- `finalize`, with the files that it writes
  unfoldable pub finalize_folder : String → Folder F → Folder F
  finalize_folder status d =
      if d.run.finalized then d else write_manifest (record d { run = finalize status d.run })

  -- `export_diagnostic_bundle`: the files of the archive are those of the directory it leaves.
  unfoldable export_diagnostic_bundle : Folder F → Folder F
  export_diagnostic_bundle d =
      write_manifest (record d { run = emit_event (run_event "DIAGNOSTIC_BUNDLE_EXPORTED") d.run })

  -- What is on the disk.
  pub on_disk : Folder F → Directory
  on_disk d = record {
    exists = true;
    files = map stored (present (table d.run ++ manifest_table d.manifest));
    manifest = d.manifest;
  }
