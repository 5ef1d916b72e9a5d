-- ===== src/Evidence/Validate.antt =====
-- scripts/validate_evidence.py: the checks of a run directory, as the list of their findings. A file
-- is what the checks read of it: its size, its SHA-256, its lines if it has lines of JSON, and the
-- top-level keys if it is a JSON object. Paths are relative to the directory, with `/`.
use hp34401a_driver.Base.{
  ℕ, suc, Bool, true, not, ◌&&◌, ◌||◌, Option, none, some, List, [], ◌∷◌, ◌++◌, map, any,
  if◌then◌else◌, ◌==◌,
}
use hp34401a_driver.Base.Text.{codes, starts_with}
use hp34401a_driver.Base.Dict.{Key, same_key, find}

-- A line of a `.jsonl` file. A `sequence` that is no number, or negative, is left out.
pub data Line : Type 0 where
  blank invalid unnumbered : Line
  numbered : ℕ → Line

pub record Stored : Type 0 where
  pub size : ℕ
  pub digest : Key
  pub lines : List Line
  pub fields : List Key

pub data Role : Type 0 where
  authoritative_result derived_report identity raw_observation structured_event integrity : Role

-- An artifact of the manifest.
pub record Entry : Type 0 where
  pub entry_path : Key
  pub role : Role
  pub size_bytes : ℕ
  pub sha256 : Key

-- The files, in the order of their paths, and the manifest as JSON, if it is there.
pub record Directory : Type 0 where
  pub exists : Bool
  pub files : List (Key × Stored)
  pub manifest : Option (List Entry)

pub data Finding : Type 0 where
  no_directory missing_manifest missing_summary : Finding
  missing_from_disk hash_mismatch size_mismatch not_in_manifest gap : Key → Finding
  missing_field : Key → Finding
  invalid_json missing_sequence : Key → ℕ → Finding

-- `for x in xs` over checks that append their findings
abbrev pub findings_of : {A : Type 0} → (A → List Finding) → List A → List Finding
findings_of f [] = []
findings_of f (x ∷ xs) = f x ++ findings_of f xs

unfoldable pub check_entry : List (Key × Stored) → Entry → List Finding
check_entry files e = elim (find e.entry_path files) [
  | none ↦ missing_from_disk e.entry_path ∷ []
  | some s ↦
      (if same_key s.digest e.sha256 then [] else hash_mismatch e.entry_path ∷ [])
      ++ (if s.size == e.size_bytes then [] else size_mismatch e.entry_path ∷ [])
]

abbrev pub paths_of : List Entry → List Key
paths_of = map (λ (e : Entry). e.entry_path)

-- The files that need no entry.
abbrev is_exempt : Key → Bool
is_exempt path =
    same_key path (codes "evidence_manifest.json") || starts_with path (codes "integrity/")

unfoldable pub check_listed : List Key → Key × Stored → List Finding
check_listed listed (path, s) =
    if is_exempt path
    then []
    else if any (same_key path) listed
    then []
    else not_in_manifest path ∷ []

-- `_check_manifest`
unfoldable pub check_manifest : Directory → List Finding
check_manifest d = elim d.manifest [
  | none ↦ missing_manifest ∷ []
  | some entries ↦
      findings_of (check_entry d.files) entries
      ++ findings_of (check_listed (paths_of entries)) d.files
]

abbrev required_fields : List Key
required_fields =
    codes "schema"
    ∷ codes "run_id"
    ∷ codes "final_status"
    ∷ codes "error_count"
    ∷ codes "evidence_completeness"
    ∷ []

abbrev check_field : List Key → Key → List Finding
check_field present name = if any (same_key name) present then [] else missing_field name ∷ []

-- `_check_run_summary`
unfoldable pub check_run_summary : Directory → List Finding
check_run_summary d = elim (find (codes "run_summary.json") d.files) [
  | none ↦ missing_summary ∷ []
  | some s ↦ findings_of (check_field s.fields) required_fields
]

-- The loop over the lines of a file, from a line number on: its findings, and the sequence numbers.
abbrev pub scan : Key → ℕ → List Line → List Finding × List ℕ
scan path n [] = ([], [])
scan path n (blank ∷ more) = scan path (suc n) more
scan path n (invalid ∷ more) =
    let (found, numbers) = scan path (suc n) more in (invalid_json path n ∷ found, numbers)
scan path n (unnumbered ∷ more) =
    let (found, numbers) = scan path (suc n) more in (missing_sequence path n ∷ found, numbers)
scan path n (numbered k ∷ more) =
    let (found, numbers) = scan path (suc n) more in (found, k ∷ numbers)

-- `sequences == list(range(n, n + len(sequences)))`
abbrev pub counts_from : ℕ → List ℕ → Bool
counts_from n [] = true
counts_from n (k ∷ ks) = k == n && counts_from (suc n) ks

abbrev pub has_suffix : Key → Key → Bool
has_suffix suffix [] = same_key suffix []
has_suffix suffix (c ∷ cs) = same_key suffix (c ∷ cs) || has_suffix suffix cs

abbrev pub check_lines : Key → List Line → List Finding
check_lines path lines =
    let (found, numbers) = scan path 1 lines in
    found ++ (if counts_from 1 numbers then [] else gap path ∷ [])

unfoldable pub check_stream : Key × Stored → List Finding
check_stream (path, s) = if has_suffix (codes ".jsonl") path then check_lines path s.lines else []

-- `_check_jsonl_streams`
unfoldable pub check_jsonl_streams : Directory → List Finding
check_jsonl_streams d = findings_of check_stream d.files

unfoldable pub validate : Directory → List Finding
validate d =
    if not d.exists
    then no_directory ∷ []
    else check_run_summary d ++ (check_manifest d ++ check_jsonl_streams d)
