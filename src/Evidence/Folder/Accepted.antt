-- ===== src/Evidence/Folder/Accepted.antt =====
-- A run that was finalized passes the validator.
use mathlib.Core.Path.{subst}
use hp34401a_driver.Evidence.Folder.Found.{
  Found, Distinct-Found, present-append, full-Distinct, find-present,
}
use hp34401a_driver.Base.{
  All-imp, All-map, All-append, All-append_left, ℕ, zero, suc, ◌+◌, String, Bool, true, false,
  Option, none, some, List, [], ◌∷◌, ◌++◌, map, any, All, ◌≡◌, refl, sym, ap, ◌∙◌, arith,
  if◌then◌else◌, length, length-append,
}
use hp34401a_driver.Base.Text.{codes, starts_with}
use hp34401a_driver.Base.Dict.{Key, same_key, same_key_refl, find}
use hp34401a_driver.Evidence.Records.{Summary, Run}
use hp34401a_driver.Evidence.Run.{finalize, new_run}
use hp34401a_driver.Evidence.Run.Calls.{Calls, perform_all}
use hp34401a_driver.Evidence.Run.FailClosed.{perform_all-Adds, finalize_open, new_run-open}
use hp34401a_driver.Evidence.Run.Complete.{calls-Consistent, finalize-Consistent}
use hp34401a_driver.Evidence.Run.Numbering.{Consistent, up_to}
use hp34401a_driver.Evidence.Lines.{
  read_lines, read_lines-map, event_breaks, operation_breaks, error_breaks, exchange_breaks,
  Unbroken,
}
use hp34401a_driver.Evidence.Validate.{
  numbered, Stored, Entry, Directory, Finding, findings_of, check_entry, check_listed, paths_of,
  check_stream, check_lines, scan, counts_from, validate, check_manifest, check_run_summary,
  check_jsonl_streams,
}
use hp34401a_driver.Evidence.Folder.{
  Content, identities, environment, error_lines, event_lines, operation_lines, exchange_lines,
  trace_lines, summary_json, summary_text, if_any, last_mode, sent_in, if_summary, table, present,
  Folder, stored, entry_of, write_manifest, manifest_table, on_disk, finalize_folder,
}

nothing_found :
    {A : Type 0} (f : A → List Finding) (xs : List A)
    → All (λ x. f x ≡ []) xs
    → findings_of f xs ≡ []
nothing_found f [] h = refl
nothing_found f (x ∷ xs) (h, hs) = rw (h, nothing_found f xs hs) refl

all_pass :
    (d : Directory)
    → d.exists ≡ true
    → check_run_summary d ≡ []
    → check_manifest d ≡ []
    → check_jsonl_streams d ≡ []
    → validate d ≡ []
unfolding validate
all_pass d e a b c = ground (arith, e, a, b, c)

unless : {A : Type 0} (b : Bool) (x y : A) → b ≡ false → (if b then x else y) ≡ y
unless b x y e = rw e refl

-- Two halves of a conjunction.
infixr 3 ◌◂◌
abbrev ◌◂◌ : {A B : Type 0} → A → B → A × B
a ◂ b = (a, b)

-- Files numbered as the run numbers them.
scan-numbered :
    {A : Type 0} (f : A → ℕ) (path : Key) (n : ℕ) (xs : List A)
    → scan path n (map (λ x. numbered (f x)) xs) ≡ ([], map f xs)
scan-numbered f path n [] = refl
scan-numbered f path n (x ∷ xs) = rw (scan-numbered f path (suc n) xs) refl

counts_from-snoc :
    (n k : ℕ) (ks : List ℕ)
    → counts_from n ks ≡ true
    → k ≡ n + length ks
    → counts_from n (ks ++ k ∷ []) ≡ true
counts_from-snoc n k [] h e = ground (arith, e)
counts_from-snoc n k (j ∷ js) h e =
    ground (arith, h, counts_from-snoc (suc n) k js (ground (arith, h)) (omega (arith, e)))

length-up_to : (n : ℕ) → length (up_to n) ≡ n
unfolding up_to
length-up_to zero = refl
length-up_to (suc n) = omega (arith, length-append {0} (up_to n) (suc n ∷ []), length-up_to n)

counts_from-up_to : (n : ℕ) → counts_from 1 (up_to n) ≡ true
unfolding up_to
counts_from-up_to zero = refl
counts_from-up_to (suc n) =
    counts_from-snoc 1 (suc n) (up_to n) (counts_from-up_to n) (omega (arith, length-up_to n))

numbered_lines :
    {A : Type 0} (broken : A → Bool) (f : A → ℕ) (path : Key) (n : ℕ) (xs : List A)
    → any broken xs ≡ false
    → map f xs ≡ up_to n
    → check_lines path (read_lines broken f xs) ≡ []
numbered_lines broken f path n xs whole h =
    rw (read_lines-map broken f xs whole)
      (rw (scan-numbered f path 1 xs, h, counts_from-up_to n) refl)

module _ {F : Type 0} (length_of : Content F → ℕ) (sha256_of : Content F → Key) where
  -- A check of what the table has, where it has something.
  abbrev Passes : (Key × Content F → Type 0) → Key × Option (Content F) → Type 0
  Passes P (path, none) = Unit
  Passes P (path, some c) = P (path, c)

  present-All :
      (P : Key × Content F → Type 0) (t : List (Key × Option (Content F)))
      → All (Passes P) t
      → All P (present t)
  present-All P [] h = tt
  present-All P ((path, none) ∷ more) (h, hs) = present-All P more hs
  present-All P ((path, some c) ∷ more) (h, hs) = (h, present-All P more hs)

  abbrev StreamOk : Key × Content F → Type 0
  StreamOk e = check_stream (stored length_of sha256_of e) ≡ []

  if_any-Passes :
      {A : Type 0} (path : Key) (f : List A → Content F) (xs : List A)
      → StreamOk (path, f xs)
      → Passes StreamOk (path, if_any f xs)
  if_any-Passes path f [] h = tt
  if_any-Passes path f (x ∷ xs) h = h

  if_summary-Passes :
      (path : Key) (f : Summary F → Content F) (o : Option (Summary F))
      → ((x : Summary F) → StreamOk (path, f x))
      → Passes StreamOk (path, if_summary f o)
  if_summary-Passes path f none h = tt
  if_summary-Passes path f (some x) h = h x

  last_mode-Passes :
      (path : Key) (ms : List Key)
      → ((m : Key) → StreamOk (path, environment m))
      → Passes StreamOk (path, last_mode ms)
  last_mode-Passes path [] h = tt
  last_mode-Passes path (m ∷ []) h = h m
  last_mode-Passes path (m ∷ n ∷ more) h = last_mode-Passes path (n ∷ more) h

  table-Passes : (n : ℕ) (r : Run F) → Consistent n r → Unbroken r → All (Passes StreamOk) (table r)
  unfolding check_stream
  table-Passes n r x u =
      if_any-Passes (codes "device_identity.json") identities r.device_identities refl
      ◂ last_mode-Passes (codes "environment.json") r.environments (λ m. refl)
      ◂ if_any-Passes (codes "events/errors.jsonl") error_lines r.errors (
          numbered_lines error_breaks _ (codes "events/errors.jsonl") _ r.errors u.errors_whole
            x.errors_numbered)
      ◂ if_any-Passes (codes "events/events.jsonl") event_lines r.events (
          numbered_lines event_breaks _ (codes "events/events.jsonl") _ r.events u.events_whole
            x.events_numbered)
      ◂ if_any-Passes (codes "events/operations.jsonl") operation_lines r.operations (
          numbered_lines operation_breaks _ (codes "events/operations.jsonl") _ r.operations
            u.operations_whole x.operations_numbered)
      ◂ if_any-Passes (codes "protocol/exchanges.jsonl") exchange_lines r.exchanges (
          numbered_lines exchange_breaks _ (codes "protocol/exchanges.jsonl") _ r.exchanges
            u.exchanges_whole x.exchanges_numbered)
      ◂ if_any-Passes (codes "protocol/inbound_trace.log") trace_lines
          (sent_in "inbound" r.exchanges) refl
      ◂ if_any-Passes (codes "protocol/outbound_trace.log") trace_lines
          (sent_in "outbound" r.exchanges) refl
      ◂ if_summary-Passes (codes "run_summary.json") summary_json r.summary (λ s. refl)
      ◂ if_summary-Passes (codes "run_summary.md") summary_text r.summary (λ s. refl)
      ◂ tt

  -- The files behind `write_manifest`.
  abbrev entries : Run F → List Entry
  entries r = map (entry_of length_of sha256_of) (present (table r))

  abbrev all_files : Run F → List (Key × Content F)
  all_files r = present (table r ++ manifest_table (some (entries r)))

  -- What holds of each file of the run, and of the two of the manifest.
  files-All :
      (P : Key × Content F → Type 0) (r : Run F)
      → All P (present (table r))
      → All P (present (manifest_table (some (entries r))))
      → All P (all_files r)
  files-All P r hs ks =
      subst (All P) (sym (present-append (table r) (manifest_table (some (entries r)))))
        (All-append P (present (table r)) (present (manifest_table (some (entries r)))) hs ks)

  all_files-Found : (r : Run F) → All (Found length_of sha256_of (all_files r)) (present (table r))
  all_files-Found r =
      let P = Found length_of sha256_of (all_files r) in
      All-append_left P (present (table r)) (present (manifest_table (some (entries r)))) (
        subst (All P) (present-append (table r) (manifest_table (some (entries r))))
          (Distinct-Found length_of sha256_of (all_files r) (full-Distinct r (entries r))))

  entry_passes :
      (files : List (Key × Stored)) (e : Key × Content F)
      → find e.0 files ≡ some (stored length_of sha256_of e).1
      → check_entry files (entry_of length_of sha256_of e) ≡ []
  unfolding check_entry
  entry_passes files (path, c) h =
      rw (h, check_entry) (rw (same_key_refl (sha256_of c)) (ground arith))

  -- Each path is in the list of the paths.
  listed :
      (d : List (Key × Content F))
      → All (λ e. any (same_key e.0) (paths_of (map (entry_of length_of sha256_of) d)) ≡ true) d
  listed [] = tt
  listed ((k, c) ∷ more) =
      rw (same_key_refl k) refl ◂ All-imp _ _ (λ e h. ground (arith, h)) more (listed more)

  listed_passes :
      (ks : List Key) (e : Key × Content F)
      → any (same_key e.0) ks ≡ true
      → check_listed ks (stored length_of sha256_of e) ≡ []
  unfolding check_listed
  listed_passes ks (path, c) h = ground (arith, h)

  manifest_passes :
      (d : Folder F)
      → check_manifest (on_disk length_of sha256_of (write_manifest length_of sha256_of d)) ≡ []
  unfolding check_manifest on_disk write_manifest check_listed starts_with
  manifest_passes d =
      let r = d.run in
      rw
        (
          nothing_found (check_entry (map (stored length_of sha256_of) (all_files r))) (entries r) (
              All-map _ (entry_of length_of sha256_of) (present (table r)) (
                All-imp _ _ (entry_passes (map (stored length_of sha256_of) (all_files r)))
                  (present (table r)) (all_files-Found r))),
          nothing_found (check_listed (paths_of (entries r)))
              (map (stored length_of sha256_of) (all_files r))
              (All-map _ (stored length_of sha256_of) (all_files r) (
                files-All _ r
                  (All-imp _ _ (listed_passes (paths_of (entries r))) (present (table r))
                    (listed (present (table r))))
                  (refl, (refl, tt)))),
        )
        refl

  streams_pass :
      (n : ℕ) (d : Folder F)
      → Consistent n d.run
      → Unbroken d.run
      → check_jsonl_streams (on_disk length_of sha256_of (write_manifest length_of sha256_of d))
        ≡ []
  unfolding check_jsonl_streams on_disk write_manifest check_stream
  streams_pass n d x u =
      let r = d.run in
      nothing_found check_stream (map (stored length_of sha256_of) (all_files r)) (
        All-map _ (stored length_of sha256_of) (all_files r) (
          files-All StreamOk r (present-All StreamOk (table r) (table-Passes n r x u))
            (refl, (refl, tt))))

  -- The summary of a finalized run has the fields that are asked for.
  summary_passes :
      (d : Folder F) (s : Summary F)
      → d.run.summary ≡ some s
      → check_run_summary (on_disk length_of sha256_of (write_manifest length_of sha256_of d)) ≡ []
  unfolding on_disk write_manifest find check_run_summary
  summary_passes d s h =
      let t = table d.run ++ manifest_table (some (entries d.run)) in
      rw
        (
          find-present length_of sha256_of (codes "run_summary.json") (summary_json s) t
              (rw h refl),
          check_run_summary,
        )
        refl

  on_disk-exists : (d : Folder F) → (on_disk length_of sha256_of d).exists ≡ true
  unfolding on_disk
  on_disk-exists d = refl

  snapshot_passes :
      (n : ℕ) (d : Folder F) (s : Summary F)
      → Consistent n d.run
      → Unbroken d.run
      → d.run.summary ≡ some s
      → validate (on_disk length_of sha256_of (write_manifest length_of sha256_of d)) ≡ []
  snapshot_passes n d s x u h =
      all_pass (on_disk length_of sha256_of (write_manifest length_of sha256_of d))
        (on_disk-exists (write_manifest length_of sha256_of d)) (summary_passes d s h)
        (manifest_passes d) (streams_pass n d x u)

  -- The run of the directory is the finalized one.
  pub open-run :
      (status : String) (d : Folder F)
      → d.run.finalized ≡ false
      → (finalize_folder length_of sha256_of status d).run ≡ finalize status d.run
  unfolding finalize_folder write_manifest
  open-run status d is_open = rw is_open refl

  -- The same for any run that is open and numbered.
  pub open-passes :
      (n : ℕ) (status : String) (d : Folder F)
      → Consistent n d.run
      → d.run.finalized ≡ false
      → Unbroken (finalize_folder length_of sha256_of status d).run
      → validate (on_disk length_of sha256_of (finalize_folder length_of sha256_of status d)) ≡ []
  unfolding finalize_folder
  open-passes n status d x is_open u =
      let (s, made, _, _, _, _) = finalize_open status d.run is_open in
      ap (λ f. validate (on_disk length_of sha256_of f))
        (unless d.run.finalized d
          (write_manifest length_of sha256_of (record d { run = finalize status d.run })) is_open)
      ∙ snapshot_passes n (record d { run = finalize status d.run }) s
          (finalize-Consistent n status d.run x) (subst Unbroken (open-run status d is_open) u) made

  -- After any calls of a new run, the validator has no finding in the directory that `finalize`
  -- leaves, whatever the sizes and the hashes of its files are, where no text in the records has a
  -- line separator that JSON leaves as it is (U+0085, U+2028, U+2029).
  pub finalize_folder-passes :
      (id mode status : String) (cs : Calls F) (before : Option (List Entry))
      → Unbroken
          (finalize_folder length_of sha256_of status
            (record { run = perform_all cs (new_run id mode); manifest = before })).run
      → validate (
          on_disk length_of sha256_of (
            finalize_folder length_of sha256_of status
              (record { run = perform_all cs (new_run id mode); manifest = before })))
        ≡ []
  finalize_folder-passes id mode status cs before u =
      open-passes 0 status (record { run = perform_all cs (new_run id mode); manifest = before })
        (calls-Consistent id mode cs)
        ((perform_all-Adds cs (new_run id mode)).keeps_open ∙ new_run-open F id mode) u
