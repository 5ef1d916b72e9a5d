-- ===== src/Lifecycle/Closed.antt =====
-- What the end of a suite leaves, where the library is closed without an explicit disconnect.
use hp34401a_driver.Base.{
  ℕ, String, none, some, Option, if◌then◌else◌, List, [], ◌∷◌, ◌≡◌, false, refl, sym, ap, ◌∙◌,
}
use mathlib.Core.Path.{subst}
use hp34401a_driver.Base.Text.{codes}
use hp34401a_driver.Errors.{Error, Result}
use hp34401a_driver.Base.Dict.{Key}
use hp34401a_driver.Evidence.Records.{Exc, Run, Summary}
use hp34401a_driver.Evidence.Run.{new_run, finalize}
use hp34401a_driver.Evidence.Run.Calls.{Call, Calls, failure, perform, perform_all, failures_all}
use hp34401a_driver.Evidence.Run.FailClosed.{
  perform_all-Adds, new_run-open, finalize_open, finalize-status, expected_status, requested_fail,
}
use hp34401a_driver.Evidence.Run.Numbering.{Consistent}
use hp34401a_driver.Evidence.Run.Complete.{perform-Consistent, calls-Consistent}
use hp34401a_driver.Evidence.Lines.{Unbroken}
use hp34401a_driver.Evidence.Validate.{Entry, validate}
use hp34401a_driver.Evidence.Folder.{Content, Folder, on_disk, finalize_folder}
use hp34401a_driver.Evidence.Folder.Accepted.{open-passes, open-run}
use hp34401a_driver.Sessions.{close_all}
use hp34401a_driver.Sessions.Emptied.{close_all-empties, close_all-active, close_all-nothing}
use hp34401a_driver.Lifecycle.{
  no_run, run_at, Library, set_folder, cleanup_subject, cleaned_up, library_close,
}
use hp34401a_driver.Lifecycle.Torn.{same_self, performed-open}

-- The status that the errors of the drivers and the calls of the run make.
abbrev closing_status : List (String × Error) → ℕ → Key
closing_status [] n = expected_status "PASS" n
closing_status (e ∷ errors) n = codes "FAIL"

module _ {F : Type 0} (length_of : Content F → ℕ) (sha256_of : Content F → Key)
    (describe : List (String × Error) → Exc F) where
  -- The run of the folder is finalized with the status, and the validator accepts it.
  pub record Ended (status : Key) (d : Folder F) : Type 0 where
    pub accepted : validate (on_disk length_of sha256_of d) ≡ []
    pub summary : Summary F
    pub summarised : d.run.summary ≡ some summary
    pub is_status : summary.final_status ≡ status

  finalized-Ended :
      (status : String) (key : Key) (d : Folder F)
      → Consistent 0 d.run
      → d.run.finalized ≡ false
      → (x : Summary F) × ((finalize status d.run).summary ≡ some x) × (x.final_status ≡ key)
      → Unbroken (finalize_folder length_of sha256_of status d).run
      → Ended key (finalize_folder length_of sha256_of status d)
  finalized-Ended status key d x o (s, made, e) u = record {
    accepted = open-passes length_of sha256_of 0 status d x o u;
    summary = s;
    summarised = ap (λ (r : Run F). r.summary) (open-run length_of sha256_of status d o) ∙ made;
    is_status = e;
  }

  cleaned_up-Ended :
      (errors : List (String × Error)) (id mode : String) (cs : Calls F)
      (before : Option (List Entry))
      → Unbroken
          (cleaned_up length_of sha256_of describe errors
            (record { run = perform_all cs (new_run id mode); manifest = before })).run
      → Ended (closing_status errors (failures_all cs)) (
          cleaned_up length_of sha256_of describe errors
            (record { run = perform_all cs (new_run id mode); manifest = before }))
  unfolding perform
  cleaned_up-Ended [] id mode cs before u =
      let d : Folder F = record { run = perform_all cs (new_run id mode); manifest = before } in
      let (s, made, e, _, _) = finalize-status id mode "PASS" cs in
      finalized-Ended "PASS" (expected_status "PASS" (failures_all cs)) d
        (calls-Consistent id mode cs)
        ((perform_all-Adds cs (new_run id mode)).keeps_open ∙ new_run-open F id mode) (s, made, e) u
  cleaned_up-Ended (x ∷ errors) id mode cs before u =
      let call : Call F = failure (describe (x ∷ errors)) cleanup_subject none in
      let r = perform_all cs (new_run id mode) in
      let d : Folder F = record { run = perform call r; manifest = before } in
      let o =
        performed-open call r
        ∙ (perform_all-Adds cs (new_run id mode)).keeps_open
        ∙ new_run-open F id mode in
      let (s, made, e, _, _, _) = finalize_open "FAIL" (perform call r) o in
      finalized-Ended "FAIL" (codes "FAIL") d
        (perform-Consistent 0 call r (calls-Consistent id mode cs)) o
        (s, made, e ∙ requested_fail (perform call r)) u

module _ {F D I W : Type 0} (length_of : Content F → ℕ) (sha256_of : Content F → Key)
    (describe : List (String × Error) → Exc F) (close_driver : D → W → Result (Unit {0}) × W) where
  abbrev shut : Library F D I W → Library F D I W
  shut = library_close length_of sha256_of describe close_driver

  shut-at :
      (h : ℕ) (lib : Library F D I W)
      → lib.evidence ≡ run_at h
      → let (errors, m) = close_all close_driver lib.manager in
        let d = cleaned_up length_of sha256_of describe errors (lib.folders h) in
        shut lib ≡ record (set_folder h d (record lib { manager = m })) { evidence = no_run }
  unfolding library_close
  shut-at h lib e = rw e refl

  shut-again :
      (lib : Library F D I W)
      → lib.evidence ≡ no_run
      → lib.manager.sessions ≡ []
      → lib.manager.active_key ≡ none
      → shut lib ≡ lib
  unfolding library_close
  shut-again lib e x a = rw e (
      ap (λ p. record lib { manager = p.1; evidence = no_run })
        (close_all-nothing close_driver lib.manager x a))

  -- Where no text in the records has a line separator that JSON leaves as it is: however the drivers
  -- end, the listener closes every session and finalizes the run exactly once:
  -- the validator accepts the directory, the status is FAIL if a driver raised and else that of the
  -- calls, the library has let go of the run, and a second call changes nothing.
  pub library_close-Ended :
      (h : ℕ) (lib : Library F D I W) (id mode : String) (cs : Calls F)
      (before : Option (List Entry))
      → lib.evidence ≡ run_at h
      → lib.folders h ≡ record { run = perform_all cs (new_run id mode); manifest = before }
      → Unbroken ((shut lib).folders h).run
      → Ended length_of sha256_of describe
          (closing_status (close_all close_driver lib.manager).0 (failures_all cs))
          ((shut lib).folders h)
        × ((shut lib).manager.sessions ≡ [])
        × ((shut lib).evidence ≡ no_run)
        × (shut (shut lib) ≡ shut lib)
  library_close-Ended h lib id mode cs before e is_run u =
      let (errors, m) = close_all close_driver lib.manager in
      let tidy = cleaned_up length_of sha256_of describe errors in
      let empty = close_all-empties close_driver lib.manager in
      let left : Library F D I W =
        record (set_folder h (tidy (lib.folders h)) (record lib { manager = m })) {
          evidence = no_run;
        } in
      let folder =
        ap (λ b. if b then tidy (lib.folders h) else lib.folders h) (same_self h)
        ∙ ap tidy is_run in
      let whole =
        subst (λ (f : Folder F). Unbroken f.run) folder
          (subst (λ (l : Library F D I W). Unbroken (l.folders h).run) (shut-at h lib e) u) in
      let Good = λ (l : Library F D I W).
        Ended length_of sha256_of describe (closing_status errors (failures_all cs)) (l.folders h)
        × (l.manager.sessions ≡ [])
        × (l.evidence ≡ no_run)
        × (shut l ≡ l) in
      subst Good (sym (shut-at h lib e)) (
        subst (Ended length_of sha256_of describe (closing_status errors (failures_all cs)))
            (sym folder)
            (cleaned_up-Ended length_of sha256_of describe errors id mode cs before whole),
        empty,
        refl,
        shut-again left refl empty (close_all-active close_driver lib.manager),
      )
