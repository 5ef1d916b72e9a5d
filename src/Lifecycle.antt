-- ===== src/Lifecycle.antt =====
-- The keywords of rf_hp34401a/legacy_library.py that select and close sessions, each under
-- `_evidenced`, which records it in the evidence run of the library and finalizes the run when no
-- session is left. A run is an object that a keyword under way still holds when the library has let
-- go of it, so runs stand in a heap. What a driver's trace writes while it is closed, and the
-- dictionaries of results, are left out.
pub mod Torn
pub mod Nested
pub mod Closed
use hp34401a_driver.Base.{
  ℕ, suc, String, Bool, true, false, ◌&&◌, Option, none, some, List, [], ◌∷◌, any, if◌then◌else◌,
  ◌==◌,
}
use hp34401a_driver.Base.Text.{codes}
use hp34401a_driver.Base.Dict.{Key, same_key}
use hp34401a_driver.Errors.{Error, Result, ok, err}
use hp34401a_driver.Evidence.Json.{Value, null, text, Fields, end, field}
use hp34401a_driver.Evidence.Records.{Exc, Outcome, raised, Run, Subject}
use hp34401a_driver.Evidence.Records.{done as completed}
use hp34401a_driver.Evidence.Run.{new_run, start_operation, handle, finish_operation, record_error}
use hp34401a_driver.Evidence.Folder.{Content, Folder, finalize_folder}
use hp34401a_driver.Sessions
use hp34401a_driver.Sessions.{DmmSession, SessionManager, no_sessions, select, close_all}
use hp34401a_driver.Keywords.{
  Answer, done, robot, assertion_failed, untranslated, driver_cleanup_error, hp34401a_robot_error,
  Raised, returned, native, execute, raised_of,
}

-- `self._evidence`: None, a NullEvidenceRun, or a run of the heap.
pub data Evidence : Type 0 where
  no_run null_run : Evidence
  run_at : ℕ → Evidence

module _ (F D I W : Type 0) where
  pub record Library : Type 0 where
    pub manager : SessionManager D I W
    pub evidence_enabled : Bool
    pub evidence : Evidence
    pub folders : ℕ → Folder F
    pub made : ℕ

  abbrev pub Keyword : Type 0
  Keyword = Library → Answer (Unit {0}) × Library

-- `_DISCONNECT_CAPABILITIES`
abbrev disconnect_capabilities : List String
disconnect_capabilities =
    "Disconnect" ∷ "Close DMM" ∷ "Disconnect DMM" ∷ "Disconnect All" ∷ "Close All DMMs" ∷ []

abbrev pub is_disconnect : String → Bool
is_disconnect capability =
    any (λ name. same_key (codes capability) (codes name)) disconnect_capabilities

-- `bool(self._sessions.aliases())`
abbrev pub are_open : {F D I W : Type 0} → Library F D I W → Bool
are_open lib = elim lib.manager.sessions [ [] ↦ false | _ ∷ _ ↦ true ]

abbrev pub alias_field : {F : Type 0} → Option String → Fields F
alias_field none = field "alias" null end
alias_field (some a) = field "alias" (text a) end

-- The result that is recorded, or the exception, of which `describe` tells the class, text and code.
abbrev pub outcome_of : {F : Type 0} → (Answer (Unit {0}) → Exc F) → Answer (Unit {0}) → Outcome F
outcome_of describe (done _) = completed null
outcome_of describe a = raised (describe a)

abbrev pub status_of : Answer (Unit {0}) → String
status_of (done _) = "PASS"
status_of _ = "FAIL"

module _ {F D I W : Type 0} where
  abbrev pub set_folder : ℕ → Folder F → Library F D I W → Library F D I W
  set_folder h d lib = record lib { folders = λ k. if k == h then d else lib.folders k }

  abbrev pub set_run : ℕ → Run F → Library F D I W → Library F D I W
  set_run h r lib = set_folder h (record (lib.folders h) { run = r }) lib

  -- `_ensure_evidence`
  unfoldable pub ensure_evidence : Library F D I W → Library F D I W
  ensure_evidence lib = elim lib.evidence [
    | run_at h ↦ lib
    | null_run ↦ lib
    | no_run ↦
        if lib.evidence_enabled
        then record (set_folder lib.made
            (record { run = new_run "rf_hp34401a" "UNKNOWN"; manifest = none }) lib) {
              evidence = run_at lib.made;
              made = suc lib.made;
            }
        else record lib { evidence = null_run }
  ]

  -- The `finally` of `_evidenced` on a NullEvidenceRun, whose `finalize` does nothing.
  abbrev close_null : String → Library F D I W → Library F D I W
  close_null capability lib =
      if is_disconnect capability
      then (if are_open lib then lib else record lib { evidence = no_run })
      else lib

  -- A call of the registry under `_execute`.
  abbrev pub on_registry :
      {A : Type 0} → (SessionManager D I W → Result A × SessionManager D I W) → Keyword F D I W
  on_registry f lib =
      let (r, m) = f lib.manager in
      (elim r [ ok _ ↦ done tt | err e ↦ execute (native e) ], record lib { manager = m })

module _ {F D I W : Type 0} (length_of : Content F → ℕ) (sha256_of : Content F → Key)
    (describe : Answer (Unit {0}) → Exc F) (fresh : String) where
  -- The `finally` of `_evidenced`, where the keyword holds the run `h`.
  unfoldable pub close_run : ℕ → String → Answer (Unit {0}) → Library F D I W → Library F D I W
  close_run h capability a lib =
      if is_disconnect capability
      then (if are_open lib
          then lib
          else record (set_folder h
              (finalize_folder length_of sha256_of (status_of a) (lib.folders h)) lib) {
                evidence = no_run;
              })
      else lib

  -- `record_operation` on the run `h`, around the body.
  unfoldable pub recorded : ℕ → String → Fields F → Keyword F D I W → Keyword F D I W
  recorded h capability arguments body lib =
      let r = (lib.folders h).run in
      let (s, started) = start_operation fresh capability none arguments r in
      let (a, lib') = body (set_run h started lib) in
      let out = outcome_of describe a in
      let finished =
        finish_operation s out r.current_correlation r.current_operation
          (handle s out (lib'.folders h).run) in
      (a, set_run h finished lib')

  abbrev pub on_evidence : Evidence → String → Fields F → Keyword F D I W → Keyword F D I W
  on_evidence no_run capability arguments body lib = body lib
  on_evidence null_run capability arguments body lib =
      let (a, lib') = body lib in (a, close_null capability lib')
  on_evidence (run_at h) capability arguments body lib =
      let (a, lib') = recorded h capability arguments body lib in (a, close_run h capability a lib')

  -- `_evidenced`; behind `_ensure_evidence` there is a run, or a NullEvidenceRun.
  unfoldable pub evidenced : String → Fields F → Keyword F D I W → Keyword F D I W
  evidenced capability arguments body lib =
      let lib' = ensure_evidence lib in on_evidence lib'.evidence capability arguments body lib'

  unfoldable select_dmm : String → Keyword F D I W
  select_dmm alias = evidenced "Select DMM" (alias_field (some alias)) (on_registry (select alias))

  unfoldable select_connection : String → Keyword F D I W
  select_connection alias =
      evidenced "Select Connection" (alias_field (some alias)) (on_registry (select alias))

  module _ (close_driver : D → W → Result (Unit {0}) × W) where
    unfoldable pub close_dmm : Option String → Keyword F D I W
    close_dmm alias =
        evidenced "Close DMM" (alias_field alias)
          (on_registry (Sessions.close close_driver alias false))

    unfoldable pub disconnect_dmm : Option String → Keyword F D I W
    unfolding close_dmm
    disconnect_dmm alias = evidenced "Disconnect DMM" (alias_field alias) (close_dmm alias)

    unfoldable pub disconnect : Option String → Keyword F D I W
    disconnect alias =
        evidenced "Disconnect" (alias_field alias)
          (on_registry (Sessions.close close_driver alias true))

    -- `close_all`, and the exception where drivers raised
    abbrev pub on_all : Answer (Unit {0}) → Keyword F D I W
    on_all failure lib =
        let (errors, m) = close_all close_driver lib.manager in
        (elim errors [ [] ↦ done tt | _ ∷ _ ↦ failure ], record lib { manager = m })

    unfoldable pub disconnect_all : Keyword F D I W
    disconnect_all = evidenced "Disconnect All" end (on_all (robot driver_cleanup_error))

    unfoldable pub close_all_dmms : Keyword F D I W
    close_all_dmms = evidenced "Close All DMMs" end (on_all (robot hp34401a_robot_error))

-- The listener's `close` of rf_hp34401a/runtime_library.py, where `failure` is the DriverCleanupError
-- that is made of the drivers that raised. Its `try` catches what finalizing raises, which writes
-- only files. The cache that it clears is in Health.
abbrev cleanup_subject : Subject
cleanup_subject = record {
  subject_correlation = none;
  subject_operation = none;
  subject_capability = some "Library Close";
  subject_alias = none;
}

module _ {F : Type 0} (length_of : Content F → ℕ) (sha256_of : Content F → Key)
    (failure : List (String × Error) → Exc F) where
  -- The `try`: an error is recorded if drivers raised, and the run is finalized.
  abbrev pub cleaned_up : List (String × Error) → Folder F → Folder F
  cleaned_up [] d = finalize_folder length_of sha256_of "PASS" d
  cleaned_up errors d =
      finalize_folder length_of sha256_of "FAIL"
        (record d { run = record_error (failure errors) cleanup_subject none d.run })

  module _ {D I W : Type 0} (close_driver : D → W → Result (Unit {0}) × W) where
    unfoldable pub library_close : Library F D I W → Library F D I W
    library_close lib =
        let (errors, m) = close_all close_driver lib.manager in
        let lib' = record lib { manager = m } in
        elim lib.evidence [
          | no_run ↦ lib'
          | null_run ↦ record lib' { evidence = no_run }
          | run_at h ↦ record (set_folder h (cleaned_up errors (lib.folders h)) lib') {
            evidence = no_run;
          }
        ]
