-- ===== src/Lifecycle/Nested.antt =====
-- `Disconnect DMM` runs `Close DMM`, which finalizes the run when it closes the last session: the
-- record of the outer keyword comes behind the manifest.
use hp34401a_driver.Base.{
  ℕ, String, true, false, Option, none, List, [], ◌≡◌, ◌≢◌, refl, sym, ap, ◌∙◌,
}
use hp34401a_driver.Errors.{Result}
use hp34401a_driver.Base.Dict.{Key}
use hp34401a_driver.Evidence.Records.{Exc, Run}
use hp34401a_driver.Evidence.Run.{new_run, start_operation, handle, finish_operation}
use hp34401a_driver.Evidence.Run.Calls.{Calls, operation, stop, perform_all}
use hp34401a_driver.Evidence.Run.FailClosed.{perform_all-Adds, new_run-open}
use hp34401a_driver.Evidence.Run.Trail.{start-open, end-events}
use hp34401a_driver.Evidence.Validate.{Entry, validate}
use hp34401a_driver.Evidence.Folder.{Content, Folder, on_disk, finalize_folder}
use hp34401a_driver.Evidence.Folder.Late.{Grows, late_event}
use hp34401a_driver.Sessions
use hp34401a_driver.Keywords.{Answer}
use hp34401a_driver.Lifecycle.{
  run_at, Library, Keyword, is_disconnect, are_open, outcome_of, status_of, set_run, close_run,
  recorded, alias_field, on_registry, close_dmm, disconnect_dmm,
}
use hp34401a_driver.Lifecycle.Torn.{
  same_self, set_run-at, set_run-folder, performed-open, around, recorded_run, around_evidence,
  close_run-open,
}

module _ {F D I W : Type 0} (length_of : Content F → ℕ) (sha256_of : Content F → Key)
    (describe : Answer (Unit {0}) → Exc F) (fresh : String) where
  -- The folder of the run that the `finally` finalizes.
  close_run-folder :
      (h : ℕ) (capability : String) (a : Answer (Unit {0})) (lib : Library F D I W)
      → is_disconnect capability ≡ true
      → are_open lib ≡ false
      → (close_run length_of sha256_of describe fresh h capability a lib).folders h
        ≡ finalize_folder length_of sha256_of (status_of a) (lib.folders h)
  unfolding close_run
  close_run-folder h capability a lib d e = rw (d, e, same_self h) refl

module _ {F D I W : Type 0} (length_of : Content F → ℕ) (sha256_of : Content F → Key)
    (describe : Answer (Unit {0}) → Exc F) (fresh : String)
    (close_driver : D → W → Result (Unit {0}) × W) where
  abbrev closing : Option String → Keyword F D I W
  closing = close_dmm length_of sha256_of describe fresh close_driver

  -- The keyword inside has finalized the run.
  inner :
      (alias : Option String) (h : ℕ) (lib : Library F D I W)
      → lib.evidence ≡ run_at h
      → (lib.folders h).run.finalized ≡ false
      → are_open (closing alias lib).1 ≡ false
      → (d : Folder F) × (status : String) × (d.run.finalized ≡ false)
        × ((closing alias lib).1.folders h ≡ finalize_folder length_of sha256_of status d)
  unfolding close_dmm
  inner alias h lib e o left =
      let body : Keyword F D I W = on_registry (Sessions.close close_driver alias false) in
      let (a, lib') =
        around length_of sha256_of describe fresh h "Close DMM" (alias_field alias) body lib in
      let call =
        operation fresh "Close DMM" none (alias_field alias) stop (outcome_of describe a) in
      let is_evidence =
        around_evidence length_of sha256_of describe fresh h "Close DMM" (alias_field alias) body
          lib e in
      let last =
        sym (close_run-open length_of sha256_of describe fresh h "Close DMM" a lib')
        ∙ ap (λ (k : Answer (Unit {0}) × Library F D I W). are_open k.1) (sym is_evidence)
        ∙ left in
      (
        lib'.folders h,
        status_of a,
        ap (λ (q : Run F). q.finalized)
              (recorded_run length_of sha256_of describe fresh h "Close DMM" (alias_field alias)
                body lib (λ l. refl))
            ∙ performed-open call (lib.folders h).run
            ∙ o,
        ap (λ (k : Answer (Unit {0}) × Library F D I W). k.1.folders h) is_evidence
            ∙ close_run-folder length_of sha256_of describe fresh h "Close DMM" a lib' refl last,
      )

  outer :
      (alias : Option String) (h : ℕ) (lib : Library F D I W)
      → Grows length_of sha256_of
      → lib.evidence ≡ run_at h
      → (lib.folders h).run.finalized ≡ false
      → are_open (disconnect_dmm length_of sha256_of describe fresh close_driver alias lib).1
        ≡ false
      → validate (
          on_disk length_of sha256_of (
            (disconnect_dmm length_of sha256_of describe fresh close_driver alias lib).1.folders h))
        ≢ []
  unfolding disconnect_dmm recorded
  outer alias h lib grows e o left =
      let r = (lib.folders h).run in
      let (s, started) = start_operation fresh "Disconnect DMM" none (alias_field alias) r in
      let (b, closed) = closing alias (set_run h started lib) in
      let out = outcome_of describe b in
      let (x, events, ended) =
        end-events s out r.current_correlation r.current_operation (closed.folders h).run in
      let finished =
        finish_operation s out r.current_correlation r.current_operation
          (handle s out (closed.folders h).run) in
      let is_evidence =
        around_evidence length_of sha256_of describe fresh h "Disconnect DMM" (alias_field alias)
          (closing alias) lib e in
      let last =
        sym (
          close_run-open length_of sha256_of describe fresh h "Disconnect DMM" b
            (set_run h finished closed))
        ∙ ap (λ (k : Answer (Unit {0}) × Library F D I W). are_open k.1) (sym is_evidence)
        ∙ left in
      let (d, status, is_open, is_closed) =
        inner alias h (set_run h started lib) e
          (ap (λ (q : Run F). q.finalized) (set_run-at h started lib)
            ∙ start-open fresh "Disconnect DMM" none (alias_field alias) r
            ∙ o)
          last in
      let folder =
        ap (λ (k : Answer (Unit {0}) × Library F D I W). k.1.folders h) is_evidence
        ∙ close_run-folder length_of sha256_of describe fresh h "Disconnect DMM" b
            (set_run h finished closed) refl last
        ∙ ap (finalize_folder length_of sha256_of (status_of b))
            (set_run-folder h finished closed) in
      λ valid.
        late_event length_of sha256_of d status (status_of b) (closed.folders h) finished x grows
          is_open is_closed events ended
          (ap (λ f. validate (on_disk length_of sha256_of f)) (sym folder) ∙ valid)

  -- After any calls of a new run, where a later event makes the file of the events longer: when
  -- `Disconnect DMM` closes the last session, the validator rejects the directory that it leaves.
  pub disconnect_dmm-stale :
      (alias : Option String) (h : ℕ) (lib : Library F D I W) (id mode : String) (cs : Calls F)
      (before : Option (List Entry))
      → Grows length_of sha256_of
      → lib.evidence ≡ run_at h
      → lib.folders h ≡ record { run = perform_all cs (new_run id mode); manifest = before }
      → are_open (disconnect_dmm length_of sha256_of describe fresh close_driver alias lib).1
        ≡ false
      → validate (
          on_disk length_of sha256_of (
            (disconnect_dmm length_of sha256_of describe fresh close_driver alias lib).1.folders h))
        ≢ []
  disconnect_dmm-stale alias h lib id mode cs before grows e is_run left =
      outer alias h lib grows e
        (ap (λ (f : Folder F). f.run.finalized) is_run
          ∙ (perform_all-Adds cs (new_run id mode)).keeps_open
          ∙ new_run-open F id mode)
        left
