-- ===== src/Lifecycle/Torn.antt =====
-- The keyword that closes the last session leaves a run that the validator accepts.
use mathlib.Core.Path.{subst}
use hp34401a_driver.Base.{
  ℕ, suc, String, Bool, true, false, Option, none, List, [], ◌≡◌, refl, sym, ap, ◌∙◌, arith,
  if◌then◌else◌, ◌==◌,
}
use hp34401a_driver.Errors.{Result}
use hp34401a_driver.Base.Dict.{Key}
use hp34401a_driver.Evidence.Json.{Fields, end}
use hp34401a_driver.Evidence.Records.{Exc, Run}
use hp34401a_driver.Evidence.Run.{
  new_run, start_operation, handle, finish_operation, record_operation,
}
use hp34401a_driver.Evidence.Run.Calls.{Call, Calls, operation, next, stop, perform, perform_all}
use hp34401a_driver.Evidence.Run.FailClosed.{perform_all-Adds, new_run-open}
use hp34401a_driver.Evidence.Run.Numbering.{Consistent}
use hp34401a_driver.Evidence.Run.Complete.{perform-Consistent, calls-Consistent}
use hp34401a_driver.Evidence.Lines.{Unbroken}
use hp34401a_driver.Evidence.Validate.{Entry, validate}
use hp34401a_driver.Evidence.Folder.{Content, Folder, on_disk, finalize_folder}
use hp34401a_driver.Evidence.Folder.Accepted.{open-passes}
use hp34401a_driver.Keywords.{Answer}
use hp34401a_driver.Lifecycle.{
  no_run, null_run, run_at, Library, Keyword, is_disconnect, are_open, outcome_of, set_folder,
  set_run, ensure_evidence, close_run, recorded, on_evidence, evidenced, alias_field, status_of,
  close_dmm, disconnect, disconnect_all, close_all_dmms,
}

pub same_self : (n : ℕ) → (n == n) ≡ true
same_self n = ground arith

pub performed-open : {F : Type 0} (c : Call F) (r : Run F) → (perform c r).finalized ≡ r.finalized
unfolding perform
performed-open c r = (perform_all-Adds (next c stop) r).keeps_open

module _ {F D I W : Type 0} where
  ensure-same :
      (h : ℕ) (lib : Library F D I W) → lib.evidence ≡ run_at h → ensure_evidence lib ≡ lib
  unfolding ensure_evidence
  ensure-same h lib e =
      subst
        (λ v.
          (elim v as (λ _. Library F D I W) [
            | run_at h ↦ lib
            | null_run ↦ lib
            | no_run ↦
                if lib.evidence_enabled
                then record (set_folder lib.made
                    (record { run = new_run "rf_hp34401a" "UNKNOWN"; manifest = none }) lib) {
                      evidence = run_at lib.made;
                      made = suc lib.made;
                    }
                else record lib { evidence = null_run }
          ])
          ≡ lib)
        (sym e) refl

  pub set_run-at :
      (h : ℕ) (r : Run F) (lib : Library F D I W) → ((set_run h r lib).folders h).run ≡ r
  set_run-at h r lib =
      ap (λ (b : Bool). (if b then record (lib.folders h) { run = r } else lib.folders h).run)
        (same_self h)

  pub set_run-folder :
      (h : ℕ) (r : Run F) (lib : Library F D I W)
      → (set_run h r lib).folders h ≡ record (lib.folders h) { run = r }
  set_run-folder h r lib =
      ap (λ (b : Bool). if b then record (lib.folders h) { run = r } else lib.folders h)
        (same_self h)

  same_sessions :
      (b c : Bool) (x y : Library F D I W)
      → are_open y ≡ are_open x
      → are_open (if b then (if c then x else y) else x) ≡ are_open x
  same_sessions true true x y h = refl
  same_sessions true false x y h = h
  same_sessions false c x y h = refl

module _ {F D I W : Type 0} (length_of : Content F → ℕ) (sha256_of : Content F → Key)
    (describe : Answer (Unit {0}) → Exc F) (fresh : String) where
  abbrev pub under : String → Fields F → Keyword F D I W → Keyword F D I W
  under = evidenced length_of sha256_of describe fresh

  abbrev pub around : ℕ → String → Fields F → Keyword F D I W → Keyword F D I W
  around = recorded length_of sha256_of describe fresh

  -- A body that leaves the runs alone.
  abbrev pub IsQuiet : Keyword F D I W → Type 0
  IsQuiet body = (lib : Library F D I W) → (body lib).1.folders ≡ lib.folders

  pub recorded_run :
      (h : ℕ) (capability : String) (args : Fields F) (body : Keyword F D I W)
      (lib : Library F D I W)
      → IsQuiet body
      → ((around h capability args body lib).1.folders h).run
        ≡ perform
            (operation fresh capability none args stop
              (outcome_of describe (around h capability args body lib).0))
            (lib.folders h).run
  unfolding recorded perform record_operation
  recorded_run h capability args body lib quiet =
      let r = (lib.folders h).run in
      let (s, started) = start_operation fresh capability none args r in
      let (a, lib') = body (set_run h started lib) in
      let out = outcome_of describe a in
      set_run-at h
        (finish_operation s out r.current_correlation r.current_operation
          (handle s out (lib'.folders h).run))
        lib'
      ∙ ap (λ x. finish_operation s out r.current_correlation r.current_operation (handle s out x))
          (ap (λ (f : ℕ → Folder F). (f h).run) (quiet (set_run h started lib))
            ∙ set_run-at h started lib)

  -- What the keyword leaves of the run, where no session is left.
  last_close :
      (h : ℕ) (capability : String) (a : Answer (Unit {0})) (lib : Library F D I W)
      → is_disconnect capability ≡ true
      → are_open lib ≡ false
      → Consistent 0 (lib.folders h).run
      → (lib.folders h).run.finalized ≡ false
      → Unbroken ((close_run length_of sha256_of describe fresh h capability a lib).folders h).run
      → (validate (
            on_disk length_of sha256_of
              ((close_run length_of sha256_of describe fresh h capability a lib).folders h))
          ≡ [])
        × ((close_run length_of sha256_of describe fresh h capability a lib).evidence ≡ no_run)
  unfolding close_run
  last_close h capability a lib d e x o =
      rw (d, e, same_self h)
        (λ u. (open-passes length_of sha256_of 0 (status_of a) (lib.folders h) x o u, refl))

  -- The sessions are those that the body left.
  pub close_run-open :
      (h : ℕ) (capability : String) (a : Answer (Unit {0})) (lib : Library F D I W)
      → are_open (close_run length_of sha256_of describe fresh h capability a lib) ≡ are_open lib
  unfolding close_run
  close_run-open h capability a lib =
      same_sessions (is_disconnect capability) (are_open lib) lib
        (record (set_folder h (finalize_folder length_of sha256_of (status_of a) (lib.folders h))
          lib) { evidence = no_run })
        refl

  pub around_evidence :
      (h : ℕ) (capability : String) (args : Fields F) (body : Keyword F D I W)
      (lib : Library F D I W)
      → lib.evidence ≡ run_at h
      → under capability args body lib
        ≡ on_evidence length_of sha256_of describe fresh (run_at h) capability args body lib
  unfolding evidenced
  around_evidence h capability args body lib e =
      let on = on_evidence length_of sha256_of describe fresh in
      ap (λ (l : Library F D I W). on l.evidence capability args body l) (ensure-same h lib e)
      ∙ ap (λ v. on v capability args body lib) e

  -- Any keyword of the family, around a body that leaves the runs alone.
  evidenced-passes :
      (h : ℕ) (capability : String) (args : Fields F) (body : Keyword F D I W)
      (lib : Library F D I W)
      → lib.evidence ≡ run_at h
      → is_disconnect capability ≡ true
      → IsQuiet body
      → Consistent 0 (lib.folders h).run
      → (lib.folders h).run.finalized ≡ false
      → are_open (under capability args body lib).1 ≡ false
      → Unbroken ((under capability args body lib).1.folders h).run
      → (validate (on_disk length_of sha256_of ((under capability args body lib).1.folders h)) ≡ [])
        × ((under capability args body lib).1.evidence ≡ no_run)
  evidenced-passes h capability args body lib e d quiet x o left =
      let r = (lib.folders h).run in
      let (a, lib') = around h capability args body lib in
      let call = operation fresh capability none args stop (outcome_of describe a) in
      let is_run = recorded_run h capability args body lib quiet in
      let is_evidence = around_evidence h capability args body lib e in
      subst
        (λ (k : Answer (Unit {0}) × Library F D I W).
          Unbroken (k.1.folders h).run
          → (validate (on_disk length_of sha256_of (k.1.folders h)) ≡ []) × (k.1.evidence ≡ no_run))
        (sym is_evidence)
        (last_close h capability a lib' d
          (sym (close_run-open h capability a lib')
            ∙ ap (λ (k : Answer (Unit {0}) × Library F D I W). are_open k.1) (sym is_evidence)
            ∙ left)
          (subst (Consistent 0) (sym is_run) (perform-Consistent 0 call r x))
          (ap (λ (q : Run F). q.finalized) is_run ∙ performed-open call r ∙ o))

-- The keywords that close sessions, but for `Disconnect DMM`.
pub data Teardown : Type 0 where
  close_one disconnect_one : Option String → Teardown
  disconnect_every close_every : Teardown

module _ {F D I W : Type 0} (length_of : Content F → ℕ) (sha256_of : Content F → Key)
    (describe : Answer (Unit {0}) → Exc F) (fresh : String)
    (close_driver : D → W → Result (Unit {0}) × W) where
  abbrev pub teardown : Teardown → Keyword F D I W
  teardown (close_one alias) = close_dmm length_of sha256_of describe fresh close_driver alias
  teardown (disconnect_one alias) = disconnect length_of sha256_of describe fresh close_driver alias
  teardown disconnect_every = disconnect_all length_of sha256_of describe fresh close_driver
  teardown close_every = close_all_dmms length_of sha256_of describe fresh close_driver

  abbrev Accepted : ℕ → Library F D I W → Type 0
  Accepted h lib =
      (validate (on_disk length_of sha256_of (lib.folders h)) ≡ []) × (lib.evidence ≡ no_run)

  teardown-Accepted :
      (t : Teardown) (h : ℕ) (lib : Library F D I W)
      → lib.evidence ≡ run_at h
      → Consistent 0 (lib.folders h).run
      → (lib.folders h).run.finalized ≡ false
      → are_open (teardown t lib).1 ≡ false
      → Unbroken ((teardown t lib).1.folders h).run
      → Accepted h (teardown t lib).1
  unfolding close_dmm disconnect disconnect_all close_all_dmms
  teardown-Accepted (close_one alias) h lib e x o left u =
      evidenced-passes length_of sha256_of describe fresh h "Close DMM" (alias_field alias) _ lib e
        refl (λ l. refl) x o left u
  teardown-Accepted (disconnect_one alias) h lib e x o left u =
      evidenced-passes length_of sha256_of describe fresh h "Disconnect" (alias_field alias) _ lib e
        refl (λ l. refl) x o left u
  teardown-Accepted disconnect_every h lib e x o left u =
      evidenced-passes length_of sha256_of describe fresh h "Disconnect All" end _ lib e refl
        (λ l. refl) x o left u
  teardown-Accepted close_every h lib e x o left u =
      evidenced-passes length_of sha256_of describe fresh h "Close All DMMs" end _ lib e refl
        (λ l. refl) x o left u

  -- After any calls of a new run, Close DMM, Disconnect, Disconnect All or Close All DMMs that leaves
  -- no session, whether it returns or raises, lets go of the run, and the validator has no finding in
  -- the directory that it leaves, where no text in the records has a line separator that JSON leaves
  -- as it is.
  pub teardown-passes :
      (t : Teardown) (h : ℕ) (lib : Library F D I W) (id mode : String) (cs : Calls F)
      (before : Option (List Entry))
      → lib.evidence ≡ run_at h
      → lib.folders h ≡ record { run = perform_all cs (new_run id mode); manifest = before }
      → are_open (teardown t lib).1 ≡ false
      → Unbroken ((teardown t lib).1.folders h).run
      → (validate (on_disk length_of sha256_of ((teardown t lib).1.folders h)) ≡ [])
        × ((teardown t lib).1.evidence ≡ no_run)
  teardown-passes t h lib id mode cs before e is_run left u =
      let d : Folder F = record { run = perform_all cs (new_run id mode); manifest = before } in
      teardown-Accepted t h lib e
        (subst (λ (f : Folder F). Consistent 0 f.run) (sym is_run) (calls-Consistent id mode cs))
        (ap (λ (f : Folder F). f.run.finalized) is_run
          ∙ (perform_all-Adds cs (new_run id mode)).keeps_open
          ∙ new_run-open F id mode)
        left u
