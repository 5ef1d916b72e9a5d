-- ===== src/Tests/Closing.antt =====
-- Tests of the keywords that close sessions, on a library with one session and a run under way.
use hp34401a_driver.Base.{
  ℕ, ◌+◌, String, List, true, none, some, [], ◌∷◌, ◌≡◌, ◌≢◌, refl, arith, length, length-append,
}
use hp34401a_driver.Base.Int.{ℤ}
use hp34401a_driver.Base.Text.{codes}
use hp34401a_driver.Base.Dict.{Key, find, remove}
use hp34401a_driver.Base.Show.{show}
use hp34401a_driver.Errors.{Error, Result, ok, err, connection}
use hp34401a_driver.Evidence.Json.{text, redact_mapping, looks_sensitive}
use hp34401a_driver.Evidence.Records.{Exc, six_digits}
use hp34401a_driver.Evidence.Run.{
  emit_event, record_error, start_operation, handle, finish_operation, record_operation,
  log_protocol, record_device_identity, finalize, new_run,
}
use hp34401a_driver.Evidence.Run.Calls.{perform, perform_all}
use hp34401a_driver.Evidence.Validate.{validate}
use hp34401a_driver.Evidence.Folder.{Content, event_lines, on_disk, write_manifest, finalize_folder}
use hp34401a_driver.Evidence.Lines.{breaks, value_breaks}
use hp34401a_driver.Base.Text.{contains, starts_with}
use hp34401a_driver.Evidence.Folder.Accepted.{finalize_folder-passes}
use hp34401a_driver.Evidence.Folder.Late.{Grows}
use hp34401a_driver.Keywords.{Answer}
use hp34401a_driver.Sessions.{get, forget, close, close_each, close_all}
use hp34401a_driver.Lifecycle.{
  library_close, no_run, run_at, Library, ensure_evidence, close_run, recorded, evidenced,
  close_dmm, disconnect_dmm,
}
use hp34401a_driver.Lifecycle.Torn.{close_one, teardown, teardown-passes}
use hp34401a_driver.Lifecycle.Closed.{Ended, library_close-Ended}
use hp34401a_driver.Lifecycle.Nested.{disconnect_dmm-stale}
use hp34401a_driver.Tests.Evidencing.{calls}

-- A file is as long as it has events, and its hash is always the same.
abbrev long : Content ℤ → ℕ
long (event_lines es) = length es
long _ = 0

abbrev hash : Content ℤ → Key
hash c = []

long-Grows : Grows long hash
long-Grows es x more = omega (arith, length-append {0} es (x ∷ more))

abbrev told : Answer (Unit {0}) → Exc ℤ
told a = record { class_name = "DriverStateError"; message = "not open"; code = text "" }

abbrev close_quietly : ℕ → ℕ → Result (Unit {0}) × ℕ
close_quietly d w = (ok tt, w + d)

finalize_folder-passes_example :
    validate (
      on_disk long hash (
        finalize_folder long hash "PASS"
          (record { run = perform_all calls (new_run "rf_hp34401a" "UNKNOWN"); manifest = none })))
    ≡ []
unfolding breaks value_breaks contains perform emit_event record_error start_operation handle
    finish_operation record_operation log_protocol record_device_identity finalize new_run
    write_manifest finalize_folder starts_with redact_mapping six_digits show looks_sensitive
finalize_folder-passes_example =
    finalize_folder-passes long hash "rf_hp34401a" "UNKNOWN" "PASS" calls none (record {
      events_whole = refl;
      operations_whole = refl;
      errors_whole = refl;
      exchanges_whole = refl;
    })

abbrev one_session : Library ℤ ℕ ℕ ℕ
one_session = record {
  manager = record {
    sessions =
        (codes "bench", record { alias = "bench"; driver = 3; details = 0; generation = 1 }) ∷ [];
    active_key = some (codes "bench");
    generations = [];
    world = 0;
  };
  evidence_enabled = true;
  evidence = run_at 0;
  folders =
      λ k. record { run = perform_all calls (new_run "rf_hp34401a" "UNKNOWN"); manifest = none };
  made = 1;
}

teardown-passes_example :
    (validate (
        on_disk long hash (
          (teardown long hash told "corr-9" close_quietly (close_one none) one_session).1.folders
            0))
      ≡ [])
    × ((teardown long hash told "corr-9" close_quietly (close_one none) one_session).1.evidence
        ≡ no_run)
unfolding breaks value_breaks contains perform emit_event record_error start_operation handle
    finish_operation record_operation log_protocol record_device_identity finalize new_run
    write_manifest finalize_folder starts_with redact_mapping six_digits show looks_sensitive
    evidenced ensure_evidence recorded close_run close_dmm close get forget find remove
teardown-passes_example =
    teardown-passes long hash told "corr-9" close_quietly (close_one none) 0 one_session
      "rf_hp34401a" "UNKNOWN" calls none refl refl refl
      (record {
        events_whole = refl;
        operations_whole = refl;
        errors_whole = refl;
        exchanges_whole = refl;
      })

disconnect_dmm-stale_example :
    validate (
      on_disk long hash
        ((disconnect_dmm long hash told "corr-9" close_quietly none one_session).1.folders 0))
    ≢ []
unfolding evidenced ensure_evidence recorded close_run close_dmm disconnect_dmm close get forget
    find remove
disconnect_dmm-stale_example =
    disconnect_dmm-stale long hash told "corr-9" close_quietly none 0 one_session "rf_hp34401a"
      "UNKNOWN" calls none long-Grows refl refl refl

abbrev cleanup_failed : List (String × Error) → Exc ℤ
cleanup_failed errors = record {
  class_name = "DriverCleanupError";
  message = "bench";
  code = text "";
}

abbrev close_badly : ℕ → ℕ → Result (Unit {0}) × ℕ
close_badly d w = (err connection, w)

abbrev shut_session : Library ℤ ℕ ℕ ℕ
shut_session = library_close long hash cleanup_failed close_badly one_session

library_close-Ended_example :
    Ended long hash cleanup_failed (codes "FAIL") (shut_session.folders 0)
    × (shut_session.manager.sessions ≡ [])
    × (shut_session.evidence ≡ no_run)
    × (library_close long hash cleanup_failed close_badly shut_session ≡ shut_session)
unfolding library_close breaks value_breaks contains perform emit_event record_error start_operation
    handle finish_operation record_operation log_protocol record_device_identity finalize new_run
    write_manifest finalize_folder starts_with redact_mapping six_digits show looks_sensitive
    close_all close_each
library_close-Ended_example =
    library_close-Ended long hash cleanup_failed close_badly 0 one_session "rf_hp34401a" "UNKNOWN"
      calls none refl refl
      (record {
        events_whole = refl;
        operations_whole = refl;
        errors_whole = refl;
        exchanges_whole = refl;
      })
