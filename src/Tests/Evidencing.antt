-- ===== src/Tests/Evidencing.antt =====
-- Tests of the evidence: redaction, and a run with an operation inside an operation.
use hp34401a_driver.Base.{none, some, ◌≡◌, refl, length}
use hp34401a_driver.Base.Int.{ℤ, pos}
use hp34401a_driver.Base.Text.{codes}
use hp34401a_driver.Evidence.Json.{text, int, mapping, redacted, Fields, end, field, redact_mapping}
use hp34401a_driver.Evidence.Json.Redacted.{AreClean, IsPlain, redact_mapping-AreClean}
use hp34401a_driver.Evidence.Records.{Exc, done, raised, Summary}
use hp34401a_driver.Evidence.Run.{finalize, new_run}
use hp34401a_driver.Evidence.Run.Calls.{
  operation, protocol, identity, Calls, stop, next, perform_all, failures_all, failures,
  warnings_all,
}
use hp34401a_driver.Evidence.Run.FailClosed.{expected_status, finalize-status}
use hp34401a_driver.Evidence.Run.Numbering.{Consistent}
use hp34401a_driver.Evidence.Run.Counted.{started_all, calls-Complete}
use hp34401a_driver.Evidence.Run.Mode.{any_simulates, finalize-simulated}

abbrev arguments : Fields ℤ
arguments = field "alias" (text "bench") (
    field "options" (mapping (field "Auth_Token" (text "1234") (field "retries" (int (pos 2)) end)))
      end)

redact_mapping-AreClean_example : AreClean (redact_mapping arguments)
unfolding IsPlain
redact_mapping-AreClean_example = redact_mapping-AreClean arguments (tt, ((tt, (tt, tt)), tt))

abbrev safe_arguments : Fields ℤ
safe_arguments = field "alias" (text "bench") (
    field "options" (mapping (field "Auth_Token" redacted (field "retries" (int (pos 2)) end))) end)

abbrev timed_out : Exc ℤ
timed_out = record { class_name = "TimeoutError"; message = "no answer"; code = int (pos 4) }

abbrev pub calls : Calls ℤ
calls = next (identity "bench" (some "Simulation") end) (
    next
      (operation "corr-1" "Measure" (some "bench") arguments
        (next (protocol "outbound" "gpib" "READ?" none)
          (next (operation "corr-2" "Query" none end stop (raised timed_out)) stop))
        (done (text "7")))
      (next (identity "rack" (some "gpib") end) stop))

finalize-status_example :
    (x : Summary ℤ) × ((finalize "pass"
        (perform_all calls (new_run "rf_hp34401a" "unknown"))).summary
      ≡ some x)
    × (x.final_status ≡ expected_status "pass" (failures_all calls))
    × (x.summary_errors ≡ failures_all calls)
    × (x.summary_warnings ≡ warnings_all calls)
finalize-status_example = finalize-status "rf_hp34401a" "unknown" "pass" calls

calls-Complete_example :
    let r = perform_all calls (new_run "rf_hp34401a" "unknown") in
    Consistent 0 r
    × (length r.errors ≡ failures_all calls)
    × (length r.operations ≡ started_all calls)
calls-Complete_example = calls-Complete "rf_hp34401a" "unknown" calls

finalize-simulated_example :
    (x : Summary ℤ) × ((finalize "pass"
        (perform_all calls (new_run "rf_hp34401a" "unknown"))).summary
      ≡ some x)
    × (x.summary_mode ≡ codes "SIMULATION")
unfolding any_simulates
finalize-simulated_example = finalize-simulated "rf_hp34401a" "unknown" "pass" calls refl

-- The nested operation failed, so the run did.
failed_run : failures_all calls ≡ 1
unfolding failures
failed_run = refl
