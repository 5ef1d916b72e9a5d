-- ===== src/Evidence/Run/FailClosed.antt =====
-- The final status of a run.
use mathlib.Core.Path.{subst}
use hp34401a_driver.Base.{
  ℕ, ◌+◌, String, Bool, false, Option, some, ◌≡◌, refl, ◌∙◌, ◌||◌, arith, ltb, inl, inr, Bool-cases,
  if◌then◌else◌, or_else,
}
use hp34401a_driver.Base.Text.{codes, strip, lstrip, rstrip, is_space, upper, upper_code}
use hp34401a_driver.Base.Dict.{Key, same_key, same_key-eq}
use hp34401a_driver.Evidence.Json.{Fields}
use hp34401a_driver.Evidence.Records.{
  Started, Exc, EventCall, Subject, Outcome, done, raised, interrupted, Run, Summary, is_warn,
}
use hp34401a_driver.Evidence.Run.{
  emit_event, record_error, start_operation, handle, finish_operation, record_operation,
  log_protocol, record_device_identity, requested_status, effective_status, finalize, new_run,
}
use hp34401a_driver.Evidence.Run.Calls.{
  Call, event, failure, operation, protocol, identity, Calls, stop, next, perform, perform_all,
  failures, failures_all, failed, warnings, warnings_all,
}

-- The status that the calls alone make.
abbrev pub expected_status : String → ℕ → Key
expected_status status n = if ltb 0 n then codes "FAIL" else requested_status status

pub new_run-open : (F : Type 0) (id mode : String) → (new_run {F = F} id mode).finalized ≡ false
unfolding new_run emit_event
new_run-open F id mode = refl

module _ {F : Type 0} where
  -- `r'` is `r` after `e` more errors and `w` more warnings.
  pub record Adds (e w : ℕ) (r r' : Run F) : Type 0 where
    pub adds_errors : r'.error_count ≡ r.error_count + e
    pub adds_warnings : r'.warning_count ≡ r.warning_count + w
    pub adds_failed : r'.run_failed ≡ (r.run_failed || ltb 0 e)
    pub keeps_open : r'.finalized ≡ r.finalized

  Adds-refl : (r : Run F) → Adds 0 0 r r
  Adds-refl r = record {
    adds_errors = omega arith;
    adds_warnings = omega arith;
    adds_failed = ground arith;
    keeps_open = refl;
  }

  Adds-trans :
      (e w e' w' : ℕ) (a b c : Run F) → Adds e w a b → Adds e' w' b c → Adds (e + e') (w + w') a c
  Adds-trans e w e' w' a b c x y = record {
    adds_errors = omega (arith, x.adds_errors, y.adds_errors);
    adds_warnings = omega (arith, x.adds_warnings, y.adds_warnings);
    adds_failed = ground (arith, x.adds_failed, y.adds_failed);
    keeps_open = y.keeps_open ∙ x.keeps_open;
  }

  Adds-cast : (e w e' w' : ℕ) (r r' : Run F) → e ≡ e' → w ≡ w' → Adds e w r r' → Adds e' w' r r'
  Adds-cast e w e' w' r r' p q x = subst (λ n. Adds n w' r r') p (subst (λ n. Adds e n r r') q x)

  emit_event-Adds :
      (c : EventCall F) (r : Run F)
      → Adds 0 (if is_warn c.call_level then 1 else 0) r (emit_event c r)
  unfolding emit_event
  emit_event-Adds c r = record {
    adds_errors = omega arith;
    adds_warnings = ground arith;
    adds_failed = ground arith;
    keeps_open = refl;
  }

  record_error-Adds :
      (e : Exc F) (c : Subject) (recoverable : Option Bool) (r : Run F)
      → Adds 1 0 r (record_error e c recoverable r)
  unfolding record_error
  record_error-Adds e c recoverable r = record {
    adds_errors = omega arith;
    adds_warnings = omega arith;
    adds_failed = ground arith;
    keeps_open = refl;
  }

  protocol-Adds :
      (direction kind sent : String) (alias : Option String) (r : Run F)
      → Adds 0 0 r (or_else (log_protocol direction kind sent alias r) r)
  unfolding log_protocol
  protocol-Adds direction kind sent alias r =
      let b =
        same_key (codes direction) (codes "outbound")
        || same_key (codes direction) (codes "inbound") in
      elim (Bool-cases b) [
        | inl e ↦ rw e (record {
          adds_errors = omega arith;
          adds_warnings = omega arith;
          adds_failed = ground arith;
          keeps_open = refl;
        })
        | inr e ↦ rw e (Adds-refl r)
      ]

  identity-Adds :
      (alias : String) (transport : Option String) (fields : Fields F) (r : Run F)
      → Adds 0 0 r (record_device_identity alias transport fields r)
  unfolding record_device_identity
  identity-Adds alias transport fields r = record {
    adds_errors = omega arith;
    adds_warnings = omega arith;
    adds_failed = ground arith;
    keeps_open = refl;
  }

  -- Around the body of an operation: its start, and its end.
  start-Adds :
      (fresh name : String) (alias : Option String) (args : Fields F) (r : Run F)
      → Adds 0 0 r (start_operation fresh name alias args r).1
  unfolding start_operation emit_event
  start-Adds fresh name alias args r = record {
    adds_errors = omega arith;
    adds_warnings = omega arith;
    adds_failed = ground arith;
    keeps_open = refl;
  }

  end-Adds :
      (s : Started F) (out : Outcome F) (c o : Option String) (r : Run F)
      → Adds (failed out) 0 r (finish_operation s out c o (handle s out r))
  unfolding finish_operation handle emit_event record_error
  end-Adds s (done v) c o r = record {
    adds_errors = omega arith;
    adds_warnings = omega arith;
    adds_failed = ground arith;
    keeps_open = refl;
  }
  end-Adds s (raised e) c o r = record {
    adds_errors = omega arith;
    adds_warnings = omega arith;
    adds_failed = ground arith;
    keeps_open = refl;
  }
  end-Adds s (interrupted v) c o r = record {
    adds_errors = omega arith;
    adds_warnings = omega arith;
    adds_failed = ground arith;
    keeps_open = refl;
  }

  operation-Adds :
      (fresh name : String) (alias : Option String) (args : Fields F) (body : Calls F)
      (out : Outcome F) (r : Run F)
      → ((r' : Run F) → Adds (failures_all body) (warnings_all body) r' (perform_all body r'))
      → Adds
          (failures_all body + failed out)
          (warnings_all body)
          r
          (record_operation fresh name alias args (λ r'. (out, perform_all body r')) r).1
  unfolding record_operation
  operation-Adds fresh name alias args body out r h =
      let (s, r') = start_operation fresh name alias args r in
      let r'' = perform_all body r' in
      let closed =
        finish_operation s out r.current_correlation r.current_operation (handle s out r'') in
      let inside =
        Adds-trans (failures_all body) (warnings_all body) (failed out) 0 r' r'' closed (h r')
          (end-Adds s out r.current_correlation r.current_operation r'') in
      Adds-cast (0 + (failures_all body + failed out)) (0 + (warnings_all body + 0))
        (failures_all body + failed out) (warnings_all body) r closed (omega arith) (omega arith)
        (Adds-trans 0 0 (failures_all body + failed out) (warnings_all body + 0) r r' closed
          (start-Adds fresh name alias args r) inside)

  mutual
    unfolding perform failures warnings

    pub perform-Adds : (c : Call F) (r : Run F) → Adds (failures c) (warnings c) r (perform c r)
    perform-Adds (event c) r = emit_event-Adds c r
    perform-Adds (failure e c recoverable) r = record_error-Adds e c recoverable r
    perform-Adds (operation fresh name alias args body out) r =
        operation-Adds fresh name alias args body out r (perform_all-Adds body)
    perform-Adds (protocol direction kind sent alias) r = protocol-Adds direction kind sent alias r
    perform-Adds (identity alias transport fields) r = identity-Adds alias transport fields r

    pub perform_all-Adds :
        (cs : Calls F) (r : Run F) → Adds (failures_all cs) (warnings_all cs) r (perform_all cs r)
    perform_all-Adds stop r = Adds-refl r
    perform_all-Adds (next c cs) r =
        Adds-trans (failures c) (warnings c) (failures_all cs) (warnings_all cs) r (perform c r)
          (perform_all cs (perform c r)) (perform-Adds c r) (perform_all-Adds cs (perform c r))

  effective-expected :
      (status : String) (n : ℕ) (r : Run F)
      → r.run_failed ≡ ltb 0 n
      → r.error_count ≡ n
      → effective_status status r ≡ expected_status status n
  unfolding effective_status
  effective-expected status n r h k =
      ground (arith, h, k, same_key-eq (requested_status status) (codes "FAIL"))

  pub requested_fail : (r : Run F) → effective_status "FAIL" r ≡ codes "FAIL"
  unfolding effective_status strip lstrip rstrip is_space upper upper_code
  requested_fail r = ground arith

  pub finalize_open :
      (status : String) (r : Run F)
      → r.finalized ≡ false
      → (x : Summary F) × ((finalize status r).summary ≡ some x)
        × (x.final_status ≡ effective_status status r)
        × (x.summary_errors ≡ r.error_count)
        × (x.summary_warnings ≡ r.warning_count)
        × (x.summary_mode ≡ r.execution_mode)
  unfolding finalize emit_event
  finalize_open status r h = rw h (_, refl, refl, refl, refl, refl)

  -- After any calls of a new run, finalize writes a summary whose status is FAIL if an error was
  -- recorded or an operation ended with an Exception, and else the status that it was asked for; the
  -- summary counts exactly those errors, and the events of the level WARN.
  pub finalize-status :
      (id mode status : String) (cs : Calls F)
      → (x : Summary F) × ((finalize status (perform_all cs (new_run id mode))).summary ≡ some x)
        × (x.final_status ≡ expected_status status (failures_all cs))
        × (x.summary_errors ≡ failures_all cs)
        × (x.summary_warnings ≡ warnings_all cs)
  unfolding new_run emit_event
  finalize-status id mode status cs =
      let r = perform_all cs (new_run id mode) in
      let adds = perform_all-Adds cs (new_run id mode) in
      let (x, made, is_status, errors, warned, mode_of) =
        finalize_open status r (adds.keeps_open) in
      (
        x,
        made,
        is_status
            ∙ effective-expected status (failures_all cs) r (adds.adds_failed ∙ refl)
                (omega (arith, adds.adds_errors)),
        omega (arith, errors, adds.adds_errors),
        omega (arith, warned, adds.adds_warnings),
      )
