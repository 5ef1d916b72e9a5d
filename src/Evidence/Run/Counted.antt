-- ===== src/Evidence/Run/Counted.antt =====
-- The errors and the operations of a run, counted on the calls alone, are those in its files.
use hp34401a_driver.Base.{
  ℕ, suc, ◌+◌, String, Option, [], ◌∷◌, ◌≡◌, arith, length, length-append, inl, inr, Bool-cases,
  ◌||◌, or_else,
}
use hp34401a_driver.Base.Text.{codes}
use hp34401a_driver.Base.Dict.{same_key}
use hp34401a_driver.Evidence.Json.{Fields}
use hp34401a_driver.Evidence.Records.{Outcome, done, raised, interrupted, Started, Run}
use hp34401a_driver.Evidence.Run.{
  emit_event, record_error, start_operation, handle, finish_operation, record_operation,
  log_protocol, record_device_identity, new_run,
}
use hp34401a_driver.Evidence.Run.Calls.{
  Call, event, failure, operation, protocol, identity, Calls, stop, next, perform, perform_all,
  failures, failures_all, failed,
}
use hp34401a_driver.Evidence.Run.Numbering.{Consistent}
use hp34401a_driver.Evidence.Run.Complete.{calls-Consistent}

-- How many operations there are, inner ones included.
unfoldable mutual
  started : {F : Type 0} → Call F → ℕ
  started (operation fresh name alias args body out) = suc (started_all body)
  started _ = 0

  pub started_all : {F : Type 0} → Calls F → ℕ
  started_all stop = 0
  started_all (next c cs) = started c + started_all cs

module _ {F : Type 0} where
  -- `r'` has `e` more entries for errors than `r`, and `o` more records of operations.
  record Lists (e o : ℕ) (r r' : Run F) : Type 0 where
    pub errors_of : length r'.errors ≡ length r.errors + e
    pub operations_of : length r'.operations ≡ length r.operations + o

  Lists-trans :
      (e o e' o' : ℕ) (a b c : Run F)
      → Lists e o a b
      → Lists e' o' b c
      → Lists (e + e') (o + o') a c
  Lists-trans e o e' o' a b c x y = record {
    errors_of = omega (arith, x.errors_of, y.errors_of);
    operations_of = omega (arith, x.operations_of, y.operations_of);
  }

  protocol-Lists :
      (direction kind sent : String) (alias : Option String) (r : Run F)
      → Lists 0 0 r (or_else (log_protocol direction kind sent alias r) r)
  unfolding log_protocol
  protocol-Lists direction kind sent alias r =
      let b =
        same_key (codes direction) (codes "outbound")
        || same_key (codes direction) (codes "inbound") in
      elim (Bool-cases b) [
        | inl e ↦ rw e (record { errors_of = omega arith; operations_of = omega arith })
        | inr e ↦ rw e (record { errors_of = omega arith; operations_of = omega arith })
      ]

  start-Lists :
      (fresh name : String) (alias : Option String) (args : Fields F) (r : Run F)
      → Lists 0 0 r (start_operation fresh name alias args r).1
  unfolding start_operation emit_event
  start-Lists fresh name alias args r = record {
    errors_of = omega arith;
    operations_of = omega arith;
  }

  end-Lists :
      (s : Started F) (out : Outcome F) (c o : Option String) (r : Run F)
      → Lists (failed out) 1 r (finish_operation s out c o (handle s out r))
  unfolding finish_operation handle emit_event record_error
  end-Lists s (done v) c o r = record {
    errors_of = omega arith;
    operations_of = omega (arith, length-append r.operations (_ ∷ []));
  }
  end-Lists s (raised e) c o r = record {
    errors_of = omega (arith, length-append r.errors (_ ∷ []));
    operations_of = omega (arith, length-append r.operations (_ ∷ []));
  }
  end-Lists s (interrupted v) c o r = record {
    errors_of = omega arith;
    operations_of = omega (arith, length-append r.operations (_ ∷ []));
  }

  operation-Lists :
      (fresh name : String) (alias : Option String) (args : Fields F) (body : Calls F)
      (out : Outcome F) (r : Run F)
      → ((r' : Run F) → Lists (failures_all body) (started_all body) r' (perform_all body r'))
      → Lists
          (failures_all body + failed out)
          (suc (started_all body))
          r
          (record_operation fresh name alias args (λ r'. (out, perform_all body r')) r).1
  unfolding record_operation
  operation-Lists fresh name alias args body out r h =
      let (s, r') = start_operation fresh name alias args r in
      let x = start-Lists fresh name alias args r in
      let y = h r' in
      let z = end-Lists s out r.current_correlation r.current_operation (perform_all body r') in
      record {
        errors_of = omega (arith, x.errors_of, y.errors_of, z.errors_of);
        operations_of = omega (arith, x.operations_of, y.operations_of, z.operations_of);
      }

  mutual
    unfolding perform failures started emit_event record_error record_device_identity

    perform-Lists : (c : Call F) (r : Run F) → Lists (failures c) (started c) r (perform c r)
    perform-Lists (event c) r = record { errors_of = omega arith; operations_of = omega arith }
    perform-Lists (failure e c recoverable) r = record {
      errors_of = omega (arith, length-append r.errors (_ ∷ []));
      operations_of = omega arith;
    }
    perform-Lists (operation fresh name alias args body out) r =
        operation-Lists fresh name alias args body out r (perform_all-Lists body)
    perform-Lists (protocol direction kind sent alias) r =
        protocol-Lists direction kind sent alias r
    perform-Lists (identity alias transport fields) r = record {
      errors_of = omega arith;
      operations_of = omega arith;
    }

    perform_all-Lists :
        (cs : Calls F) (r : Run F) → Lists (failures_all cs) (started_all cs) r (perform_all cs r)
    perform_all-Lists stop r = record { errors_of = omega arith; operations_of = omega arith }
    perform_all-Lists (next c cs) r =
        Lists-trans (failures c) (started c) (failures_all cs) (started_all cs) r (perform c r)
          (perform_all cs (perform c r)) (perform-Lists c r) (perform_all-Lists cs (perform c r))

  -- After any calls of a new run, with operations inside operations and whatever they raised, each of
  -- the four files has records numbered 1, 2, and so on without a gap; there are as many entries for
  -- errors as calls that record one and operations that end with an Exception, and as many operation
  -- records as operations were started.
  pub calls-Complete :
      (id mode : String) (cs : Calls F)
      → let r = perform_all cs (new_run id mode) in
        Consistent 0 r
        × (length r.errors ≡ failures_all cs)
        × (length r.operations ≡ started_all cs)
  unfolding new_run emit_event
  calls-Complete id mode cs =
      let x = perform_all-Lists cs (new_run id mode) in
      (calls-Consistent id mode cs, omega (arith, x.errors_of), omega (arith, x.operations_of))
