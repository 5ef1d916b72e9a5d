-- ===== src/Evidence/Run/Complete.antt =====
-- Nothing is missing from the files of a run, after any calls.
use hp34401a_driver.Base.{
  Bool, true, false, if◌then◌else◌, ℕ, suc, String, Option, none, refl, ◌||◌, arith, inl, inr,
  Bool-cases, or_else,
}
use hp34401a_driver.Base.Text.{codes}
use hp34401a_driver.Base.Dict.{same_key, find}
use hp34401a_driver.Evidence.Json.{Fields}
use hp34401a_driver.Evidence.Records.{Outcome, done, raised, interrupted, Started, Run}
use hp34401a_driver.Evidence.Run.{
  start_operation, handle, finish_operation, record_operation, log_protocol, record_device_identity,
  new_run, run_event, finalize,
}
use hp34401a_driver.Evidence.Run.Calls.{
  Call, event, failure, operation, protocol, identity, Calls, stop, next, perform, perform_all,
}
use hp34401a_driver.Evidence.Run.Numbering.{
  up_to, Consistent, emit_event-Consistent, record_error-Consistent, add_operation-Consistent,
  add_exchange-Consistent,
}

module _ {F : Type 0} where
  start-Consistent :
      (n : ℕ) (fresh name : String) (alias : Option String) (args : Fields F) (r : Run F)
      → Consistent n r
      → Consistent (suc n) (start_operation fresh name alias args r).1
  unfolding start_operation
  start-Consistent n fresh name alias args r x = emit_event-Consistent (suc n) _ _ (record {
    events_numbered = x.events_numbered;
    operations_numbered = x.operations_numbered;
    errors_numbered = x.errors_numbered;
    exchanges_numbered = x.exchanges_numbered;
    errors_counted = x.errors_counted;
    operations_counted = omega (arith, x.operations_counted);
  })

  handle-Consistent :
      (n : ℕ) (s : Started F) (out : Outcome F) (r : Run F)
      → Consistent n r
      → Consistent n (handle s out r)
  unfolding handle
  handle-Consistent n s (done v) r x = x
  handle-Consistent n s (raised e) r x = record_error-Consistent n e _ none _ (record {
    events_numbered = x.events_numbered;
    operations_numbered = x.operations_numbered;
    errors_numbered = x.errors_numbered;
    exchanges_numbered = x.exchanges_numbered;
    errors_counted = x.errors_counted;
    operations_counted = x.operations_counted;
  })
  handle-Consistent n s (interrupted v) r x = x

  finish-Consistent :
      (n : ℕ) (s : Started F) (out : Outcome F) (c o : Option String) (r : Run F)
      → Consistent (suc n) r
      → Consistent n (finish_operation s out c o r)
  unfolding finish_operation
  finish-Consistent n s out c o r x =
      let y = emit_event-Consistent n _ _ (add_operation-Consistent n _ r refl x) in
      record {
        events_numbered = y.events_numbered;
        operations_numbered = y.operations_numbered;
        errors_numbered = y.errors_numbered;
        exchanges_numbered = y.exchanges_numbered;
        errors_counted = y.errors_counted;
        operations_counted = y.operations_counted;
      }

  protocol-Consistent :
      (n : ℕ) (direction kind sent : String) (alias : Option String) (r : Run F)
      → Consistent n r
      → Consistent n (or_else (log_protocol direction kind sent alias r) r)
  unfolding log_protocol
  protocol-Consistent n direction kind sent alias r x =
      let b =
        same_key (codes direction) (codes "outbound")
        || same_key (codes direction) (codes "inbound") in
      elim (Bool-cases b) [ inl e ↦ rw e (add_exchange-Consistent n _ r refl x) | inr e ↦ rw e x ]

  identity-Consistent :
      (n : ℕ) (alias : String) (transport : Option String) (fields : Fields F) (r : Run F)
      → Consistent n r
      → Consistent n (record_device_identity alias transport fields r)
  unfolding record_device_identity
  identity-Consistent n alias transport fields r x = record {
    events_numbered = x.events_numbered;
    operations_numbered = x.operations_numbered;
    errors_numbered = x.errors_numbered;
    exchanges_numbered = x.exchanges_numbered;
    errors_counted = x.errors_counted;
    operations_counted = x.operations_counted;
  }

  mutual
    unfolding perform record_operation

    pub perform-Consistent :
        (n : ℕ) (c : Call F) (r : Run F) → Consistent n r → Consistent n (perform c r)
    perform-Consistent n (event c) r x = emit_event-Consistent n c r x
    perform-Consistent n (failure e c b) r x = record_error-Consistent n e c b r x
    perform-Consistent n (operation fresh name alias args body out) r x =
        finish-Consistent n _ out _ _ _ (
          handle-Consistent (suc n) _ out _
            (perform_all-Consistent (suc n) body _ (start-Consistent n fresh name alias args r x)))
    perform-Consistent n (protocol direction kind sent alias) r x =
        protocol-Consistent n direction kind sent alias r x
    perform-Consistent n (identity alias transport fields) r x =
        identity-Consistent n alias transport fields r x

    perform_all-Consistent :
        (n : ℕ) (cs : Calls F) (r : Run F) → Consistent n r → Consistent n (perform_all cs r)
    perform_all-Consistent n stop r x = x
    perform_all-Consistent n (next c cs) r x =
        perform_all-Consistent n cs (perform c r) (perform-Consistent n c r x)

  new_run-Consistent : (id mode : String) → Consistent 0 (new_run {F = F} id mode)
  unfolding new_run up_to find
  new_run-Consistent id mode = emit_event-Consistent 0 _ _ (record {
    events_numbered = refl;
    operations_numbered = refl;
    errors_numbered = refl;
    exchanges_numbered = refl;
    errors_counted = refl;
    operations_counted = refl;
  })

  -- So after any calls of a new run.
  pub calls-Consistent :
      (id mode : String) (cs : Calls F) → Consistent 0 (perform_all cs (new_run id mode))
  calls-Consistent id mode cs =
      perform_all-Consistent 0 cs (new_run id mode) (new_run-Consistent id mode)

  either-Consistent :
      (n : ℕ) (b : Bool) (r r' : Run F)
      → Consistent n r
      → Consistent n r'
      → Consistent n (if b then r else r')
  either-Consistent n true r r' x y = x
  either-Consistent n false r r' x y = y

  pub finalize-Consistent :
      (n : ℕ) (status : String) (r : Run F) → Consistent n r → Consistent n (finalize status r)
  unfolding finalize
  finalize-Consistent n status r x =
      let y = emit_event-Consistent n (run_event "RUN_FINISHING") r x in
      either-Consistent n r.finalized r _ x (record {
        events_numbered = y.events_numbered;
        operations_numbered = y.operations_numbered;
        errors_numbered = y.errors_numbered;
        exchanges_numbered = y.exchanges_numbered;
        errors_counted = y.errors_counted;
        operations_counted = y.operations_counted;
      })
