-- ===== src/Evidence/Run/Mode.antt =====
-- The execution mode of a run.
use hp34401a_driver.Base.{
  String, Bool, true, false, Option, some, ◌≡◌, refl, ◌∙◌, ◌||◌, arith, inl, inr, Bool-cases,
  or_else,
}
use hp34401a_driver.Base.Text.{codes}
use hp34401a_driver.Base.Dict.{Key, same_key, same_key-eq}
use hp34401a_driver.Evidence.Json.{Fields}
use hp34401a_driver.Evidence.Records.{Outcome, done, raised, interrupted, Started, Run, Summary}
use hp34401a_driver.Evidence.Run.{
  emit_event, record_error, start_operation, handle, finish_operation, record_operation,
  log_protocol, record_device_identity, mode_after, transport_key, finalize, new_run,
}
use hp34401a_driver.Evidence.Run.Calls.{
  Call, event, failure, operation, protocol, identity, Calls, stop, next, perform, perform_all,
}
use hp34401a_driver.Evidence.Run.FailClosed.{perform_all-Adds, finalize_open}

-- A device whose transport is a simulation is recorded in these calls.
unfoldable mutual
  simulates : {F : Type 0} → Call F → Bool
  simulates (identity alias transport fields) =
      same_key (transport_key transport) (codes "simulation")
  simulates (operation fresh name alias args body out) = any_simulates body
  simulates _ = false

  pub any_simulates : {F : Type 0} → Calls F → Bool
  any_simulates stop = false
  any_simulates (next c cs) = simulates c || any_simulates cs

-- Once simulated, a run stays so.
mode_after_simulation : (t : Key) → mode_after t (codes "SIMULATION") ≡ codes "SIMULATION"
unfolding mode_after
mode_after_simulation t = ground arith

module _ {F : Type 0} where
  handle-mode :
      (s : Started F) (out : Outcome F) (r : Run F)
      → (handle s out r).execution_mode ≡ r.execution_mode
  unfolding handle record_error
  handle-mode s (done v) r = refl
  handle-mode s (raised e) r = refl
  handle-mode s (interrupted v) r = refl

  protocol-mode :
      (direction kind sent : String) (alias : Option String) (r : Run F)
      → (or_else (log_protocol direction kind sent alias r) r).execution_mode ≡ r.execution_mode
  unfolding log_protocol
  protocol-mode direction kind sent alias r = ground arith

  -- An operation leaves the mode as its body does.
  operation-mode :
      (fresh name : String) (alias : Option String) (args : Fields F) (body : Calls F)
      (out : Outcome F) (r : Run F)
      → (perform (operation fresh name alias args body out) r).execution_mode
        ≡ (perform_all body (start_operation fresh name alias args r).1).execution_mode
  unfolding perform record_operation finish_operation emit_event
  operation-mode fresh name alias args body out r =
      handle-mode (start_operation fresh name alias args r).0 out
        (perform_all body (start_operation fresh name alias args r).1)

  start-mode :
      (fresh name : String) (alias : Option String) (args : Fields F) (r : Run F)
      → (start_operation fresh name alias args r).1.execution_mode ≡ r.execution_mode
  unfolding start_operation emit_event
  start-mode fresh name alias args r = refl

  abbrev IsSimulated : Run F → Type 0
  IsSimulated r = r.execution_mode ≡ codes "SIMULATION"

  mutual
    unfolding perform emit_event record_error record_device_identity

    perform_stays : (c : Call F) (r : Run F) → IsSimulated r → IsSimulated (perform c r)
    perform_stays (event c) r h = h
    perform_stays (failure e c b) r h = h
    perform_stays (operation fresh name alias args body out) r h =
        operation-mode fresh name alias args body out r
        ∙ perform_all_stays body (start_operation fresh name alias args r).1
            (start-mode fresh name alias args r ∙ h)
    perform_stays (protocol direction kind sent alias) r h =
        protocol-mode direction kind sent alias r ∙ h
    perform_stays (identity alias transport fields) r h =
        rw h (mode_after_simulation (transport_key transport))

    perform_all_stays : (cs : Calls F) (r : Run F) → IsSimulated r → IsSimulated (perform_all cs r)
    perform_all_stays stop r h = h
    perform_all_stays (next c cs) r h = perform_all_stays cs (perform c r) (perform_stays c r h)

  mutual
    unfolding perform simulates record_device_identity mode_after

    perform-IsSimulated : (c : Call F) (r : Run F) → simulates c ≡ true → IsSimulated (perform c r)
    perform-IsSimulated (event c) r h = ground (arith, h)
    perform-IsSimulated (failure e c b) r h = ground (arith, h)
    perform-IsSimulated (operation fresh name alias args body out) r h =
        operation-mode fresh name alias args body out r
        ∙ perform_all-IsSimulated body (start_operation fresh name alias args r).1 h
    perform-IsSimulated (protocol direction kind sent alias) r h = ground (arith, h)
    perform-IsSimulated (identity alias transport fields) r h =
        rw (same_key-eq (transport_key transport) (codes "simulation") h) refl

    perform_all-IsSimulated :
        (cs : Calls F) (r : Run F) → any_simulates cs ≡ true → IsSimulated (perform_all cs r)
    perform_all-IsSimulated stop r h = ground (arith, h)
    perform_all-IsSimulated (next c cs) r h = elim (Bool-cases (simulates c)) [
      | inl e ↦ perform_all_stays cs (perform c r) (perform-IsSimulated c r e)
      | inr e ↦ perform_all-IsSimulated cs (perform c r) (ground (arith, h, e))
    ]

  -- A run in which any device was simulated is summarised as SIMULATION, whatever other devices
  -- were recorded before or after, and at whatever depth of operations.
  pub finalize-simulated :
      (id mode status : String) (cs : Calls F)
      → any_simulates cs ≡ true
      → (x : Summary F) × ((finalize status (perform_all cs (new_run id mode))).summary ≡ some x)
        × (x.summary_mode ≡ codes "SIMULATION")
  unfolding new_run emit_event
  finalize-simulated id mode status cs h =
      let start = new_run id mode in
      let adds = perform_all-Adds cs start in
      let (x, made, a, b, c, is_mode) =
        finalize_open status (perform_all cs start) adds.keeps_open in
      (x, made, is_mode ∙ perform_all-IsSimulated cs start h)
