-- ===== src/Evidence/Run/Trail.antt =====
-- What the end of an operation, and the end of a run, add to the events.
use hp34401a_driver.Base.{
  Bool, true, false, Option, String, [], ◌∷◌, ◌++◌, ◌≡◌, refl, ap, ◌∙◌, if◌then◌else◌,
}
use hp34401a_driver.Evidence.Json.{Fields}
use hp34401a_driver.Evidence.Records.{Event, Outcome, done, raised, interrupted, Started, Run}
use hp34401a_driver.Evidence.Run.{
  emit_event, record_error, start_operation, handle, finish_operation, finalize,
}

module _ {F : Type 0} where
  pub start-open :
      (fresh name : String) (alias : Option String) (args : Fields F) (r : Run F)
      → (start_operation fresh name alias args r).1.finalized ≡ r.finalized
  unfolding start_operation emit_event
  start-open fresh name alias args r = refl

  handle-events : (s : Started F) (out : Outcome F) (r : Run F) → (handle s out r).events ≡ r.events
  unfolding handle record_error
  handle-events s (done v) r = refl
  handle-events s (raised e) r = refl
  handle-events s (interrupted v) r = refl

  handle-finalized :
      (s : Started F) (out : Outcome F) (r : Run F) → (handle s out r).finalized ≡ r.finalized
  unfolding handle record_error
  handle-finalized s (done v) r = refl
  handle-finalized s (raised e) r = refl
  handle-finalized s (interrupted v) r = refl

  finish-events :
      (s : Started F) (out : Outcome F) (c o : Option String) (r : Run F)
      → (x : Event F) × ((finish_operation s out c o r).events ≡ r.events ++ x ∷ [])
        × ((finish_operation s out c o r).finalized ≡ r.finalized)
  unfolding finish_operation emit_event
  finish-events s out c o r = (_, refl, refl)

  -- The end of an operation is one more event, also behind the end of the run.
  pub end-events :
      (s : Started F) (out : Outcome F) (c o : Option String) (r : Run F)
      → (x : Event F) × ((finish_operation s out c o (handle s out r)).events ≡ r.events ++ x ∷ [])
        × ((finish_operation s out c o (handle s out r)).finalized ≡ r.finalized)
  end-events s out c o r =
      let (x, e, f) = finish-events s out c o (handle s out r) in
      (x, e ∙ ap (λ es. es ++ x ∷ []) (handle-events s out r), f ∙ handle-finalized s out r)

  -- What `finalize` makes of a run that is open.
  either :
      (b : Bool) (r told : Run F)
      → b ≡ false
      → told.finalized ≡ true
      → ((if b then r else told).events ≡ told.events) × ((if b then r else told).finalized ≡ true)
  either b r told h t = rw h (refl, t)

  pub finalize-events :
      (status : String) (r : Run F)
      → r.finalized ≡ false
      → (x : Event F) × ((finalize status r).events ≡ r.events ++ x ∷ [])
        × ((finalize status r).finalized ≡ true)
  unfolding finalize emit_event
  finalize-events status r h = let (a, b) = either r.finalized r _ h refl in (_, a, b)
