-- ===== src/Evidence/Run/Numbering.antt =====
-- The records of each file of a run are numbered without a gap, whatever the order of the calls.
use hp34401a_driver.Base.{
  ℕ, zero, suc, ◌+◌, Bool, false, Option, List, [], ◌∷◌, ◌++◌, map, ◌≡◌, refl, sym, ap, ◌∙◌, arith,
  or_else,
}
use hp34401a_driver.Base.Dict.{Key, same_key, put, find-put, find-put_other}
use hp34401a_driver.Evidence.Records.{
  Exc, EventCall, Subject, Event, Operation, ErrorEntry, Exchange, Run, count_of, events_stream,
  operations_stream, errors_stream, exchanges_stream,
}
use hp34401a_driver.Evidence.Run.{emit_event, record_error, next_number}

-- 1, 2, and so on up to `n`.
unfoldable pub up_to : ℕ → List ℕ
up_to zero = []
up_to (suc n) = up_to n ++ suc n ∷ []

map_snoc :
    {A B : Type 0} (f : A → B) (xs : List A) (x : A) → map f (xs ++ x ∷ []) ≡ map f xs ++ f x ∷ []
map_snoc f [] x = refl
map_snoc f (y ∷ ys) x = ap (λ zs. f y ∷ zs) (map_snoc f ys x)

-- The numbers of a file whose stream stands where the dict says.
abbrev pub Numbers : Key → List ℕ → List (Key × ℕ) → Type 0
Numbers stream ns d = ns ≡ up_to (count_of stream d)

count-put : (stream : Key) (n : ℕ) (d : List (Key × ℕ)) → count_of stream (put stream n d) ≡ n
count-put stream n d = ap (λ o. or_else o 0) (find-put stream n d)

count-put_other :
    (stream other : Key) (n : ℕ) (d : List (Key × ℕ))
    → same_key other stream ≡ false
    → count_of other (put stream n d) ≡ count_of other d
count-put_other stream other n d h = ap (λ o. or_else o 0) (find-put_other stream other n d h)

-- A record of another file changes nothing.
stays :
    (stream other : Key) (n : ℕ) (ns : List ℕ) (d : List (Key × ℕ))
    → same_key other stream ≡ false
    → Numbers other ns d
    → Numbers other ns (put stream n d)
stays stream other n ns d h x = x ∙ ap up_to (sym (count-put_other stream other n d h))

-- One more record of the file, with the next number.
grows :
    {A : Type 0} (stream : Key) (f : A → ℕ) (xs : List A) (x : A) (d : List (Key × ℕ))
    → Numbers stream (map f xs) d
    → f x ≡ suc (count_of stream d)
    → Numbers stream (map f (xs ++ x ∷ [])) (put stream (suc (count_of stream d)) d)
unfolding up_to
grows stream f xs x d h e =
    map_snoc f xs x ∙ rw (h, e, count-put stream (suc (count_of stream d)) d) refl

module _ {F : Type 0} where
  abbrev event_numbers : Run F → List ℕ
  event_numbers r = map (λ (e : Event F). e.event_number) r.events

  abbrev operation_numbers : Run F → List ℕ
  operation_numbers r = map (λ (o : Operation F). o.operation_number) r.operations

  abbrev error_numbers : Run F → List ℕ
  error_numbers r = map (λ (e : ErrorEntry F). e.error_number) r.errors

  abbrev exchange_numbers : Run F → List ℕ
  exchange_numbers r = map (λ (x : Exchange F). x.exchange_number) r.exchanges

  -- Each file's records are numbered from 1 on; every error has its record; of the operations that
  -- were started, `running` have none yet.
  pub record Consistent (running : ℕ) (r : Run F) : Type 0 where
    pub events_numbered : Numbers events_stream (event_numbers r) r.sequence
    pub operations_numbered : Numbers operations_stream (operation_numbers r) r.sequence
    pub errors_numbered : Numbers errors_stream (error_numbers r) r.sequence
    pub exchanges_numbered : Numbers exchanges_stream (exchange_numbers r) r.sequence
    pub errors_counted : r.error_count ≡ count_of errors_stream r.sequence
    pub operations_counted : r.operation_counter ≡ count_of operations_stream r.sequence + running

  pub emit_event-Consistent :
      (n : ℕ) (c : EventCall F) (r : Run F) → Consistent n r → Consistent n (emit_event c r)
  unfolding emit_event
  emit_event-Consistent n c r x =
      let d = r.sequence in
      let m = next_number events_stream r in
      let k = events_stream in
      record {
        events_numbered =
            grows k (λ (e : Event F). e.event_number) r.events _ d x.events_numbered refl;
        operations_numbered =
            stays k operations_stream m (operation_numbers r) d refl x.operations_numbered;
        errors_numbered = stays k errors_stream m (error_numbers r) d refl x.errors_numbered;
        exchanges_numbered =
            stays k exchanges_stream m (exchange_numbers r) d refl x.exchanges_numbered;
        errors_counted = x.errors_counted ∙ sym (count-put_other k errors_stream m d refl);
        operations_counted =
            omega (arith, x.operations_counted, count-put_other k operations_stream m d refl);
      }

  pub record_error-Consistent :
      (n : ℕ) (e : Exc F) (c : Subject) (b : Option Bool) (r : Run F)
      → Consistent n r
      → Consistent n (record_error e c b r)
  unfolding record_error
  record_error-Consistent n e c b r x =
      let d = r.sequence in
      let m = next_number errors_stream r in
      let k = errors_stream in
      record {
        events_numbered = stays k events_stream m (event_numbers r) d refl x.events_numbered;
        operations_numbered =
            stays k operations_stream m (operation_numbers r) d refl x.operations_numbered;
        errors_numbered =
            grows k (λ (e : ErrorEntry F). e.error_number) r.errors _ d x.errors_numbered refl;
        exchanges_numbered =
            stays k exchanges_stream m (exchange_numbers r) d refl x.exchanges_numbered;
        errors_counted = omega (arith, x.errors_counted, count-put k m d);
        operations_counted =
            omega (arith, x.operations_counted, count-put_other k operations_stream m d refl);
      }

  -- The record of an operation, before the last event.
  pub add_operation-Consistent :
      (n : ℕ) (o : Operation F) (r : Run F)
      → o.operation_number ≡ next_number operations_stream r
      → Consistent (suc n) r
      → Consistent n (record r {
        sequence = put operations_stream (next_number operations_stream r) r.sequence;
        operations = r.operations ++ o ∷ [];
      })
  add_operation-Consistent n o r e x =
      let d = r.sequence in
      let m = next_number operations_stream r in
      let k = operations_stream in
      record {
        events_numbered = stays k events_stream m (event_numbers r) d refl x.events_numbered;
        operations_numbered =
            grows k (λ (o : Operation F). o.operation_number) r.operations o d x.operations_numbered
              e;
        errors_numbered = stays k errors_stream m (error_numbers r) d refl x.errors_numbered;
        exchanges_numbered =
            stays k exchanges_stream m (exchange_numbers r) d refl x.exchanges_numbered;
        errors_counted = x.errors_counted ∙ sym (count-put_other k errors_stream m d refl);
        operations_counted = omega (arith, x.operations_counted, count-put k m d);
      }

  pub add_exchange-Consistent :
      (n : ℕ) (y : Exchange F) (r : Run F)
      → y.exchange_number ≡ next_number exchanges_stream r
      → Consistent n r
      → Consistent n (record r {
        sequence = put exchanges_stream (next_number exchanges_stream r) r.sequence;
        exchanges = r.exchanges ++ y ∷ [];
      })
  add_exchange-Consistent n y r e x =
      let d = r.sequence in
      let m = next_number exchanges_stream r in
      let k = exchanges_stream in
      record {
        events_numbered = stays k events_stream m (event_numbers r) d refl x.events_numbered;
        operations_numbered =
            stays k operations_stream m (operation_numbers r) d refl x.operations_numbered;
        errors_numbered = stays k errors_stream m (error_numbers r) d refl x.errors_numbered;
        exchanges_numbered =
            grows k (λ (y : Exchange F). y.exchange_number) r.exchanges y d x.exchanges_numbered e;
        errors_counted = x.errors_counted ∙ sym (count-put_other k errors_stream m d refl);
        operations_counted =
            omega (arith, x.operations_counted, count-put_other k operations_stream m d refl);
      }
