-- ===== src/Driver/Bus/Flow.antt =====
-- What a BUS measurement leaves behind, and what the guard of `read_query` makes of it.
use mathlib.Core.Path.{subst}
use Prim.Native.String.{◌++◌ as append}
use hp34401a_driver.Base.{if◌then◌else◌, ◌≡◌, refl, sym, ◌∙◌, ap, arith}
use hp34401a_driver.Float.{Float}
use hp34401a_driver.Enums.{bus, trigger_source_value, is_bus, connected_remote, waiting_for_trigger}
use hp34401a_driver.Errors.{Result, ok, err, protocol}
use hp34401a_driver.Measurement.{MeasurementReading}
use hp34401a_driver.Transport.{Transport}
use hp34401a_driver.Driver.{Driver, M, pure, lift, modify, ◌>>=◌, ◌>>◌, set_state, is_serial}
use hp34401a_driver.Driver.Frame.{book, KeepsBook, KeepsBook-then}
use hp34401a_driver.Driver.Raw.{write, query}
use hp34401a_driver.Driver.Raw.Memory.{write-book, query-book}
use hp34401a_driver.Driver.Read.{ready, do_read}
use hp34401a_driver.Driver.Read.Book.{do_read-book}
use hp34401a_driver.Driver.Bus.{
  set_trigger_source, initiate, trigger_bus, fetch, first_reading, bus_pause, read_once_bus,
  read_query,
}

module _ {fl : Float} {T : Transport fl.F} where
  open fl use {F}

  initiate-book : KeepsBook (initiate {fl = fl} {T = T})
  unfolding initiate
  initiate-book =
      let last : M fl T (Unit {0}) = set_state waiting_for_trigger in
      KeepsBook-then (write "DATA:FEED RDG_STORE,\"CALC\"") (write "INITiate" >> last)
        (write-book "DATA:FEED RDG_STORE,\"CALC\"")
        (KeepsBook-then (write "INITiate") last (write-book "INITiate") (λ d. refl))

  trigger_bus-book : KeepsBook (trigger_bus {fl = fl} {T = T})
  unfolding trigger_bus
  trigger_bus-book d = ground (arith, write-book "*TRG" d)

  fetch-book : KeepsBook (fetch {fl = fl} {T = T})
  unfolding fetch
  fetch-book d = ground (arith, query-book "FETCh?" d)

  -- The readings that `fetch` returned, up to the one that `read_once_bus` returns.
  last_steps : M fl T (MeasurementReading F)
  last_steps = do
    readings ← fetch
    reading ← lift (first_reading readings)
    set_state connected_remote
    pure reading

  last_steps-book : KeepsBook last_steps
  unfolding last_steps
  last_steps-book d = ground (arith, fetch-book d)

  -- What follows the choice of the BUS source.
  wait_and_fetch : M fl T (MeasurementReading F)
  unfolding last_steps
  wait_and_fetch = do
    write "TRIGger:COUNt 1"
    write "SAMPle:COUNt 1"
    initiate
    modify (λ d. record d { t = T.sleep (bus_pause fl (is_serial fl T)) d.t })
    trigger_bus
    last_steps

  wait_and_fetch-book : KeepsBook wait_and_fetch
  unfolding wait_and_fetch
  wait_and_fetch-book =
      let triggered : M fl T (MeasurementReading F) = trigger_bus >> last_steps in
      let paused : M fl T (MeasurementReading F) =
        modify (λ d. record d { t = T.sleep (bus_pause fl (is_serial fl T)) d.t }) >> triggered in
      let armed : M fl T (MeasurementReading F) = initiate >> paused in
      let sampled : M fl T (MeasurementReading F) = write "SAMPle:COUNt 1" >> armed in
      KeepsBook-then (write "TRIGger:COUNt 1") sampled (write-book "TRIGger:COUNt 1") (
        KeepsBook-then (write "SAMPle:COUNt 1") armed (write-book "SAMPle:COUNt 1") (
          KeepsBook-then initiate paused initiate-book (
            KeepsBook-then
              (modify (λ d. record d { t = T.sleep (bus_pause fl (is_serial fl T)) d.t })) triggered
              (λ d. refl)
              (KeepsBook-then trigger_bus last_steps trigger_bus-book last_steps-book))))

  -- A `READ?` measurement sets the instrument's source to IMMediate by a bare `write`, and leaves
  -- what the driver remembers as the source: after it, `read_query` is still refused.
  read_query_after_do_read :
      (d : Driver fl T)
      → d.trigger_source ≡ bus
      → read_query (do_read d).1 ≡ (err protocol, (do_read d).1)
  unfolding read_query
  read_query_after_do_read d h =
      let same : bus ≡ (do_read d).1.trigger_source =
        sym h ∙ ap (λ b. b.trigger_source) (do_read-book d) in
      ap (λ s. if is_bus s then (err protocol, (do_read d).1) else query "READ?" (do_read d).1)
        (sym same)

  abbrev LeavesBus : {A : Type 0} → Result A × Driver fl T → Type 0
  LeavesBus (ok a, d) = d.trigger_source ≡ bus
  LeavesBus (err e, d) = Unit

  same_source :
      {A : Type 0} (p : Result A × Driver fl T) (d : Driver fl T)
      → book d ≡ book p.1
      → d.trigger_source ≡ bus
      → LeavesBus p
  same_source (ok a, d') d same h = sym (ap (λ b. b.trigger_source) same) ∙ h
  same_source (err e, d') d same h = tt

  after_source :
      {A : Type 0} (p : Result (Unit {0}) × Driver fl T) (m : M fl T A) (d : Driver fl T)
      → LeavesBus p
      → KeepsBook m
      → LeavesBus (((λ _. p) >> m) d)
  after_source (ok _, d') m d h k = same_source (m d') d' (k d') h
  after_source (err e, d') m d h k = tt

  remembered_after :
      (p : Result (Unit {0}) × Driver fl T) (d : Driver fl T)
      → LeavesBus (((λ _. p) >> modify (λ d'. record d' { trigger_source = bus })) d)
  remembered_after (ok _, d') d = refl
  remembered_after (err e, d') d = tt

  set_trigger_source-LeavesBus : (d : Driver fl T) → LeavesBus (set_trigger_source bus d)
  unfolding set_trigger_source
  set_trigger_source-LeavesBus d =
      remembered_after (write (append "TRIGger:SOURce " (trigger_source_value bus)) d) d

  after_ready :
      (r : Result (Unit {0})) (d : Driver fl T)
      → LeavesBus (((λ _. (r, d)) >> (set_trigger_source bus >> wait_and_fetch)) d)
  after_ready (ok _) d =
      after_source (set_trigger_source bus d) wait_and_fetch d (set_trigger_source-LeavesBus d)
        wait_and_fetch-book
  after_ready (err e) d = tt

  read_once_bus-LeavesBus : (d : Driver fl T) → LeavesBus (read_once_bus d)
  unfolding read_once_bus wait_and_fetch last_steps
  read_once_bus-LeavesBus d = after_ready (ready d) d

  -- After a BUS measurement that returned, `read_query` is refused, and it still is after the
  -- commands of a `READ?` measurement, though these set the instrument's source to IMMediate by a
  -- bare `write`: what the driver remembers as the source is still BUS.
  pub read_query-after-read_once_bus :
      (d : Driver fl T) (r : MeasurementReading F)
      → (read_once_bus d).0 ≡ ok r
      → let after = (read_once_bus d).1 in
        (read_query after ≡ (err protocol, after))
        × (read_query (do_read after).1 ≡ (err protocol, (do_read after).1))
  unfolding read_query
  read_query-after-read_once_bus d r h =
      let after = (read_once_bus d).1 in
      let left : after.trigger_source ≡ bus =
        subst (λ x. LeavesBus (x, after)) h (read_once_bus-LeavesBus d) in
      (
        ap (λ s. if is_bus s then (err protocol, after) else query "READ?" after) left,
        read_query_after_do_read after left,
      )
