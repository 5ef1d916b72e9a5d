-- ===== src/Transport/Fake.antt =====
-- FakeTransport of hp34401a_dmm/transports.py: the transport of simulated instruments. The scripted
-- instrument behind it is that of scpi_driver_core, which is not in this repository: the parameter
-- `Scripted`. The lock makes each method atomic, so a method is one function of the state.
pub mod History
pub mod Contract
use text.Mathlib.Text.{◌==◌ as str_eq}
use hp34401a_driver.Base.{
  ℕ, suc, String, Bool, true, false, ◌||◌, List, [], ◌∷◌, ◌++◌, any, map, if◌then◌else◌,
}
use hp34401a_driver.Base.Text.{strip, lower}
use hp34401a_driver.Base.Dict.{same_key}
use hp34401a_driver.Enums.{fake}
use hp34401a_driver.Errors.{Result, ok, err, timeout, protocol, other}
use hp34401a_driver.Transport.{Transport}
use hp34401a_driver.Transport.BaseTransport.{Outcome, returned, raised}

-- What a command was registered to answer: a text, or one of the two callables.
pub data Reply : Type 0 where
  canned : String → Reply
  idn_reply pop_error_queue : Reply

-- A call of a registered reply reads or changes the error queue.
abbrev pub Handler : Type 0
Handler = Reply → List String → String × List String

-- ScriptedScpiTransport with its ScpiClient; `W` is its state, with the time behind it. A write or
-- a query may call the reply that is registered for the command.
pub record Scripted (F : Type 0) : Type 1 where
  pub W : Type 0
  -- `ScriptedScpiTransport(…)`, with the calls of `on` in their order
  pub build : List (String × Reply) → W → W
  pub open_core : W → Outcome (Unit {0}) × W
  pub close_core : W → Outcome (Unit {0}) × W
  pub client_write : Handler → String → W → List String → Outcome (Unit {0}) × W × List String
  pub client_query : Handler → String → W → List String → Outcome String × W × List String
  pub pause : F → W → W
  pub clock : W → F

-- `command in names`
unfoldable pub one_of : String → List String → Bool
one_of c names = any (str_eq c) names

-- `command.strip().casefold()`; letters are ASCII
abbrev folded : String → List ℕ
folded command = lower (strip command)

-- `_pop_error_queue`
unfoldable pub popped : List String → String × List String
popped [] = ("+0,\"No error\"", [])
popped (e ∷ queue) = (e, queue)

-- The callables that `_build_core_transport` registers.
abbrev pub reply : String → Handler
reply idn (canned text) queue = (text, queue)
reply idn idn_reply queue = (idn, queue)
reply idn pop_error_queue queue = popped queue

-- What `_build_core_transport` registers, in its order.
abbrev registered : List (String × String) → List (String × Reply)
registered responses =
    map (λ ((command, text) : String × String). (command, canned text)) responses
    ++ ("*IDN?", idn_reply) ∷ ("SYSTem:ERRor?", pop_error_queue) ∷ []

-- `_is_known_query`
unfoldable pub is_known_query : List (String × String) → String → Bool
is_known_query responses command =
    same_key (folded command) (lower "*idn?")
    || same_key (folded command) (lower "system:error?")
    || any (λ ((cmd, text) : String × String). same_key (folded command) (folded cmd)) responses

module _ {F : Type 0} (core : Scripted F) where
  open core use {W, build, open_core, close_core, client_write, client_query, pause, clock}

  -- `has_core`: `_core` and `_client` are not None
  pub record Fake : Type 0 where
    pub responses : List (String × String)
    pub default_response : String
    pub error_queue : List String
    pub idn : String
    pub history : List String
    pub write_history : List String
    pub query_history : List String
    pub response_history : List (String × String)
    pub clear_count : ℕ
    pub raw_writes : List String
    pub timeout_on : List String
    pub has_unread_output : Bool
    pub is_opened : Bool
    pub has_core : Bool
    pub world : W

  -- `FakeTransport.__init__`
  abbrev pub initial : List (String × String) → String → List String → String → W → Fake
  initial responses default_response error_queue idn w = record {
    responses = responses;
    default_response = default_response;
    error_queue = error_queue;
    idn = idn;
    history = [];
    write_history = [];
    query_history = [];
    response_history = [];
    clear_count = 0;
    raw_writes = [];
    timeout_on = [];
    has_unread_output = false;
    is_opened = false;
    has_core = false;
    world = w;
  }

  -- A call of the client. Its exceptions are not converted; with no client it is an AttributeError.
  abbrev call :
      {A : Type 0} → (W → List String → Outcome A × W × List String) → Fake → Result A × Fake
  call action s =
      if s.has_core
      then (let (r, w, queue) = action s.world s.error_queue in
          elim r [
            | returned a ↦ (ok a, record s { world = w; error_queue = queue })
            | raised e ↦ (err other, record s { world = w; error_queue = queue })
          ])
      else (err other, s)

  unfoldable pub write : String → Fake → Result (Unit {0}) × Fake
  unfolding one_of
  write command s =
      let heard : Fake = record s {
        history = s.history ++ command ∷ [];
        write_history = s.write_history ++ command ∷ [];
      } in
      if s.has_unread_output
      then (err protocol, s)
      else if one_of command s.timeout_on
      then (err timeout, heard)
      else call (client_write (reply s.idn) command) heard

  -- `response_history.append((command, response))`
  abbrev responded : String → Result String → Fake → Result String × Fake
  responded command (ok response) s =
      (ok response, record s { response_history = s.response_history ++ (command, response) ∷ [] })
  responded command (err e) s = (err e, s)

  unfoldable pub query : String → Fake → Result String × Fake
  unfolding one_of is_known_query
  query command s =
      let heard : Fake = record s {
        history = s.history ++ command ∷ [];
        query_history = s.query_history ++ command ∷ [];
      } in
      let asked : Result String × Fake = call (client_query (reply s.idn) command) heard in
      if s.has_unread_output
      then (err protocol, s)
      else if one_of command s.timeout_on
      then (err timeout, record heard { has_unread_output = true })
      else if is_known_query s.responses command
      then responded command asked.0 asked.1
      else responded command (ok s.default_response) heard

  abbrev read_raw : Fake → Result String × Fake
  read_raw s = (ok s.default_response, record s { has_unread_output = false })

  abbrev write_raw : String → Fake → Result (Unit {0}) × Fake
  write_raw text s = (ok tt, record s { raw_writes = s.raw_writes ++ text ∷ [] })

  abbrev pub clear : Fake → Result (Unit {0}) × Fake
  clear s = (ok tt, record s { clear_count = suc s.clear_count; has_unread_output = false })

  -- `open`; the core is kept once it is open.
  unfoldable pub open_fake : Fake → Result (Unit {0}) × Fake
  open_fake s =
      let (r, w) = open_core (build (registered s.responses) s.world) in
      elim r [
        | raised e ↦ (err other, record s { world = w })
        | returned _ ↦ (ok tt, record s { world = w; has_core = true; is_opened = true })
      ]

  -- An exception of `core.close` leaves the rest undone.
  unfoldable pub close : Fake → Result (Unit {0}) × Fake
  close s =
      if s.has_core
      then (let (r, w) = close_core s.world in
          elim r [
            | returned _ ↦
                (ok tt, record s { world = w; is_opened = false; has_unread_output = false })
            | raised e ↦ (err other, record s { world = w })
          ])
      else (ok tt, record s { is_opened = false; has_unread_output = false })

  -- The transport for the driver, which asks it for the options that it does not have.
  abbrev pub fake_transport : Transport F
  fake_transport = record {
    S = Fake;
    transport_type = fake;
    recover_on_connect = false;
    clear_on_connect = false;
    send_local_on_close = false;
    open_t = open_fake;
    close_t = close;
    is_open = λ s. s.is_opened;
    write = write;
    query = query;
    read_raw = read_raw;
    write_raw = write_raw;
    clear = clear;
    set_timeout = λ x s. s;
    sleep = λ x s. record s { world = pause x s.world };
    monotonic = λ s. clock s.world;
  }
