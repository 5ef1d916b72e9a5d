-- ===== src/Transport/BaseTransport.antt =====
-- BaseTransport of hp34401a_dmm/transports.py. The byte transport and the SCPI client are those
-- of scpi_driver_core, which is not in this repository: they are the parameter `Core`. The lock
-- makes each method atomic, so a method is one function of the state.
pub mod Stale
use hp34401a_driver.Base.{String, Bool, true, false, if◌then◌else◌}
use hp34401a_driver.Enums.{TransportType}
use hp34401a_driver.Errors.{Error, timeout, transport, connection, protocol, other, Result, ok, err}
use hp34401a_driver.Transport.{Transport}

-- The exceptions of scpi_driver_core.exceptions that `_call` and `_map_open_error` tell apart. A
-- NotConnectedError that is a TransportError too counts as `core_transport`.
pub data CoreError : Type 0 where
  core_timeout core_not_connected core_transport core_configuration core_other : CoreError

pub data Outcome (A : Type 0) : Type 0 where
  returned : A → Outcome A
  raised : CoreError → Outcome A

-- A byte transport with its ScpiClient; `W` is the line and the instrument at its end.
pub record Core (F : Type 0) : Type 1 where
  pub W : Type 0
  -- the three steps of `open`: `_build_core_transport`, `core.open`, `ScpiClient`
  pub build : W → Outcome (Unit {0}) × W
  pub open_core : W → Outcome (Unit {0}) × W
  pub new_client : W → Outcome (Unit {0}) × W
  pub close_core : W → Outcome (Unit {0}) × W
  pub client_write : String → F → W → Outcome (Unit {0}) × W
  pub client_query : String → F → W → Outcome String × W
  -- `core.read` with the client's response request, before decoding
  pub read : F → W → Outcome String × W
  pub decode_response : String → Outcome String
  -- `core.write(data.encode(…))`
  pub write_bytes : String → F → W → Outcome (Unit {0}) × W
  -- `_do_clear`: a flush, or what a subclass puts in its place
  pub do_clear : F → W → Outcome (Unit {0}) × W
  pub pause : F → W → W
  pub clock : W → F

-- `_call`: the exceptions of the core become those of the driver
abbrev call_error : CoreError → Error
call_error core_timeout = timeout
call_error core_not_connected = transport
call_error core_transport = transport
call_error core_configuration = other
call_error core_other = other

-- `_map_open_error`
abbrev map_open_error : CoreError → Error
map_open_error core_timeout = timeout
map_open_error core_transport = connection
map_open_error core_configuration = connection
map_open_error core_not_connected = other
map_open_error core_other = other

module _ {F : Type 0} (core : Core F) where
  open core use {
    W, build, open_core, new_client, close_core, client_write, client_query, read, decode_response,
    write_bytes, do_clear, pause, clock,
  }

  -- `has_core`: `_core` and `_client` are not None
  pub record Line : Type 0 where
    pub has_unread_output : Bool
    pub is_opened : Bool
    pub timeout_s : F
    pub has_core : Bool
    pub world : W

  -- A call of the core under `_call`; with no core it is an AttributeError.
  abbrev call : {A : Type 0} → (W → Outcome A × W) → Line → Result A × Line
  call action s =
      if s.has_core
      then (let (r, w) = action s.world in
          elim r [
            | returned a ↦ (ok a, record s { world = w })
            | raised e ↦ (err (call_error e), record s { world = w })
          ])
      else (err other, s)

  unfoldable pub write : String → Line → Result (Unit {0}) × Line
  write command s =
      if s.has_unread_output then (err protocol, s) else call (client_write command s.timeout_s) s

  -- The flag stays set when the call raises.
  abbrev answered : Result String → Line → Result String × Line
  answered (ok response) s = (ok response, record s { has_unread_output = false })
  answered (err e) s = (err e, s)

  unfoldable pub query : String → Line → Result String × Line
  query command s =
      if s.has_unread_output
      then (err protocol, s)
      else (let (r, s') =
            call (client_query command s.timeout_s) (record s { has_unread_output = true }) in
          answered r s')

  -- Decoding stands outside `_call`: its exceptions are not converted.
  abbrev decoded : Result String → Line → Result String × Line
  decoded (ok raw) s = elim (decode_response raw) [
    | returned text ↦ (ok text, record s { has_unread_output = false })
    | raised e ↦ (err other, record s { has_unread_output = false })
  ]
  decoded (err e) s = (err e, s)

  unfoldable pub read_raw : Line → Result String × Line
  read_raw s = let (r, s') = call (read s.timeout_s) s in decoded r s'

  unfoldable pub write_raw : String → Line → Result (Unit {0}) × Line
  write_raw text s = call (write_bytes text s.timeout_s) s

  abbrev cleared : Result (Unit {0}) → Line → Result (Unit {0}) × Line
  cleared (ok _) s = (ok tt, record s { has_unread_output = false })
  cleared (err e) s = (err e, s)

  pub clear : Line → Result (Unit {0}) × Line
  clear s = let (r, s') = call (do_clear s.timeout_s) s in cleared r s'

  -- The handler of `open`, with the core closed before if there is one.
  abbrev open_failed : CoreError → Line → W → Result (Unit {0}) × Line
  open_failed e s w =
      (err (map_open_error e), record s { is_opened = false; has_unread_output = false; world = w })

  abbrev open_succeeded : Line → W → Result (Unit {0}) × Line
  open_succeeded s w = (ok tt, record s { is_opened = true; has_core = true; world = w })

  unfoldable pub open_line : Line → Result (Unit {0}) × Line
  open_line s =
      let (built, w) = build s.world in
      elim built [
        | raised e ↦ open_failed e s w
        | returned _ ↦
            let (opened, w') = open_core w in
            elim opened [
              | raised e ↦ open_failed e s (close_core w').1
              | returned _ ↦
                  let (made, w'') = new_client w' in
                  elim made [
                    | raised e ↦ open_failed e s (close_core w'').1
                    | returned _ ↦ open_succeeded s w''
                  ]
            ]
      ]

  abbrev closed_line : Line → W → Line
  closed_line s w = record s { is_opened = false; has_unread_output = false; world = w }

  -- An exception of `core.close` is not converted, and passes the `finally`.
  unfoldable pub close : Line → Result (Unit {0}) × Line
  close s =
      if s.has_core
      then (let (r, w) = close_core s.world in
          elim r [
            | returned _ ↦ (ok tt, closed_line s w)
            | raised e ↦ (err other, closed_line s w)
          ])
      else (ok tt, closed_line s s.world)

  -- `BaseTransport.__init__`
  abbrev initial : F → W → Line
  initial ten w = record {
    has_unread_output = false;
    is_opened = false;
    timeout_s = ten;
    has_core = false;
    world = w;
  }

  -- A transport for the driver, with its type and the options of its configuration.
  abbrev pub base_transport : TransportType → Bool → Bool → Bool → Transport F
  base_transport kind recover_on_connect clear_on_connect send_local_on_close = record {
    S = Line;
    transport_type = kind;
    recover_on_connect = recover_on_connect;
    clear_on_connect = clear_on_connect;
    send_local_on_close = send_local_on_close;
    open_t = open_line;
    close_t = close;
    is_open = λ s. s.is_opened;
    write = write;
    query = query;
    read_raw = read_raw;
    write_raw = write_raw;
    clear = clear;
    set_timeout = λ x s. record s { timeout_s = x };
    sleep = λ x s. record s { world = pause x s.world };
    monotonic = λ s. clock s.world;
  }
