-- ===== src/Tests/Connecting.antt =====
-- Tests of the keyword Connect.
use hp34401a_driver.Base.{ℕ, Bool, String, true, false, Option, none, some, [], ◌∷◌, ◌⊎◌, refl}
use hp34401a_driver.Base.Int.{ℤ, pos}
use hp34401a_driver.Base.Text.{lstrip, rstrip, strip, is_space, upper, upper_code, starts_with}
use hp34401a_driver.Base.Dict.{find, put}
use hp34401a_driver.Errors.{ok}
use hp34401a_driver.Sessions.{normalize_alias, no_sessions, add, store, get}
use hp34401a_driver.Keywords.{assertion_failed, returned, execute}
use hp34401a_driver.Health.{
  Drivers, Details, ConnectionState, Library, register_connected, open_dmm,
}
use hp34401a_driver.Health.State.{
  probe, check_communication, to_connection_state, state_without_cache, get_connection_state,
}
use hp34401a_driver.Health.Connect.{
  Request, Makers, selected_resource, select_transport, open_selected, legacy_connect, connect,
}
use hp34401a_driver.Health.Connect.Ensured.{Gone}
use hp34401a_driver.Health.Connect.Assured.{Assured, connect-Assured}

abbrev details : Option String → Details ℤ
details identity = record {
  resource = "GPIB0::22::INSTR";
  transport_kind = "visa_gpib";
  timeout_s = pos 10;
  identity_text = identity;
}

-- Drivers that answer; the world is whether one is connected.
abbrev answering : Drivers ℕ Bool
answering = record {
  connect_driver = λ d w. (ok tt, true);
  close_driver = λ d w. (ok tt, false);
  is_connected = λ d w. w;
  query_idn = λ d w. (ok "HP", w);
  identity_raw = λ d w. some "HP";
}

-- The switch for the terminals of the instrument is at the front.
abbrev front_only : Makers ℤ ℕ Bool ℕ
front_only = record {
  make = λ kind resource timeout. returned (5, details);
  apply_policy = λ d policy w. (ok tt, w);
  set_timeout = λ d x w. (ok x, w);
  require_terminal = λ name d w. (assertion_failed, w);
}

abbrev expects_rear : Request ℤ ℕ
expects_rear = record {
  resource = some "GPIB0::22::INSTR";
  configured_resource = none;
  simulation_enabled = some false;
  alias = "Bench";
  timeout_s = some (pos 8);
  transport = "AUTO";
  options = "replace" ∷ [];
  replace = some false;
  policy = some 1;
  expected_terminal = some "REAR";
}

abbrev empty_library : Library ℤ ℕ Bool
empty_library = record {
  manager = no_sessions false;
  communication_health = [];
  default_timeout_s = pos 10;
}

abbrev shown : ConnectionState ℤ
shown = record {
  alias = "Bench";
  resource = "GPIB0::22::INSTR";
  connected = true;
  communication_ok = true;
  transport = "visa_gpib";
  identity = some "HP";
  timeout_s = pos 10;
  simulated = false;
  generation = some 1;
  active = true;
}

connect-Assured_example :
    Assured answering front_only 5
      (some 1)
      (some "REAR")
      true
      (connect answering front_only expects_rear empty_library).1.manager.world
    ⊎ Gone answering front_only "Bench" 5
        (connect answering front_only expects_rear empty_library).1
unfolding selected_resource select_transport open_selected legacy_connect open_dmm
    register_connected normalize_alias add store get find put execute probe check_communication
    to_connection_state state_without_cache get_connection_state lstrip rstrip strip is_space upper
    upper_code starts_with
connect-Assured_example =
    connect-Assured answering front_only (λ d w. refl) expects_rear empty_library "GPIB0::22::INSTR"
      "Bench" 5 shown refl refl refl
      (record {
        session = record {
          alias = "Bench";
          driver = 5;
          details = details (some "HP");
          generation = 1;
        };
        found = refl;
        keyed = refl;
        driver_of = refl;
      })
