-- ===== src/Tests/Opening.antt =====
-- Tests of opening sessions, and of the communication health.
use hp34401a_driver.Base.{ℕ, Bool, String, true, false, Option, none, some, [], ◌∷◌, refl}
use hp34401a_driver.Base.Int.{ℤ, pos}
use hp34401a_driver.Base.Text.{lstrip, rstrip, strip, is_space, upper, upper_code}
use hp34401a_driver.Base.Dict.{find, put, remove}
use hp34401a_driver.Errors.{ok, err, timeout}
use hp34401a_driver.Transport.{Laws}
use hp34401a_driver.Driver.{Driver, init}
use hp34401a_driver.Sessions.{normalize_alias, no_sessions, add, store, get, close, forget}
use hp34401a_driver.Keywords.{execute}
use hp34401a_driver.Health.{Drivers, Details, Manager, Library, register_connected, open_dmm}
use hp34401a_driver.Health.State.{probe, check_communication, close_dmm, get_connection_state}
use hp34401a_driver.Health.Single.{single, single-closes}
use hp34401a_driver.Health.Registered.{Settled, register_connected-Settled}
use hp34401a_driver.Health.Cached.{Reports, reopened-Reports}
use hp34401a_driver.Tests.Fixtures.{whole, scripted, open_script, config}

abbrev details : Option String → Details ℤ
details identity = record {
  resource = "GPIB0::22::INSTR";
  transport_kind = "visa_gpib";
  timeout_s = pos 10;
  identity_text = identity;
}

-- An instrument of another make, which `connect` refuses.
abbrev other_make : Manager ℤ (Unit {0}) (Driver whole scripted)
other_make = no_sessions (init whole scripted (open_script ("FLUKE,45" ∷ [])) config)

scripted-Laws : Laws scripted
scripted-Laws = record { closed = λ s. refl; timeout_keeps_open = λ x s. refl }

register_connected-Settled_example :
    Settled single "Bench" tt other_make
      (register_connected single "Bench" tt (some false) details other_make)
register_connected-Settled_example =
    register_connected-Settled single (single-closes scripted-Laws) "Bench" tt (some false) details
      other_make

-- Drivers whose line is there but does not answer; the world is whether one is connected.
abbrev silent : Drivers ℕ Bool
silent = record {
  connect_driver = λ d w. (ok tt, true);
  close_driver = λ d w. (ok tt, false);
  is_connected = λ d w. w;
  query_idn = λ d w. (err timeout, w);
  identity_raw = λ d w. none;
}

-- Driver 1 was opened, and a check of it failed.
abbrev after_check : Library ℤ ℕ Bool
after_check =
    let lib : Library ℤ ℕ Bool = record {
      manager = no_sessions false;
      communication_health = [];
      default_timeout_s = pos 10;
    } in
    (check_communication silent none (open_dmm silent "Bench" 1 (some false) details lib).1).1

reopened-Reports_example : Reports silent false (
    get_connection_state silent
      (some "Bench")
      false
      (open_dmm silent "Bench" 2
        (some false)
        details
        (close_dmm silent (some "Bench") after_check).1).1)
unfolding check_communication probe open_dmm register_connected close_dmm normalize_alias add store
    get close forget find put remove execute upper upper_code lstrip rstrip is_space strip
reopened-Reports_example =
    reopened-Reports silent (λ d w. refl) "Bench" "Bench" "Bench" 2 (some false) details after_check
      false refl refl refl
