-- ===== src/Lib.antt =====
-- Verification of hp34401a_dmm, a Python driver of the HP/Agilent 34401A multimeter, and of the
-- production layer on it. The driver (hp34401a_dmm/legacy_driver.py, class Hp34401A, extended by
-- hp34401a_dmm/driver.py) sends SCPI commands through a transport (hp34401a_dmm/transports.py),
-- parses the responses (hp34401a_dmm/parser.py) into records (hp34401a_dmm/measurement.py) and
-- raises the exceptions of hp34401a_dmm/errors.py. hp34401a_dmm/production.py runs sequences of
-- measurements against limits, and hp34401a_dmm/stability.py waits until a resistance has settled.
-- The Robot Framework library over it (rf_hp34401a) converts the arguments of its keywords, keeps
-- the open drivers in a registry, and records each call with hp34401a_dmm/evidence.py.
--
-- Files:
--   Base: shared names, lists, integers and text over native numbers.
--   Float: Python's `float` as a parameter.
--   Enums, Errors, Measurement, Config, Parser: the files of those names in hp34401a_dmm.
--   Parser.Readings and Errors.Classes hold what is proved of them.
--   Transport: the `Transport` protocol as a record of operations over a state, with the laws that
--   the driver needs; Transport.BaseTransport is BaseTransport over the core of scpi_driver_core,
--   which is a parameter, and its child Stale the rule of one outstanding query. Transport.Fake is
--   FakeTransport over a scripted instrument, a parameter too; its children prove what it records
--   (History) and that the driver works on it (Contract).
--   Driver: the state of Hp34401A and the monad of its methods. Guard, Raw, Status, Estimate,
--   Validate, Settings, Read, Bus, Connect and Stable are methods of legacy_driver.py by theme,
--   Policy those of driver.py; the children of each hold its proofs, and Frame their shared rules.
--   Production: steps, limits, verdicts and sequences; its children prove where a reading comes from
--   (Taken) and what a PASS is worth.
--   Stability: the settling loop, over the samplers and the clock that it is called with, and what
--   is proved of its result (Honest) and of its end (Settles). Driver.Stable calls it with the
--   driver's own measurements; Driver.Stable.Steps shows what those respect, Time that it ends.
--   Sessions: the registry of rf_hp34401a/sessions.py, with Base.Dict for Python's dict; a driver
--   is known there by its `close`. Sessions.Consistent holds the invariant, Emptied and
--   Found what is known of its closing and its lookups.
--   Converters: rf_hp34401a/converters.py; Members and Numbers hold what is proved of it.
--   Evidence: hp34401a_dmm/evidence.py. Json is the redaction of values, Records and Run the run,
--   and Run.Calls any sequence of calls of it, over which the other children of Run prove. Folder
--   is the directory of a run with its manifest, and Validate the checks of
--   scripts/validate_evidence.py, which Folder.Accepted and Folder.Late relate. Lines says which lines
--   the validator reads of the records, and when one is broken by a separator in a text.
--   Keywords: the keywords of rf_hp34401a/legacy_library.py and rf_hp34401a/library.py on an open
--   session, with the exceptions of rf_hp34401a/exceptions.py. Keywords.Readings has those that
--   judge the last reading, Keywords.Stable those that wait for a stable resistance, with their
--   profile from rf_hp34401a/runtime_library.py, and Keywords.Device those on the device itself;
--   Sound, Assertions, Stable.Returned and Device.Queue hold what is proved.
--   Lifecycle: the keywords of rf_hp34401a/legacy_library.py that select and close sessions, with the
--   evidence around each, and the closing of the library; Torn, Nested and Closed hold what is
--   proved of them.
--   Health: a new session (`_register_connected`) and its communication health, as
--   rf_hp34401a/legacy_library.py and rf_hp34401a/runtime_library.py keep it over the registry. What
--   they ask of drivers is the record Drivers, which Health.Single fills with the driver itself.
--   Health.State has the keywords on the health and the end of sessions, and Health.Connect the
--   keyword Connect of both files; Registered, Cached, Connect.Ensured and Connect.Assured hold
--   what is proved.
--   Logging: the CSV log of hp34401a_dmm/logging_utils.py; Resumed proves what a file holds.
--   Configuration: rf_hp34401a/configuration.py; Valid holds what is proved of it.
--   Tests: concrete parameters and the theorems at concrete inputs.
--
-- A method is a function from the driver's state to a result and a new state, so that what was
-- changed before an exception stays changed. An exception is a value of `Error`; those that the
-- code does not catch are told apart as far as its handlers do. A method of the code has the same
-- name here; `_apply_configure` is `apply_configure`. Loops: the retries of `query` and the reads of
-- `drain_error_queue` are recursions on the number that the code's loop counts, so no fuel is added;
-- `str(int)` recurses on the number itself and one, more than it has digits. The settling loop runs
-- on fuel, one unit a round; the number of the clock's steps in the longest wait and one is enough,
-- given that the clock goes on with each sleep.
--
-- Not modelled: IEEE arithmetic (`float` is a parameter without laws), log calls and time stamps,
-- the reentrant lock (each public method is one step), the concrete byte transports, what the open
-- keywords make of their arguments, the reset of a device, the keywords that describe capabilities,
-- the JSON schema and its lock, the bytes, hashes and archive of the evidence, the command line and
-- the GUI.
mod Base
pub mod Float
pub mod Enums
pub mod Errors
pub mod Measurement
pub mod Config
pub mod Parser
pub mod Transport
pub mod Driver
pub mod Production
pub mod Stability
pub mod Sessions
pub mod Converters
pub mod Evidence
pub mod Keywords
pub mod Lifecycle
pub mod Health
pub mod Logging
pub mod Configuration
pub mod Tests
