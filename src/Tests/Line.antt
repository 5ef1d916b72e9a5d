-- ===== src/Tests/Line.antt =====
-- Tests of the line of a transport and of the classes of SCPI errors.
use hp34401a_driver.Base.{[], ◌∷◌, ◌≡◌, refl}
use hp34401a_driver.Errors.{timeout}
use hp34401a_driver.Transport.BaseTransport as Base
use hp34401a_driver.Transport.BaseTransport.Stale.{
  write_cmd, query_cmd, AllRefused, issue_all, issue_all_after_failed_query,
}
use hp34401a_driver.Tests.Fixtures.{silent, silent_line}

issue_all_after_failed_query_example :
    let s = (Base.query silent "READ?" silent_line).1 in
    AllRefused silent (issue_all silent (write_cmd "*CLS" ∷ query_cmd "*IDN?" ∷ []) s).0
    × ((issue_all silent (write_cmd "*CLS" ∷ query_cmd "*IDN?" ∷ []) s).1 ≡ s)
unfolding Base.query
issue_all_after_failed_query_example =
    issue_all_after_failed_query silent "READ?" (write_cmd "*CLS" ∷ query_cmd "*IDN?" ∷ [])
      silent_line timeout refl
