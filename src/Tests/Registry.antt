-- ===== src/Tests/Registry.antt =====
-- Tests of the session registry, with drivers that raise when they are closed.
use hp34401a_driver.Base.{ℕ, false, none, some, List, [], ◌∷◌, ◌≡◌, refl}
use hp34401a_driver.Base.Text.{lstrip, rstrip, strip, is_space, upper, upper_code}
use hp34401a_driver.Errors.{Result, err, value_error, connection}
use hp34401a_driver.Base.Dict.{find, put, remove}
use hp34401a_driver.Sessions.{normalize_alias, store, add, select, get, forget, close}
use hp34401a_driver.Sessions.Consistent.{
  Call, add_call, select_call, close_call, run_all, get_after_calls,
}

abbrev stuck_driver : ℕ → Unit {0} → Result (Unit {0}) × Unit {0}
stuck_driver n w = (err connection, w)

abbrev calls : List (Call ℕ ℕ)
calls =
    add_call "Bench" 1 false 0
    ∷ add_call "Rack" 2 false 0
    ∷ close_call none false
    ∷ select_call "none"
    ∷ close_call (some "bench") false
    ∷ []

get_after_calls_example : value_error ≡ value_error
unfolding get normalize_alias add store put find select close forget remove run_all upper upper_code
    lstrip rstrip is_space strip
get_after_calls_example = get_after_calls stuck_driver calls tt none value_error refl
