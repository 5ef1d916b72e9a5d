-- ===== src/Errors/Classes.antt =====
-- The class of exception that an SCPI error code is raised as, read off the hundreds of the code.
use hp34401a_driver.Base.{ℕ, zero, suc, ◌/◌, String, ◌≡◌, refl, arith, if◌then◌else◌, ◌==◌}
use hp34401a_driver.Base.Int.{ℤ, pos, negsuc}
use hp34401a_driver.Errors.{
  Error, scpi, ScpiClass, command_error, execution_error, query_error, device_error, scpi_error,
  scpi_error_for,
}

abbrev by_hundreds : ℕ → ScpiClass
by_hundreds h =
    if h == 1
    then command_error
    else if h == 2
    then execution_error
    else if h == 4
    then query_error
    else scpi_error

-- The class that the manual's grouping gives: -1xx, -2xx, -4xx, and every positive code.
abbrev class_of_code : ℤ → ScpiClass
class_of_code (pos zero) = scpi_error
class_of_code (pos (suc n)) = device_error
class_of_code (negsuc n) = by_hundreds (suc n / 100)

abbrev Carries : ScpiClass → ℤ → Error → Type 0
Carries cls code (scpi cls' code' message raw) = (cls' ≡ cls) × (code' ≡ code)
Carries cls code _ = ⊥

-- Every code becomes an ScpiError that carries that very code, of the class of its group.
scpi_error_for-class :
    (code : ℤ) (message raw : String)
    → Carries (class_of_code code) code (scpi_error_for code message raw)
unfolding scpi_error_for
scpi_error_for-class (pos zero) message raw = (refl, refl)
scpi_error_for-class (pos (suc n)) message raw = ground arith
scpi_error_for-class (negsuc n) message raw = ground arith
