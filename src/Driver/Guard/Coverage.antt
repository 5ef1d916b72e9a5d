-- ===== src/Driver/Guard/Coverage.antt =====
-- What the guard of calibration commands catches, and a spelling that it lets through.
use Prim.Native.Char.{Char, code}
use hp34401a_driver.Base.{ℕ, String, true, false, List, ◌++◌, ◌≡◌, ap, ◌∙◌, arith, if◌then◌else◌}
use hp34401a_driver.Base.Text.{lstrip, upper, codes, is_space, upper_code, cons}
use hp34401a_driver.Config.{DriverConfig}
use hp34401a_driver.Errors.{ok, err, safety}
use hp34401a_driver.Driver.Guard.{
  at_boundary, is_cal_text, is_cal_command, is_rwlock_command, guard_safety,
}

-- The two spellings of the SCPI header.
pub data CalWord : Type 0 where
  short_form long_form : CalWord

abbrev cal_word : CalWord → List ℕ
cal_word short_form = codes "CAL"
cal_word long_form = codes "CALIBRATION"

is_cal_text_of_word :
    (w : CalWord) (rest : List ℕ)
    → at_boundary rest ≡ true
    → is_cal_text (cal_word w ++ rest) ≡ true
unfolding is_cal_text
is_cal_text_of_word short_form rest k = ground arith
is_cal_text_of_word long_form rest k = ground arith

is_cal_command_of_word :
    (w : CalWord) (c : String) (rest : List ℕ)
    → upper (lstrip c) ≡ cal_word w ++ rest
    → at_boundary rest ≡ true
    → is_cal_command c ≡ true
unfolding is_cal_command
is_cal_command_of_word w c rest h k = ap is_cal_text h ∙ is_cal_text_of_word w rest k

colon_is_no_cal : (c : Char) (s : String) → code c ≡ b':' → is_cal_command (cons c s) ≡ false
unfolding is_cal_command is_space upper_code
colon_is_no_cal c s h = ground arith

module _ {F : Type 0} (cfg : DriverConfig F) where
  -- A command that starts, in any case and behind any white space, with the word CAL or
  -- CALIBRATION is refused with a SafetyError if calibration is not allowed.
  pub calibration_refused :
      (w : CalWord) (c : String) (rest : List ℕ)
      → upper (lstrip c) ≡ cal_word w ++ rest
      → at_boundary rest ≡ true
      → cfg.allow_calibration_commands ≡ false
      → guard_safety cfg c ≡ err safety
  unfolding guard_safety
  calibration_refused w c rest h k off = rw (is_cal_command_of_word w c rest h k, off)

  -- The guard looks at the first header only where it starts with a letter: behind a colon, which
  -- SCPI allows before any header, no calibration command is recognised.
  pub colon_not_guarded :
      (c : Char) (s : String)
      → code c ≡ b':'
      → guard_safety cfg (cons c s) ≡ (if is_rwlock_command (cons c s) then err safety else ok tt)
  unfolding guard_safety
  colon_not_guarded c s h = rw (colon_is_no_cal c s h)
