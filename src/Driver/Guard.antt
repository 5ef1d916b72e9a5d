-- ===== src/Driver/Guard.antt =====
-- The command guards and the retry policy of hp34401a_dmm/legacy_driver.py: `_guard_safety` with
-- its two expressions, `_normalize_scpi_query` and the query prefixes. Letters are ASCII.
pub mod Coverage
use hp34401a_driver.Base.{
  ℕ, String, Bool, true, false, not, ◌&&◌, ◌||◌, Option, none, some, List, [], ◌∷◌, map, any,
  if◌then◌else◌, leb, ◌==◌,
}
use hp34401a_driver.Base.Int.{ℤ, pos, ltb_ℤ}
use hp34401a_driver.Base.Text.{is_space, strip, lstrip, upper, codes, starts_with, contains}
use hp34401a_driver.Errors.{Result, ok, err, safety}
use hp34401a_driver.Config.{DriverConfig}

-- What follows a prefix.
unfoldable after_prefix : List ℕ → List ℕ → Option (List ℕ)
after_prefix text [] = some text
after_prefix [] (p ∷ ps) = none
after_prefix (c ∷ text) (p ∷ ps) = let rest = after_prefix text ps in if c == p then rest else none

-- `\w`
abbrev is_word : ℕ → Bool
is_word c =
    leb b'A' c && leb c b'Z' || leb b'a' c && leb c b'z' || leb b'0' c && leb c b'9' || c == b'_'

-- `\b` behind a word character
abbrev pub at_boundary : List ℕ → Bool
at_boundary [] = true
at_boundary (c ∷ text) = not (is_word c)

abbrev after_cal : Option (List ℕ) → Bool
after_cal none = false
after_cal (some rest) = at_boundary rest

-- `CAL(ibration)?\b` at the start of a text in upper case
pub is_cal_text : List ℕ → Bool
unfolding after_prefix
is_cal_text text = elim (after_prefix text (codes "CAL")) [
  | none ↦ false
  | some rest ↦ at_boundary rest || after_cal (after_prefix rest (codes "IBRATION"))
]

-- `_CAL_COMMAND_RE.match(command)`: `^\s*CAL(ibration)?\b`, in any case
unfoldable pub is_cal_command : String → Bool
unfolding is_cal_text lstrip upper
is_cal_command command = is_cal_text (upper (lstrip command))

-- `_RWLOCK_RE.search(command)`: `RWL(ock)?`, in any case
unfoldable pub is_rwlock_command : String → Bool
unfolding contains upper
is_rwlock_command command = contains (codes "RWL") (upper command)

-- `_guard_safety`
unfoldable pub guard_safety : {F : Type 0} → DriverConfig F → String → Result (Unit {0})
guard_safety cfg command =
    if is_cal_command command && not cfg.allow_calibration_commands
    then err safety
    else if is_rwlock_command command
    then err safety
    else ok tt

starts_with_space : List ℕ → Bool
starts_with_space [] = false
starts_with_space (c ∷ text) = is_space c

-- Each run of white space becomes one blank.
squeeze : List ℕ → List ℕ
squeeze [] = []
squeeze (c ∷ text) =
    let more = squeeze text in
    if is_space c then (if starts_with_space text then more else 32 ∷ more) else c ∷ more

-- `_normalize_scpi_query`
unfoldable pub normalize_scpi_query : String → List ℕ
unfolding squeeze starts_with_space is_space upper strip
normalize_scpi_query command = squeeze (upper (strip command))

abbrev retryable_query_prefixes : List String
retryable_query_prefixes =
    "*IDN?" ∷ "SYSTEM:ERROR?" ∷ "SYST:ERR?" ∷ "SYSTEM:VERSION?" ∷ "SYST:VERS?" ∷ "*STB?" ∷ "*ESR?"
    ∷ "ROUTE:TERMINALS?" ∷ "ROUT:TERM?" ∷ "FETCH?" ∷ "FETC?" ∷ "DATA:POINTS?" ∷ "DATA:POIN?" ∷ []

abbrev pub non_retryable_query_prefixes : List String
non_retryable_query_prefixes = "READ?" ∷ "*TST?" ∷ []

-- `any(normalized.startswith(prefix) for prefix in prefixes)`
unfoldable pub starts_with_any : List ℕ → List String → Bool
unfolding starts_with
starts_with_any text prefixes = any (λ p. starts_with text (codes p)) prefixes

-- `_should_retry_timeout_query`; the flag is `_in_recovery`
unfoldable pub should_retry_timeout_query : {F : Type 0} → DriverConfig F → Bool → String → Bool
unfolding starts_with_any normalize_scpi_query
should_retry_timeout_query cfg in_recovery command =
    if not cfg.retry_queries || not (ltb_ℤ (pos 0) cfg.max_query_retries)
    then false
    else if in_recovery
    then false
    else if starts_with_any (normalize_scpi_query command) non_retryable_query_prefixes
    then false
    else if cfg.retry_all_queries_on_timeout
    then true
    else starts_with_any (normalize_scpi_query command) retryable_query_prefixes
