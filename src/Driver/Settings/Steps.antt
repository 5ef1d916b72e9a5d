-- ===== src/Driver/Settings/Steps.antt =====
-- What the steps of `_apply_configure` send, as a list of commands.
use mathlib.Core.Path.{fun_ext, ap₂}
use Prim.Native.String.{◌++◌ as append}
use hp34401a_driver.Base.{
  String, Bool, true, false, Option, none, some, List, [], ◌∷◌, ◌++◌, ◌≡◌, refl, ap, sym, ◌∙◌,
}
use hp34401a_driver.Base.Show.{show}
use hp34401a_driver.Float.{Float}
use hp34401a_driver.Enums.{
  MeasurementFunction, Range, value, token, auto, Nplc, nplc_value, AutozeroMode, autozero_value,
  AcFilterHz, ac_filter_value, in_nplc_functions,
}
use hp34401a_driver.Errors.{Result, ok, err}
use hp34401a_driver.Transport.{Transport}
use hp34401a_driver.Driver.{Driver, M, pure, ◌>>◌, when}
use hp34401a_driver.Driver.Raw.{write}
use hp34401a_driver.Driver.Validate.{num}
use hp34401a_driver.Driver.Settings.{
  sense_mnemonic, conf_command, sense_auto, printed, write_autorange, write_nplc, write_autozero,
  write_ac_filter,
}

abbrev only_if : Bool → String → List String
only_if true c = c ∷ []
only_if false c = []

abbrev ac_filter_commands : Option AcFilterHz → List String
ac_filter_commands none = []
ac_filter_commands (some hz) = append "SENSe:DETector:BANDwidth " (show (ac_filter_value hz)) ∷ []

module _ (fl : Float) where
  open fl use {F}

  abbrev autorange_commands : Option String → Range F → List String
  autorange_commands none range = []
  autorange_commands (some sense) (value x) = sense_auto sense "OFF" ∷ []
  autorange_commands (some sense) (token auto) = sense_auto sense "ON" ∷ []
  autorange_commands (some sense) (token t) = []

  abbrev nplc_commands : MeasurementFunction → Option Nplc → List String
  nplc_commands function none = []
  nplc_commands function (some nplc) = only_if (in_nplc_functions function) (
      append "SENSe:" (
        append (printed (sense_mnemonic function))
          (append ":NPLCycles " (num fl (nplc_value fl nplc)))))

  -- CONFigure resets the other settings, so all of them follow it, in this order.
  unfoldable pub settings_commands :
      MeasurementFunction
      → Range F
      → Option Nplc
      → AutozeroMode
      → Option AcFilterHz
      → String
      → String
      → List String
  settings_commands function range nplc autozero hz conf range_token =
      conf_command function conf range_token
      ∷ (autorange_commands (sense_mnemonic function) range
          ++ (nplc_commands function nplc
              ++ (only_if (in_nplc_functions function)
                    (append "SENSe:ZERO:AUTO " (autozero_value autozero))
                  ++ ac_filter_commands hz)))

module _ {fl : Float} {T : Transport fl.F} where
  open fl use {F}

  -- The commands one after another, up to the first that raises.
  unfoldable pub write_all : List String → M fl T (Unit {0})
  write_all [] = pure tt
  write_all (c ∷ cs) = write c >> write_all cs

  then_pure : (p : Result (Unit {0}) × Driver fl T) (d : Driver fl T) → ((λ _. p) >> pure tt) d ≡ p
  then_pure (ok _, d') d = refl
  then_pure (err e, d') d = refl

  write_all-one : (c : String) (d : Driver fl T) → write_all (c ∷ []) d ≡ write c d
  unfolding write_all
  write_all-one c d = then_pure (write c d) d

  after_first :
      (p : Result (Unit {0}) × Driver fl T) (cs ds : List String) (d : Driver fl T)
      → ((d' : Driver fl T) → write_all (cs ++ ds) d' ≡ (write_all cs >> write_all ds) d')
      → ((λ _. p) >> write_all (cs ++ ds)) d ≡ (((λ _. p) >> write_all cs) >> write_all ds) d
  after_first (ok _, d') cs ds d h = h d'
  after_first (err e, d') cs ds d h = refl

  write_all-append :
      (cs ds : List String) (d : Driver fl T)
      → write_all (cs ++ ds) d ≡ (write_all cs >> write_all ds) d
  unfolding write_all
  write_all-append [] ds d = refl
  write_all-append (c ∷ cs) ds d = after_first (write c d) cs ds d (write_all-append cs ds)

  -- The steps that may send nothing are such lists.
  when-only_if :
      (b : Bool) (c : String) (d : Driver fl T) → when b (write c) d ≡ write_all (only_if b c) d
  unfolding write_all
  when-only_if true c d = sym (write_all-one c d)
  when-only_if false c d = refl

  write_autorange-all :
      (s : Option String) (range : Range F) (d : Driver fl T)
      → write_autorange s range d ≡ write_all (autorange_commands fl s range) d
  unfolding write_autorange write_all
  write_autorange-all none range d = refl
  write_autorange-all (some s) (value x) d = sym (write_all-one (sense_auto s "OFF") d)
  write_autorange-all (some s) (token auto) d = sym (write_all-one (sense_auto s "ON") d)
  write_autorange-all (some s) (token t) d = refl

  write_nplc-all :
      (function : MeasurementFunction) (nplc : Option Nplc) (d : Driver fl T)
      → write_nplc function nplc d ≡ write_all (nplc_commands fl function nplc) d
  unfolding write_nplc write_all
  write_nplc-all function none d = refl
  write_nplc-all function (some nplc) d = when-only_if (in_nplc_functions function) _ d

  write_ac_filter-all :
      (hz : Option AcFilterHz) (d : Driver fl T)
      → write_ac_filter hz d ≡ write_all (ac_filter_commands hz) d
  unfolding write_ac_filter write_all
  write_ac_filter-all none d = refl
  write_ac_filter-all (some hz) d = sym (write_all-one _ d)

  then_at :
      {A B : Type 0} (p : Result (Unit {0}) × Driver fl T) (n : M fl T A) (k : M fl T B)
      (d : Driver fl T)
      → (((λ _. p) >> n) >> k) d ≡ ((λ _. p) >> (n >> k)) d
  then_at (ok _, d') n k d = refl
  then_at (err e, d') n k d = refl

  pub then_assoc :
      {A B : Type 0} (m : M fl T (Unit {0})) (n : M fl T A) (k : M fl T B)
      → ((m >> n) >> k) ≡ (m >> (n >> k))
  then_assoc m n k = fun_ext (λ d. then_at (m d) n k d)

  -- One more step in front of a list of commands.
  step_before :
      {m rest : M fl T (Unit {0})} (cs ds : List String) (last : M fl T (Unit {0}))
      → m ≡ write_all cs
      → rest ≡ (write_all ds >> last)
      → (m >> rest) ≡ (write_all (cs ++ ds) >> last)
  step_before cs ds last p q =
      ap₂ (λ (x y : M fl T (Unit {0})). x >> y) p q
      ∙ sym (then_assoc (write_all cs) (write_all ds) last)
      ∙ ap (λ (x : M fl T (Unit {0})). x >> last) (sym (fun_ext (write_all-append cs ds)))

  -- The steps behind the first two of `apply_configure`.
  abbrev steps :
      MeasurementFunction
      → Range F
      → Option Nplc
      → AutozeroMode
      → Option AcFilterHz
      → String
      → String
      → M fl T (Unit {0})
      → M fl T (Unit {0})
  steps function range nplc autozero hz conf range_token last =
      write (conf_command function conf range_token)
      >> (write_autorange (sense_mnemonic function) range
          >> (write_nplc function nplc
              >> (write_autozero function autozero >> (write_ac_filter hz >> last))))

  pub steps-all :
      (function : MeasurementFunction) (range : Range F) (nplc : Option Nplc)
      (autozero : AutozeroMode) (hz : Option AcFilterHz) (conf range_token : String)
      (last : M fl T (Unit {0}))
      → steps function range nplc autozero hz conf range_token last ≡ (
          write_all (settings_commands fl function range nplc autozero hz conf range_token) >> last)
  unfolding settings_commands write_autozero
  steps-all function range nplc autozero hz conf range_token last =
      let n = nplc_commands fl function nplc in
      let z =
        only_if (in_nplc_functions function)
          (append "SENSe:ZERO:AUTO " (autozero_value autozero)) in
      let f = ac_filter_commands hz in
      step_before (conf_command function conf range_token ∷ [])
        (autorange_commands fl (sense_mnemonic function) range ++ (n ++ (z ++ f))) last
        (fun_ext (λ d. sym (write_all-one (conf_command function conf range_token) d)))
        (step_before (autorange_commands fl (sense_mnemonic function) range) (n ++ (z ++ f)) last
          (fun_ext (write_autorange-all (sense_mnemonic function) range))
          (step_before n (z ++ f) last (fun_ext (write_nplc-all function nplc)) (
            step_before z f last
              (fun_ext (
                when-only_if (in_nplc_functions function)
                  (append "SENSe:ZERO:AUTO " (autozero_value autozero))))
              (ap (λ (x : M fl T (Unit {0})). x >> last) (fun_ext (write_ac_filter-all hz))))))
