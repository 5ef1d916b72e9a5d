-- ===== src/Driver/Settings/Sent.antt =====
-- What a configuration that returned has sent and recorded.
use mathlib.Core.Path.{subst}
use hp34401a_driver.Base.{
  String, Option, none, some, List, [], ◌∷◌, ◌≡◌, refl, sym, inl, inr, Option-cases, arith,
}
use hp34401a_driver.Float.{Float}
use hp34401a_driver.Enums.{
  MeasurementFunction, Range, Nplc, AutozeroMode, AcFilterHz, Aperture, configured, immediate,
}
use hp34401a_driver.Errors.{Result, ok, err, Result-cases}
use hp34401a_driver.Transport.{Transport}
use hp34401a_driver.Driver.{Driver, M, outbound, Calls, modify, ◌>>◌, traced}
use hp34401a_driver.Driver.Guard.{guard_safety}
use hp34401a_driver.Driver.Raw.{write, after_write}
use hp34401a_driver.Driver.Validate.{validate_range}
use hp34401a_driver.Driver.Settings.{configure_mnemonic, remember, apply_configure}
use hp34401a_driver.Driver.Settings.Steps.{settings_commands, write_all, steps-all}

-- The trace after a list of commands.
abbrev traced_all : List String → Option Calls → Option Calls
traced_all [] calls = calls
traced_all (c ∷ cs) calls = traced_all cs (traced outbound c calls)

-- The transport after it took a list of commands, each without an exception, and nothing else.
abbrev taken_all : {F : Type 0} (t : Transport F) → List String → t.S → Option t.S
taken_all t [] s = some s
taken_all t (c ∷ cs) s =
    let (r, s') = t.write c s in elim r [ ok _ ↦ taken_all t cs s' | err e ↦ none ]

module _ {fl : Float} {T : Transport fl.F} where
  open fl use {F}

  write-trace :
      (c : String) (d : Driver fl T)
      → (write c d).0 ≡ ok tt
      → (write c d).1.trace ≡ traced outbound c d.trace
  unfolding write
  write-trace c d h = ground arith

  after_write-taken :
      (p : Result (Unit {0}) × T.S) (d : Driver fl T)
      → let q = after_write p.0 (record d { t = p.1 }) in q.0 ≡ ok tt → p ≡ (ok tt, q.1.t)
  after_write-taken (ok _, s) d h = refl
  after_write-taken (err e, s) d h = cc

  write-taken :
      (c : String) (d : Driver fl T)
      → (write c d).0 ≡ ok tt
      → T.write c d.t ≡ (ok tt, (write c d).1.t)
  unfolding write
  write-taken c d = elim (Result-cases (guard_safety d.cfg c)) [
    | inr (e, bad) ↦ rw bad (λ h. cc)
    | inl (_, e) ↦
        let d' : Driver fl T = record d { trace = traced outbound c d.trace } in
        rw e (after_write-taken (T.write c d.t) d')
  ]

  -- What there is after commands that all went through and a last step: the transport took them,
  -- and the trace has them.
  abbrev Sent : List String → T.S → Option Calls → Result (Unit {0}) × Driver fl T → Type 0
  Sent cs s calls (ok _, d) = (taken_all T cs s ≡ some d.t) × (d.trace ≡ traced_all cs calls)
  Sent cs s calls (err e, d) = Unit

  one_more :
      (c : String) (cs : List String) (d d' : Driver fl T) (p : Result (Unit {0}) × Driver fl T)
      → T.write c d.t ≡ (ok tt, d'.t)
      → d'.trace ≡ traced outbound c d.trace
      → Sent cs d'.t d'.trace p
      → Sent (c ∷ cs) d.t d.trace p
  one_more c cs d d' (ok _, d'') w t (a, b) = (
    subst
        (λ (x : Result (Unit {0}) × T.S).
          (elim x.0 as (λ _. Option T.S) [ ok _ ↦ taken_all T cs x.1 | err e ↦ none ]) ≡ some d''.t)
        (sym w) a,
    subst (λ x. d''.trace ≡ traced_all cs x) t b,
  )
  one_more c cs d d' (err e, d'') w t h = tt

  write-Sent :
      (p : Result (Unit {0}) × Driver fl T) (c : String) (cs : List String) (d : Driver fl T)
      → (p.0 ≡ ok tt → T.write c d.t ≡ (ok tt, p.1.t))
      → (p.0 ≡ ok tt → p.1.trace ≡ traced outbound c d.trace)
      → ((d' : Driver fl T) → Sent cs d'.t d'.trace (write_all cs d'))
      → Sent (c ∷ cs) d.t d.trace (((λ _. p) >> write_all cs) d)
  write-Sent (ok _, d') c cs d w h k = one_more c cs d d' (write_all cs d') (w refl) (h refl) (k d')
  write-Sent (err e, d') c cs d w h k = tt

  write_all-Sent : (cs : List String) (d : Driver fl T) → Sent cs d.t d.trace (write_all cs d)
  unfolding write_all
  write_all-Sent [] d = (refl, refl)
  write_all-Sent (c ∷ cs) d =
      write-Sent (write c d) c cs d (write-taken c d) (write-trace c d) (write_all-Sent cs)

  -- What `_apply_configure` has done when it returns.
  pub record Applied (function : MeasurementFunction) (range : Range F) (nplc : Option Nplc)
      (autozero : AutozeroMode) (hz : Option AcFilterHz) (before : Driver fl T)
      (after : Driver fl T) : Type 0 where
    pub conf : String
    pub range_token : String
    pub known : configure_mnemonic function ≡ some conf
    pub in_range : validate_range fl function range ≡ ok range_token
    pub taken :
        taken_all T (settings_commands fl function range nplc autozero hz conf range_token) before.t
        ≡ some after.t
    pub sent :
        after.trace
        ≡ traced_all
            (settings_commands fl function range nplc autozero hz conf range_token)
            before.trace
    pub is_configured : after.state ≡ configured
    pub is_active : after.active_function ≡ some function
    pub is_immediate : after.trigger_source ≡ immediate
    pub autozero_kept : after.active_autozero ≡ autozero

  remember-Applied :
      (function : MeasurementFunction) (range : Range F) (nplc : Option Nplc)
      (autozero : AutozeroMode) (hz : Option AcFilterHz) (aperture : Option Aperture)
      (conf range_token : String) (d : Driver fl T) (p : Result (Unit {0}) × Driver fl T)
      → configure_mnemonic function ≡ some conf
      → validate_range fl function range ≡ ok range_token
      → Sent (settings_commands fl function range nplc autozero hz conf range_token) d.t d.trace p
      → let q = ((λ _. p) >> modify (remember function nplc autozero hz aperture)) d in
        q.0 ≡ ok tt → Applied function range nplc autozero hz d q.1
  remember-Applied function range nplc autozero hz aperture conf range_token d (ok _, d') km vr s
        h =
      record {
        conf = conf;
        range_token = range_token;
        known = km;
        in_range = vr;
        taken = s.0;
        sent = s.1;
        is_configured = refl;
        is_active = refl;
        is_immediate = refl;
        autozero_kept = refl;
      }
  remember-Applied function range nplc autozero hz aperture conf range_token d (err e, d') km vr s
        h =
      cc

  -- When `_apply_configure` returns, the transport has taken the configuration of the function and
  -- then every other setting, in their order, each without an exception, and nothing else; the trace
  -- callback was told of them, and the driver is configured for that function with an immediate
  -- trigger.
  pub apply_configure-Applied :
      (function : MeasurementFunction) (range : Range F) (nplc : Option Nplc)
      (autozero : AutozeroMode) (hz : Option AcFilterHz) (aperture : Option Aperture)
      (d : Driver fl T)
      → (apply_configure function range nplc autozero hz aperture d).0 ≡ ok tt
      → Applied function range nplc autozero hz d
          (apply_configure function range nplc autozero hz aperture d).1
  unfolding apply_configure
  apply_configure-Applied function range nplc autozero hz aperture d =
      elim (Result-cases (validate_range fl function range)) [
        | inr (e, bad) ↦ rw bad (λ h. cc)
        | inl (range_token, vr) ↦ elim (Option-cases (configure_mnemonic function)) [
          | inl none_known ↦ rw (vr, none_known) (λ h. cc)
          | inr (conf, km) ↦
              let cs = settings_commands fl function range nplc autozero hz conf range_token in
              let last = modify {fl = fl} {T = T} (remember function nplc autozero hz aperture) in
              rw (vr, km)
                (subst
                  (λ (m : M fl T (Unit {0})).
                    (m d).0 ≡ ok tt → Applied function range nplc autozero hz d (m d).1)
                  (sym (steps-all function range nplc autozero hz conf range_token last))
                  (remember-Applied function range nplc autozero hz aperture conf range_token d
                    (write_all cs d) km vr (write_all-Sent cs d)))
        ]
      ]
