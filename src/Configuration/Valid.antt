-- ===== src/Configuration/Valid.antt =====
-- The effective configuration is valid, whatever is called.
use mathlib.Core.Path.{subst}
use hp34401a_driver.Base.{
  String, Bool, true, false, not, ◌&&◌, Option, none, some, List, [], ◌∷◌, ◌≡◌, refl, sym, arith,
  inl, inr, Option-cases, is_some,
}
use hp34401a_driver.Base.Dict.{Key, find, put}
use hp34401a_driver.Base.Text.{codes}
use hp34401a_driver.Evidence.Json.{Value, mapping, Fields}
use hp34401a_driver.Keywords.{Answer, done, robot, assertion_failed, untranslated}
use hp34401a_driver.Configuration.{
  get_field, on_done, Library, Manager, ImportSource, file_text, initial, safe_profile_name,
  validate, checked_profile, adopt, apply, loaded, apply_unless, import_json, named, written,
  save_named, save_at, save_profile, load_named, load_profile, delete_profile, reset,
  package_default, runtime_import, sources_of,
}

-- The calls of the manager.
pub data Call (F J : Type 0) : Type 0 where
  applying : Fields F → Call F J
  importing : ImportSource F J → Bool → Call F J
  saving : String → Bool → Call F J
  loading : String → Bool → Call F J
  deleting : String → Call F J
  resetting : Call F J

module _ {F J : Type 0} (lib : Library F J) where
  unfoldable pub perform : Call F J → Manager F J → Manager F J
  perform (applying d) m = (apply lib d m).1
  perform (importing source validate_only) m = (import_json lib source validate_only m).1
  perform (saving name overwrite) m = (save_profile lib name overwrite m).1
  perform (loading name validate_only) m = (load_profile lib name validate_only m).1
  perform (deleting name) m = (delete_profile lib name m).1
  perform resetting m = reset lib m

  unfoldable pub perform_all : List (Call F J) → Manager F J → Manager F J
  perform_all [] m = m
  perform_all (c ∷ cs) m = perform_all cs (perform c m)

  -- The effective document passes the validation, and the sources are those of its settings.
  pub data IsValid (m : Manager F J) : Type 0 where
    by_default :
        m.effective ≡ lib.default → m.sources ≡ sources_of package_default lib.default → IsValid m
    by_import :
        validate lib m.effective ≡ done m.effective
        → m.sources ≡ sources_of runtime_import m.effective
        → IsValid m

  -- The document comes back unchanged.
  checked-done : (o : Option (Value F)) (d c : Fields F) → checked_profile lib o d ≡ done c → c ≡ d
  checked-done none d c h = ground (arith, h)
  checked-done (some (mapping fs)) d c h = ground (arith, h)
  checked-done (some v) d c h = ground (arith, h)

  pub validate-done : (d c : Fields F) → validate lib d ≡ done c → c ≡ d
  unfolding validate
  validate-done d c h = ground (arith, h, checked-done (get_field "profile" d) d c)

  on_done-IsValid :
      {A B : Type 0} (a : Answer A) (m : Manager F J) (f : A → Answer B × Manager F J)
      → IsValid m
      → ((x : A) → a ≡ done x → IsValid (f x).1)
      → IsValid (on_done a m f).1
  on_done-IsValid (done x) m f h k = k x refl
  on_done-IsValid (robot c) m f h k = h
  on_done-IsValid assertion_failed m f h k = h
  on_done-IsValid (untranslated e) m f h k = h

  apply-IsValid : (d : Fields F) (m : Manager F J) → IsValid m → IsValid (apply lib d m).1
  unfolding apply
  apply-IsValid d m h =
      on_done-IsValid (validate lib d) m (adopt lib m) h
        (λ c e. by_import (subst (λ x. validate lib x ≡ done c) (sym (validate-done d c e)) e) refl)

  import_json-IsValid :
      (source : ImportSource F J) (b : Bool) (m : Manager F J)
      → IsValid m
      → IsValid (import_json lib source b m).1
  unfolding import_json
  import_json-IsValid source b m h =
      on_done-IsValid (loaded lib source) m _ h
        (λ d _. on_done-IsValid (validate lib d) m (apply_unless lib b m) h (λ c _. applied b c))
    where
      applied : (b : Bool) (c : Fields F) → IsValid (apply_unless lib b m c).1
      applied true c = h
      applied false c = apply-IsValid c m h

  -- Neither the effective document nor the sources are those of the profiles.
  new_profiles-IsValid :
      (m : Manager F J) (files : List (Key × J))
      → IsValid m
      → IsValid (record m { profiles = files })
  new_profiles-IsValid m files (by_default e f) = by_default e f
  new_profiles-IsValid m files (by_import e f) = by_import e f

  save_at-IsValid :
      (taken : Bool) (o : Option (Fields F)) (name : String) (m : Manager F J)
      → IsValid m
      → IsValid (save_at lib taken o name m).1
  save_at-IsValid true o name m h = h
  save_at-IsValid false none name m h = h
  save_at-IsValid false (some d) name m h =
      on_done-IsValid (validate lib d) m (λ _. written lib name m d) h
        (λ c _. new_profiles-IsValid m (put (codes name) (lib.dumps d) m.profiles) h)

  load_named-IsValid :
      (name : String) (b : Bool) (m : Manager F J) → IsValid m → IsValid (load_named lib name b m).1
  load_named-IsValid name b m h = elim (Option-cases (find (codes name) m.profiles)) [
    | inl e ↦ rw (e, load_named) h
    | inr (s, e) ↦ rw (e, load_named) (import_json-IsValid (file_text s) b m h)
  ]

  perform-IsValid : (c : Call F J) (m : Manager F J) → IsValid m → IsValid (perform c m)
  unfolding perform save_profile load_profile delete_profile reset
  perform-IsValid (applying d) m h = apply-IsValid d m h
  perform-IsValid (importing source b) m h = import_json-IsValid source b m h
  perform-IsValid (saving name b) m h =
      on_done-IsValid (safe_profile_name name) m (λ s. save_named lib s b m) h
        (λ s _.
          save_at-IsValid (is_some (find (codes s) m.profiles) && not b) (named lib s m.effective) s
            m h)
  perform-IsValid (loading name b) m h =
      on_done-IsValid (safe_profile_name name) m (λ s. load_named lib s b m) h
        (λ s _. load_named-IsValid s b m h)
  perform-IsValid (deleting name) m h =
      on_done-IsValid (safe_profile_name name) m _ h (λ s _. new_profiles-IsValid m _ h)
  perform-IsValid resetting m h = by_default refl refl

  stays-IsValid : (cs : List (Call F J)) (m : Manager F J) → IsValid m → IsValid (perform_all cs m)
  unfolding perform_all
  stays-IsValid [] m h = h
  stays-IsValid (c ∷ cs) m h = stays-IsValid cs (perform c m) (perform-IsValid c m h)

  -- After any calls of a new manager, whatever they raised, the effective document is the default one
  -- or one that passes the validation, and the sources are those of its own settings.
  pub perform_all-IsValid :
      (cs : List (Call F J)) (files : List (Key × J)) → IsValid (perform_all cs (initial lib files))
  perform_all-IsValid cs files = stays-IsValid cs (initial lib files) (by_default refl refl)
