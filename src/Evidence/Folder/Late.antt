-- ===== src/Evidence/Folder/Late.antt =====
-- An event behind the manifest.
use mathlib.Core.Path.{subst}
use hp34401a_driver.Base.{
  ℕ, ◌<◌, Bool, true, false, Option, none, some, List, [], ◌∷◌, ◌++◌, map, All, ◌≡◌, refl, sym, ◌∙◌,
  ap, ◌≢◌, String, arith, if◌then◌else◌,
}
use hp34401a_driver.Base.Text.{codes}
use hp34401a_driver.Base.Dict.{Key, same_key, same_key-eq, find}
use hp34401a_driver.Evidence.Records.{Event, Run}
use hp34401a_driver.Evidence.Run.{finalize}
use hp34401a_driver.Evidence.Run.Trail.{finalize-events}
use hp34401a_driver.Evidence.Validate.{
  Stored, Entry, Directory, Finding, findings_of, check_entry, check_listed, paths_of,
  check_manifest, check_run_summary, check_jsonl_streams, validate,
}
use hp34401a_driver.Evidence.Folder.{
  Content, event_lines, Folder, finalize_folder, table, present, stored, entry_of, manifest_table,
  on_disk, write_manifest,
}
use hp34401a_driver.Evidence.Folder.Found.{find-present, missing_step}

nothing_left : {A : Type 0} (xs ys : List A) → xs ++ ys ≡ [] → (xs ≡ []) × (ys ≡ [])
nothing_left [] ys h = (refl, h)
nothing_left (x ∷ xs) ys h = ground (arith, h)

each_passes :
    {A : Type 0} (f : A → List Finding) (xs : List A)
    → findings_of f xs ≡ []
    → All (λ x. f x ≡ []) xs
each_passes f [] h = tt
each_passes f (x ∷ xs) h =
    let (a, b) = nothing_left (f x) (findings_of f xs) h in (a, each_passes f xs b)

entries_of_validate :
    (files : List (Key × Stored)) (es : List Entry)
    → validate (record { exists = true; files = files; manifest = some es }) ≡ []
    → All (λ e. check_entry files e ≡ []) es
unfolding validate check_manifest
entries_of_validate files es h =
    let d : Directory = record { exists = true; files = files; manifest = some es } in
    let (a, b) = nothing_left (check_run_summary d) (check_manifest d ++ check_jsonl_streams d) h in
    let (m, c) = nothing_left (check_manifest d) (check_jsonl_streams d) b in
    let (x, y) =
      nothing_left (findings_of (check_entry files) es)
        (findings_of (check_listed (paths_of es)) files) m in
    each_passes (check_entry files) es x

branch :
    {A : Type 0} (b : Bool) (x y : A) (c : Bool)
    → b ≡ c
    → (if b then x else y) ≡ (if c then x else y)
branch b x y c e = rw e refl

-- A list with one more value at its end has a first one.
snoc-cons :
    {A : Type 0} (xs : List A) (y : A) → (x : A) × (rest : List A) × (xs ++ y ∷ [] ≡ x ∷ rest)
snoc-cons [] y = (y, [], refl)
snoc-cons (x ∷ xs) y = (x, xs ++ y ∷ [], refl)

module _ {F : Type 0} (length_of : Content F → ℕ) (sha256_of : Content F → Key) where
  same_entry :
      (P : Entry → Type 0) (k j : Key) (b c : Content F)
      → k ≡ j
      → b ≡ c
      → P (entry_of length_of sha256_of (j, b))
      → P (entry_of length_of sha256_of (k, c))
  same_entry P k j b c p q h =
      subst (λ x. P (entry_of length_of sha256_of (x, c))) (sym p)
        (subst (λ y. P (entry_of length_of sha256_of (j, y))) q h)

  entry_step :
      (P : Entry → Type 0) (k j : Key) (b c : Content F) (o : Option (Option (Content F)))
      (q : Bool)
      → same_key k j ≡ q
      → (if q then some (some b) else o) ≡ some (some c)
      → P (entry_of length_of sha256_of (j, b))
      → (o ≡ some (some c) → P (entry_of length_of sha256_of (k, c)))
      → P (entry_of length_of sha256_of (k, c))
  entry_step P k j b c o true p e h rest = same_entry P k j b c (same_key-eq k j p) (cc) h
  entry_step P k j b c o false p e h rest = rest e

  -- The entry of a file that is there.
  entry_at :
      (P : Entry → Type 0) (k : Key) (c : Content F) (t : List (Key × Option (Content F)))
      → find k t ≡ some (some c)
      → All P (map (entry_of length_of sha256_of) (present t))
      → P (entry_of length_of sha256_of (k, c))
  unfolding find
  entry_at P k c [] e h = absurd (ground (arith, e))
  entry_at P k c ((j, none) ∷ more) e h =
      entry_at P k c more (missing_step (same_key k j) c (find k more) e) h
  entry_at P k c ((j, some b) ∷ more) e (h, hs) =
      entry_step P k j b c (find k more) (same_key k j) refl e h (λ e'. entry_at P k c more e' hs)

  size_differs :
      (files : List (Key × Stored)) (k : Key) (c c' : Content F)
      → find k files ≡ some (stored length_of sha256_of (k, c')).1
      → length_of c < length_of c'
      → check_entry files (entry_of length_of sha256_of (k, c)) ≡ []
      → ⊥
  unfolding check_entry
  size_differs files k c c' f l h = ground (arith, f, l, h)

  -- A later event makes its file longer.
  abbrev pub Grows : Type 0
  Grows =
      (es : List (Event F)) (x : Event F) (more : List (Event F))
      → length_of (event_lines es) < length_of (event_lines (es ++ x ∷ more))

  stale_manifest :
      (d : Folder F) (r : Run F) (e : Event F) (es : List (Event F)) (x : Event F)
      (more : List (Event F))
      → Grows
      → d.run.events ≡ e ∷ es
      → r.events ≡ (e ∷ es) ++ x ∷ more
      → validate
          (on_disk length_of sha256_of (record (write_manifest length_of sha256_of d) { run = r }))
        ≢ []
  unfolding on_disk write_manifest find
  stale_manifest d r e es x more grows old new h =
      let listed = map (entry_of length_of sha256_of) (present (table d.run)) in
      let files =
        map (stored length_of sha256_of) (present (table r ++ manifest_table (some listed))) in
      let path = codes "events/events.jsonl" in
      size_differs files path (event_lines (e ∷ es)) (event_lines ((e ∷ es) ++ x ∷ more))
        (find-present length_of sha256_of path (event_lines ((e ∷ es) ++ x ∷ more))
          (table r ++ manifest_table (some listed)) (rw new refl))
        (grows (e ∷ es) x more)
        (entry_at (λ e. check_entry files e ≡ []) path (event_lines (e ∷ es)) (table d.run)
          (rw old refl) (entries_of_validate files listed h))

  finalize_folder-open :
      (status : String) (d : Folder F)
      → d.run.finalized ≡ false
      → finalize_folder length_of sha256_of status d
        ≡ write_manifest length_of sha256_of (record d { run = finalize status d.run })
  unfolding finalize_folder
  finalize_folder-open status d h =
      branch d.run.finalized d
        (write_manifest length_of sha256_of (record d { run = finalize status d.run })) false h

  finalize_folder-closed :
      (status : String) (d : Folder F)
      → d.run.finalized ≡ true
      → finalize_folder length_of sha256_of status d ≡ d
  unfolding finalize_folder
  finalize_folder-closed status d h =
      branch d.run.finalized d
        (write_manifest length_of sha256_of (record d { run = finalize status d.run })) true h

  -- What is known of a run that goes on behind the close of its directory.
  abbrev GoesOn : Folder F → Run F → Event F → Type 0
  GoesOn closed r x =
      (r.events ≡ closed.run.events ++ x ∷ []) × (r.finalized ≡ closed.run.finalized)

  written_late :
      (again status : String) (d : Folder F) (r : Run F) (x : Event F)
      → Grows
      → d.run.finalized ≡ false
      → let w = write_manifest length_of sha256_of (record d { run = finalize status d.run }) in
        GoesOn w r x
        → validate (
            on_disk length_of sha256_of
              (finalize_folder length_of sha256_of again (record w { run = r })))
          ≢ []
  unfolding write_manifest
  written_late again status d r x grows is_open (events, ended) h =
      let (y, told, closed) = finalize-events status d.run is_open in
      let (e, es, first) = snoc-cons d.run.events y in
      let closing = record d { run = finalize status d.run } in
      let late = record (write_manifest length_of sha256_of closing) { run = r } in
      stale_manifest closing r e es x [] grows (told ∙ first)
        (events ∙ ap (λ l. l ++ x ∷ []) (told ∙ first))
        (ap (λ f. validate (on_disk length_of sha256_of f))
            (sym (finalize_folder-closed again late (ended ∙ closed)))
          ∙ h)

  -- The directory of a finalized run, and one more event.
  pub late_event :
      (d : Folder F) (status again : String) (closed : Folder F) (r : Run F) (x : Event F)
      → Grows
      → d.run.finalized ≡ false
      → closed ≡ finalize_folder length_of sha256_of status d
      → r.events ≡ closed.run.events ++ x ∷ []
      → r.finalized ≡ closed.run.finalized
      → validate (
          on_disk length_of sha256_of
            (finalize_folder length_of sha256_of again (record closed { run = r })))
        ≢ []
  late_event d status again closed r x grows is_open is_closed events ended =
      subst
        (λ (c : Folder F).
          GoesOn c r x
          → validate (
              on_disk length_of sha256_of
                (finalize_folder length_of sha256_of again (record c { run = r })))
            ≢ [])
        (sym (is_closed ∙ finalize_folder-open status d is_open))
        (λ go. written_late again status d r x grows is_open go) (events, ended)
