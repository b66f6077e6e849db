-- ===== src/Startup/Migrator.antt =====
-- internal/db/migrator.go: bringing the tables to the last version.
use sufirmart.Base.{
  inl, inr, ◌⊎◌, ◌≡◌, refl, ◌∙◌, ap, ℕ, Bool, true, false, Option, none, some, ◌++◌, Str, bytes,
}

-- What golang-migrate returns; any other error stands as its text.
pub data MigrateError : Type 0 where
  no_change nil_version : MigrateError
  migrate_failed : Str → MigrateError

-- The library golang-migrate on a database of type `M`: `with_instance` is postgres.WithInstance,
-- `source` is NewWithDatabaseInstance. A version is a number and whether it is dirty.
pub record Migrate (M : Type 0) : Type 0 where
  pub with_instance : M → Option MigrateError × M
  pub source : Str → M → Option MigrateError × M
  pub version : M → MigrateError ⊎ (ℕ × Bool)
  pub force : ℕ → M → Option MigrateError × M
  pub up : M → Option MigrateError × M

module _ {M : Type 0} (lib : Migrate M) where
  -- Where a call has returned no error.
  abbrev pub and_then :
      Option MigrateError × M → (M → Option MigrateError × M) → Option MigrateError × M
  and_then (some e, m) next = (some e, m)
  and_then (none, m) next = next m

  -- The version after, and its error.
  last_version : MigrateError ⊎ (ℕ × Bool) → M → Option MigrateError × M
  last_version (inl e) m = (some e, m)
  last_version (inr v) m = (none, m)

  -- An error of Up that is not ErrNoChange ends the method.
  tolerate : Option MigrateError → Option MigrateError
  tolerate none = none
  tolerate (some no_change) = none
  tolerate (some e) = some e

  climb : M → Option MigrateError × M
  unfolding last_version tolerate
  climb m =
      let (failed, m') = lib.up m in
      and_then (tolerate failed, m') (λ after. last_version (lib.version after) after)

  -- A dirty version is forced; no version is not an error.
  clean_up : MigrateError ⊎ (ℕ × Bool) → M → Option MigrateError × M
  clean_up (inl e) m = (none, m)
  clean_up (inr (v, false)) m = (none, m)
  clean_up (inr (v, true)) m = lib.force v m

  -- Up
  unfoldable pub up : Str → M → Option MigrateError × M
  unfolding clean_up climb
  up dir m = and_then (lib.with_instance m) λ joined.
      and_then (lib.source (bytes "file:" ++ dir) joined)
        λ opened. and_then (clean_up (lib.version opened) opened) climb

  -- What golang-migrate documents, with `latest` as the last version in the directory: `view` is the
  -- version in the database. Joining changes no version; Force sets a clean version; Up stops at a
  -- dirty version, and otherwise ends at the last version or changes nothing there.
  pub record IsMigrate (latest : ℕ) (view : M → Option (ℕ × Bool)) : Type 0 where
    pub joins : (m : M) → view (lib.with_instance m).1 ≡ view m
    pub opens : (dir : Str) (m : M) → view (lib.source dir m).1 ≡ view m
    pub reads : (m : M) → lib.version m ≡ elim (view m) [ none ↦ inl nil_version | some v ↦ inr v ]
    pub forces :
        (v : ℕ) (m : M) → (lib.force v m).0 ≡ none → view (lib.force v m).1 ≡ some (v, false)
    pub climbs : (m : M) → (lib.up m).0 ≡ none → view (lib.up m).1 ≡ some (latest, false)
    pub rests :
        (m : M)
        → (lib.up m).0 ≡ some no_change
        → (view (lib.up m).1 ≡ view m) × (view m ≡ some (latest, false))
    pub idles : (m : M) → view m ≡ some (latest, false) → (lib.up m).0 ≡ some no_change

  and_then-none :
      (r : Option MigrateError × M) (next : M → Option MigrateError × M)
      → (and_then r next).0 ≡ none
      → (r.0 ≡ none) × (and_then r next ≡ next r.1)
  and_then-none (some e, m) next h = cc
  and_then-none (none, m) next h = (refl, refl)

  and_then-ok :
      (r : Option MigrateError × M) (next : M → Option MigrateError × M)
      → r.0 ≡ none
      → and_then r next ≡ next r.1
  and_then-ok (some e, m) next h = cc
  and_then-ok (none, m) next h = refl

  last_version-state : (v : MigrateError ⊎ (ℕ × Bool)) (m : M) → (last_version v m).1 ≡ m
  unfolding last_version
  last_version-state (inl e) m = refl
  last_version-state (inr v) m = refl

  module _ {latest : ℕ} {view : M → Option (ℕ × Bool)} (law : IsMigrate latest view) where
    climb_end : Option MigrateError × M → Option MigrateError × M
    climb_end r = and_then (tolerate r.0, r.1) (λ after. last_version (lib.version after) after)

    climb_end-latest :
        (r : Option MigrateError × M)
        → (r.0 ≡ none → view r.1 ≡ some (latest, false))
        → (r.0 ≡ some no_change → view r.1 ≡ some (latest, false))
        → (climb_end r).0 ≡ none
        → view (climb_end r).1 ≡ some (latest, false)
    unfolding climb_end tolerate
    climb_end-latest (none, m) h k e = rw (last_version-state (lib.version m) m) (h refl)
    climb_end-latest (some no_change, m) h k e = rw (last_version-state (lib.version m) m) (k refl)
    climb_end-latest (some nil_version, m) h k e = cc
    climb_end-latest (some (migrate_failed x), m) h k e = cc

    climb-latest : (m : M) → (climb m).0 ≡ none → view (climb m).1 ≡ some (latest, false)
    unfolding climb climb_end
    climb-latest m e =
        climb_end-latest (lib.up m) (law.climbs m) (λ k. (law.rests m k).0 ∙ (law.rests m k).1) e

    climb-at_latest : (m : M) → view m ≡ some (latest, false) → climb m ≡ (none, (lib.up m).1)
    unfolding climb tolerate last_version
    climb-at_latest m e =
        let idle = law.idles m e in
        let there : view (lib.up m).1 ≡ some (latest, false) = (law.rests m idle).0 ∙ e in
        rw (idle, law.reads (lib.up m).1, there) refl

    dirty-version : (m : M) → view m ≡ some (latest, true) → lib.version m ≡ inr (latest, true)
    dirty-version m e = rw (law.reads m, e) refl

    module _ (dir : Str) (m : M) where
      -- The database after it was joined and the directory opened.
      abbrev pub opened : M
      opened = (lib.source (bytes "file:" ++ dir) (lib.with_instance m).1).1

      cleaned : Option MigrateError × M
      cleaned = clean_up (lib.version opened) opened

      -- If Up returns no error, the database is at the last version, and clean.
      pub up-latest : (up dir m).0 ≡ none → view (up dir m).1 ≡ some (latest, false)
      unfolding up clean_up cleaned
      up-latest e =
          let (joined, first) = and_then-none (lib.with_instance m) _ e in
          let (found, second) =
            and_then-none (lib.source (bytes "file:" ++ dir) (lib.with_instance m).1) _
              (rw first at e) in
          let (fixed, third) = and_then-none cleaned climb (rw (first, second) at e) in
          let all : up dir m ≡ climb cleaned.1 = first ∙ second ∙ third in
          rw all (climb-latest cleaned.1 (rw all at e))

      -- A database that its last migration has left dirty passes: where Up has joined the database and
      -- opened the directory, it forces the version, which is clean then; the one call of the
      -- library's Up after that answers that nothing is to be done; and the method returns no error,
      -- with the database as that call leaves it, at the last version. The conditions: golang-migrate
      -- does what it documents, and joining the database, opening the directory and Force return no
      -- error.
      pub up_dirty :
          view m ≡ some (latest, true)
          → ((n : M) → (lib.with_instance n).0 ≡ none)
          → ((n : M) → (lib.source (bytes "file:" ++ dir) n).0 ≡ none)
          → ((n : M) → (lib.force latest n).0 ≡ none)
          → (view (lib.force latest opened).1 ≡ some (latest, false))
            × ((lib.up (lib.force latest opened).1).0 ≡ some no_change)
            × (up dir m ≡ (none, (lib.up (lib.force latest opened).1).1))
            × (view (up dir m).1 ≡ some (latest, false))
      unfolding up clean_up cleaned
      up_dirty e joins finds forces =
          let there : view opened ≡ some (latest, true) =
            law.opens _ (lib.with_instance m).1 ∙ law.joins m ∙ e in
          let forced : cleaned ≡ lib.force latest opened = rw (dirty-version opened there) refl in
          let all : up dir m ≡ climb (lib.force latest opened).1 =
            and_then-ok (lib.with_instance m) _ (joins m)
            ∙ and_then-ok (lib.source (bytes "file:" ++ dir) (lib.with_instance m).1) _ (finds _)
            ∙ ap (λ r. and_then r climb) forced
            ∙ and_then-ok (lib.force latest opened) climb (forces opened) in
          let clean = law.forces latest opened (forces opened) in
          let ended = all ∙ climb-at_latest _ clean in
          (clean, law.idles _ clean, ended, up-latest (ap (λ r. r.0) ended))
