-- ===== src/Postgres/Migrate/Files.antt =====
-- What `NewMigration` of pkg/postgres/migrate.go leaves in the file system.
use iotencoder.Common.{
  ◌+◌, ◌≡◌, ◌≢◌, ◌⊎◌, inl, inr, refl, ap, ◌||◌, Text, codes, text_eq, is_empty, Bool, true, false,
  Bool-cases, List, [], ◌∷◌, ◌++◌, Option, none, some, Error, Result, ok, err, arith,
}
use iotencoder.Postgres.Migrate.{
  Fs, Outside, all_letters, migration_id, up_file, down_file, down_created, up_created,
  directory_made, new_migration,
}

is_empty→nil : (t : Text) → is_empty t ≡ true → t ≡ []
is_empty→nil [] e = refl
is_empty→nil (c ∷ t) e = ground arith

-- The files are those before and the ones at some paths, from the last one.
abbrev pub Adds : List Text → (Text → Bool) → (Text → Bool) → Type 0
Adds [] before after = (p : Text) → after p ≡ before p
Adds (path ∷ paths) before after =
    (between : Text → Bool) × Adds paths before between
    × ((p : Text) → after p ≡ (text_eq p path || between p))

module _ (outside : Outside) (dir name : Text) where
  open outside use {stamp, camel_to_snake, join, faults}

  -- The path of a file of the migration, by the ending of its name: the id is the time and the name
  -- in snake case.
  abbrev pub path_of : Text → Text
  path_of ending = join dir ((stamp ++ (codes "_" ++ camel_to_snake name)) ++ ending)

  -- Both files were made, up to the first that could not be.
  abbrev pub Made : (Text → Bool) → Result (Unit {0}) → (Text → Bool) → Type 0
  Made files r files' =
      ((r ≡ ok tt)
        × Adds (path_of (codes ".down.sql") ∷ path_of (codes ".up.sql") ∷ []) files files')
      ⊎ ((e : Error) × (r ≡ err e)
          × (Adds [] files files' ⊎ Adds (path_of (codes ".up.sql") ∷ []) files files'))

  down_created-Made :
      (files : Text → Bool) (s : Fs) (o : Option Error)
      → Adds (path_of (codes ".up.sql") ∷ []) files s.files
      → let (r, s') = down_created outside dir name s o in Made files r s'.files
  unfolding down_created down_file migration_id
  down_created-Made files s (some e) h = inr (_, refl, inr h)
  down_created-Made files s none h = inl (refl, (s.files, h, λ p. refl))

  up_created-Made :
      (s : Fs) (o : Option Error)
      → let (r, s') = up_created outside dir name s o in Made s.files r s'.files
  unfolding up_created up_file migration_id
  up_created-Made s (some e) = inr (_, refl, inl λ p. refl)
  up_created-Made s none = down_created-Made s.files _ _ (s.files, (λ p. refl), λ p. refl)

  directory_made-Made :
      (s : Fs) (o : Option Error)
      → let (r, s') = directory_made outside dir name s o in Made s.files r s'.files
  unfolding directory_made
  directory_made-Made s (some e) = inr (_, refl, inl λ p. refl)
  directory_made-Made s none = up_created-Made _ (faults (s.calls + 1))

  -- A name that is empty or has anything but letters is refused with nothing touched. With any other
  -- name, new_migration succeeds and there are the files before and two more, in the directory, named
  -- by one id, the time and the name in snake case, with the endings `.up.sql` and `.down.sql`; or it
  -- answers an error with no file made or, when only the second cannot be, the first; it does not panic.
  pub new_migration-Outcome :
      (s : Fs)
      → let (r, s') = new_migration outside dir name s in
        (((name ≡ []) ⊎ (all_letters name ≡ false)) × ((e : Error) × (r ≡ err e)) × (s' ≡ s))
        ⊎ ((name ≢ []) × (all_letters name ≡ true) × Made s.files r s'.files)
  unfolding new_migration
  new_migration-Outcome s = elim (Bool-cases (is_empty name)) [
    | inl e ↦ rw e (inl (inl (is_empty→nil name e), (_, refl), refl))
    | inr e ↦ elim (Bool-cases (all_letters name)) [
      | inl l ↦ rw e (rw l (inr (nonempty e, refl, directory_made-Made s (faults s.calls))))
      | inr l ↦ rw e (rw l (inl (inr refl, (_, refl), refl)))
    ]
  ]
    where
      nonempty : is_empty name ≡ false → name ≢ []
      nonempty e q = ground (arith, ap is_empty q)
