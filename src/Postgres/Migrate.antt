-- ===== src/Postgres/Migrate.antt =====
-- pkg/postgres/migrate.go: the runs of the migrations, and the making of the files of a new one. The
-- library golang-migrate is a parameter over the state that it works on, and so are the time, the
-- library that turns a name to snake case, the join of paths, and the errors of the calls of `os`. The
-- logger is left out.
pub mod Files
pub mod Answering
mod Tests
use iotencoder.Common.{
  ℕ, ◌+◌, ◌^◌, ◌==◌, ℤ, pos, negsuc, sub_ℕ, ◌&&◌, ◌||◌, Text, codes, is_empty, leb, Bool, true,
  false, List, [], ◌∷◌, ◌++◌, Option, none, some, Error, Result, ok, err, new, wrap, no_change,
  if◌then◌else◌, String, text_eq,
}

-- What is called of golang-migrate: the two drivers, the migrator over them, and its methods.
pub record Migrations (V : Type 0) : Type 0 where
  pub database_driver : V → Option Error × V
  pub source_driver : List Text → Option Error
  pub new_with_instance : V → Option Error × V
  pub up : V → Option Error × V
  pub down : V → Option Error × V
  pub steps : ℤ → V → Option Error × V

-- The error of `MigrateUp` and `MigrateDownAll`: no change is none.
unfoldable pub unless_no_change : Option Error → Result (Unit {0})
unless_no_change (some no_change) = ok tt
unless_no_change (some e) = err e
unless_no_change none = ok tt

unfoldable pub as_result : Option Error → Result (Unit {0})
as_result none = ok tt
as_result (some e) = err e

-- `-steps` on a 64-bit `int`: the least one is its own negation.
unfoldable pub negated : ℤ → ℤ
negated (pos n) = sub_ℕ 0 n
negated (negsuc n) = if n + 1 == 2 ^ 63 then negsuc n else pos (n + 1)

-- A method of the migrator, if there is one.
unfoldable pub migrate_with :
    {V : Type 0} → (V → Result (Unit {0}) × V) → Option Error × V → Result (Unit {0}) × V
migrate_with method (some e, v) = (err (wrap e "failed to create migrator"), v)
migrate_with method (none, v) = method v

module _ {V : Type 0} (migrations : Migrations V) (asset_names : List Text) where
  open migrations use {database_driver, source_driver, new_with_instance, up, down, steps}

  -- `getMigrator`: the migrator has no state of its own here.
  unfoldable pub with_source : Option Error → V → Option Error × V
  with_source (some e) v = (some e, v)
  with_source none v = new_with_instance v

  unfoldable pub with_database : Option Error × V → Option Error × V
  unfolding with_source
  with_database (some e, v) = (some e, v)
  with_database (none, v) = with_source (source_driver asset_names) v

  unfoldable pub get_migrator : V → Option Error × V
  unfolding with_database
  get_migrator v = with_database (database_driver v)

  -- `MigrateUp`
  unfoldable pub migrate_up : V → Result (Unit {0}) × V
  unfolding get_migrator migrate_with unless_no_change
  migrate_up v = migrate_with (λ w. let (e, w') = up w in (unless_no_change e, w')) (get_migrator v)

  -- `MigrateDown`
  unfoldable pub migrate_down : ℤ → V → Result (Unit {0}) × V
  unfolding get_migrator migrate_with as_result negated
  migrate_down n v =
      migrate_with (λ w. let (e, w') = steps (negated n) w in (as_result e, w')) (get_migrator v)

  -- `MigrateDownAll`
  unfoldable pub migrate_down_all : V → Result (Unit {0}) × V
  unfolding get_migrator migrate_with unless_no_change
  migrate_down_all v =
      migrate_with (λ w. let (e, w') = down w in (unless_no_change e, w')) (get_migrator v)

-- The file system as `NewMigration` changes it: the directories made, whether there is a file at a
-- path, and the calls of `os` so far.
pub record Fs : Type 0 where
  pub directories : List Text
  pub files : Text → Bool
  pub calls : ℕ

-- What `NewMigration` takes from other code: the time in its layout, the name in snake case, the join
-- of a directory and a file name, and the error of each call of `os`.
pub record Outside : Type 0 where
  pub stamp : Text
  pub camel_to_snake : Text → Text
  pub join : Text → Text → Text
  pub faults : ℕ → Option Error

-- A byte that the pattern takes, and the pattern `\A[a-zA-Z]+\z` on a name that is not empty.
unfoldable pub is_letter : ℕ → Bool
is_letter c = (leb b'a' c && leb c b'z') || (leb b'A' c && leb c b'Z')

unfoldable pub all_letters : Text → Bool
unfolding is_letter
all_letters [] = true
all_letters (c ∷ s) = is_letter c && all_letters s

module _ (outside : Outside) where
  open outside use {stamp, camel_to_snake, join, faults}

  unfoldable pub migration_id : Text → Text
  migration_id name = stamp ++ (b'_' ∷ camel_to_snake name)

  unfoldable pub up_file : Text → Text → Text
  unfolding migration_id
  up_file dir name = join dir (migration_id name ++ codes ".up.sql")

  unfoldable pub down_file : Text → Text → Text
  unfolding migration_id
  down_file dir name = join dir (migration_id name ++ codes ".down.sql")

  abbrev made_directory : Text → Fs → Fs
  made_directory dir s = record s { directories = s.directories ++ (dir ∷ []); calls = s.calls + 1 }

  -- `os.Create` truncates a file that is there.
  abbrev made_file : Text → Fs → Fs
  made_file path s = record s { files = λ p. text_eq p path || s.files p; calls = s.calls + 1 }

  -- The answers of the calls of `os`, from the last one on.
  unfoldable pub down_created : Text → Text → Fs → Option Error → Result (Unit {0}) × Fs
  unfolding down_file
  down_created dir name s (some e) =
      (err (wrap e "failed to make down migration file"), record s { calls = s.calls + 1 })
  down_created dir name s none = (ok tt, made_file (down_file dir name) s)

  unfoldable pub up_created : Text → Text → Fs → Option Error → Result (Unit {0}) × Fs
  unfolding up_file down_created
  up_created dir name s (some e) =
      (err (wrap e "failed to make up migration file"), record s { calls = s.calls + 1 })
  up_created dir name s none =
      let s' = made_file (up_file dir name) s in down_created dir name s' (faults s'.calls)

  unfoldable pub directory_made : Text → Text → Fs → Option Error → Result (Unit {0}) × Fs
  unfolding up_created
  directory_made dir name s (some e) =
      (err (wrap e "failed to make directory for migrations"), record s { calls = s.calls + 1 })
  directory_made dir name s none =
      let s' = made_directory dir s in up_created dir name s' (faults s'.calls)

  -- `NewMigration`
  unfoldable pub new_migration : Text → Text → Fs → Result (Unit {0}) × Fs
  unfolding directory_made all_letters
  new_migration dir name s =
      if is_empty name
      then (err (new "Must specify a name when creating a migration"), s)
      else if all_letters name
      then directory_made dir name s (faults s.calls)
      else (
        err (new "Name must be a single CamelCased string with no numbers or special characters"),
        s,
      )
