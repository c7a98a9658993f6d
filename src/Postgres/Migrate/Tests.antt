-- ===== src/Postgres/Migrate/Tests.antt =====
-- The theorem on the files of a migration with a small file system.
use iotencoder.Common.{
  ◌≡◌, ◌≢◌, ◌⊎◌, codes, true, false, [], ◌++◌, none, some, Error, external, err, ltb, if◌then◌else◌,
}
use iotencoder.Postgres.Migrate.{Fs, Outside, all_letters, new_migration}
use iotencoder.Postgres.Migrate.Files.{Made, new_migration-Outcome}

-- The second file cannot be made.
abbrev outside : Outside
outside = record {
  stamp = codes "20180525115614";
  camel_to_snake = λ name. name;
  join = λ dir file. dir ++ (codes "/" ++ file);
  faults = λ n. if ltb 1 n then some (external "disk full") else none;
}

abbrev before : Fs
before = record { directories = []; files = λ _. false; calls = 0 }

new_migration-Outcome_example :
    let name = codes "devices" in
    let (r, s') = new_migration outside (codes "sql") name before in
    (((name ≡ []) ⊎ (all_letters name ≡ false)) × ((e : Error) × (r ≡ err e)) × (s' ≡ before))
    ⊎ ((name ≢ [])
        × (all_letters name ≡ true)
        × Made outside (codes "sql") name before.files r s'.files)
new_migration-Outcome_example = new_migration-Outcome outside (codes "sql") (codes "devices") before
