-- ===== src/Postgres/Migrate/Answering.antt =====
-- `MigrateUp` of pkg/postgres/migrate.go answers: it does not panic.
use iotencoder.Common.{◌≢◌, Text, List, Option, none, some, Error, panic, arith}
use iotencoder.Postgres.Migrate.{
  Migrations, unless_no_change, get_migrator, migrate_with, migrate_up,
}

module _ {V : Type 0} (m : Migrations V) (asset_names : List Text) where
  unless_no_change-no_panic : (o : Option Error) → unless_no_change o ≢ panic
  unfolding unless_no_change
  unless_no_change-no_panic none e = ground (arith, e)
  unless_no_change-no_panic (some x) e = ground (arith, e)

  migrate_with-no_panic :
      (d : Option Error × V)
      → (migrate_with (λ w. let (e, w') = m.up w in (unless_no_change e, w')) d).0 ≢ panic
  unfolding migrate_with
  migrate_with-no_panic (some e, v) h = ground (arith, h)
  migrate_with-no_panic (none, v) h = unless_no_change-no_panic (m.up v).0 h

  pub migrate_up-no_panic : (v : V) → (migrate_up m asset_names v).0 ≢ panic
  unfolding migrate_up
  migrate_up-no_panic v = migrate_with-no_panic (get_migrator m asset_names v)
