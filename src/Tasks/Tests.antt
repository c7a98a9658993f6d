-- ===== src/Tasks/Tests.antt =====
-- The theorems on the commands at concrete flags and platforms.
use iotencoder.Common.{
  ℕ, ◌≡◌, refl, codes, false, [], map, replicate, none, some, Error, wrap, external, err,
}
use iotencoder.Common.Float.{whole_float}
use iotencoder.Postgres.Migrate.{migrate_up}
use iotencoder.Rpc.Encoder.Tests.{encoder, state}
use iotencoder.Server.{Platform, pool_open}
use iotencoder.Tasks.{Flags, retry}
use iotencoder.Tasks.Attempts.{retry_pools}

abbrev flags : Flags
flags = record {
  addr = codes ":8081";
  datastore = codes "http://datastore:8080";
  database_url = [];
  encryption_password = codes "secret";
  verbose = false;
  broker_addr = codes "tcps://mqtt.smartcitizen.me:8883";
  broker_username = [];
  domains = [];
}

-- The database answers no query.
abbrev down : Platform (Unit {0})
down = record {
  open_error = none;
  close_error = none;
  shutdown_error = none;
  migrations = record {
    database_driver = λ v. (some (external "connection refused"), v);
    source_driver = λ names. none;
    new_with_instance = λ v. (none, v);
    up = λ v. (none, v);
    down = λ v. (none, v);
    steps = λ n v. (none, v);
  };
  asset_names = [];
}

down_migrates_not :
    (i : ℕ) (v : Unit {0})
    → (e : Error) × ((migrate_up down.migrations down.asset_names v).0 ≡ err e)
unfolding migrate_up
down_migrates_not i v = (wrap (external "connection refused") "failed to create migrator", refl)

retry_pools_example :
    map
      (λ s. s.pool)
      (retry
        (λ i. down)
        (λ i. encoder)
        []
        (λ i. [])
        state.work
        (external "deadline exceeded")
        3
        0
        tt
        state.session).1
    ≡ replicate 3 pool_open
retry_pools_example =
    retry_pools (λ i. down) (λ i. encoder) [] (λ i. []) state.work (external "deadline exceeded") 3
      0 tt state.session (λ i. refl) down_migrates_not
