-- ===== src/Server/Tests.antt =====
-- The theorems on the start and the stop of the server at a small one.
use iotencoder.Common.{
  ℕ, ◌==◌, ◌≡◌, ◌≢◌, refl, arith, codes, List, [], ◌∷◌, Option, none, some, Error, new, no_change,
  ok, panic, if◌then◌else◌,
}
use iotencoder.Common.Float.{Whole, whole_float}
use iotencoder.Postgres.Migrate.{Migrations, migrate_up}
use iotencoder.Mqtt.{new_client}
use iotencoder.Rpc.Encoder.{start}
use iotencoder.Rpc.Encoder.Starting.{undisturbed}
use iotencoder.Rpc.Encoder.Tests.{encoder, state, drawn, delete_request}
use iotencoder.Rpc.Tests.{request, barcelona}
use iotencoder.Server.{
  Request, creating, deleting, message, serve_all, Platform, pool_closed, shut, new_server,
  start_server,
}
use iotencoder.Server.Ending.{AllEnded, over_mqtt}
use iotencoder.Server.Outcome.{End, start_server-End}
use iotencoder.Postgres.Streams.Schema.{IsConsistent}
use iotencoder.Server.Consistent.{start_server-IsConsistent}
use iotencoder.Server.Quiet.{quiet_platform, start_server-ok}

-- The schema is up to date.
abbrev settled : Migrations (Unit {0})
settled = record {
  database_driver = λ v. (none, v);
  source_driver = λ names. none;
  new_with_instance = λ v. (none, v);
  up = λ v. (some no_change, v);
  down = λ v. (none, v);
  steps = λ n v. (none, v);
}

-- The pool cannot be closed.
abbrev platform : Platform (Unit {0})
platform = record {
  open_error = none;
  close_error = some (new "busy");
  shutdown_error = none;
  migrations = settled;
  asset_names = [];
}

abbrev requests : List (Request Whole)
requests =
    creating drawn (request barcelona)
    ∷ deleting delete_request
    ∷ message (codes "other") (codes "[]")
    ∷ []

abbrev faults : ℕ → Option Error
faults n = if n == 1 then some (new "refused") else none

start_server-End_example : End platform faults encoder [] requests state (
    start_server platform
      (over_mqtt faults encoder)
      []
      requests
      (new_server tt state.session state.work))
start_server-End_example = start_server-End platform faults encoder [] requests state tt

settled_up : (migrate_up settled [] tt).0 ≡ ok tt
unfolding migrate_up
settled_up = refl

abbrev messages : List (Request Whole)
messages = deleting (record { stream_uid = []; token = [] }) ∷ []

no_panic :
    (serve_all
      (undisturbed encoder)
      messages
      (start (undisturbed encoder) (record state { client = new_client })).1).0
    ≢ panic
unfolding serve_all
no_panic e = ground (arith, e)

start_server-ok_example :
    let (r, s) =
      start_server
        (quiet_platform settled [])
        (undisturbed encoder)
        []
        messages
        (new_server tt state.session state.work) in
    (r ≡ ok tt) × (s.pool ≡ pool_closed) × (s.listener ≡ shut) × AllEnded (λ _. none) s.state.client
start_server-ok_example =
    start_server-ok settled [] encoder [] messages tt state settled_up no_panic

start_server-IsConsistent_example :
    IsConsistent
      (start_server platform
        (over_mqtt faults encoder)
        []
        requests
        (new_server tt state.session state.work)).1.state.session.db
start_server-IsConsistent_example =
    start_server-IsConsistent (over_mqtt faults encoder) platform [] requests
      (new_server tt state.session state.work)
      (record { below = tt; distinct_devices = tt; distinct_streams = tt; owned = tt })
