-- ===== src/Mqtt/Tests.antt =====
-- The theorems on pkg/mqtt at concrete inputs.
use iotencoder.Common.{
  ℕ, ◌==◌, ◌≡◌, Text, codes, List, [], ◌∷◌, Option, none, some, Error, new, if◌then◌else◌,
}
use iotencoder.Common.Dict.{lookup}
use iotencoder.Mqtt.{connected, subscribed, Client, new_client, client_key, build_topic, stop}
use iotencoder.Mqtt.Connections.{
  Command, subscribing, unsubscribing, connections, disconnections, made_for, present, conns, run,
  stop_ends_connections,
}

-- The first connection cannot be made.
abbrev faults : ℕ → Option Error
faults n = if n == 0 then some (new "refused") else none

abbrev broker : Text
broker = codes "tcp://broker:1883"

abbrev commands : List Command
commands =
    subscribing broker [] (codes "one")
    ∷ subscribing broker [] (codes "two")
    ∷ unsubscribing broker (codes "user") (codes "two")
    ∷ []

stop_ends_connections_example :
    let c = run faults commands new_client in
    ((key : Text) → made_for key (connections c.log) ≡ present (lookup key c.clients))
    × (disconnections (stop c).log ≡ conns faults (connections c.log))
    × ((stop c).clients ≡ [])
stop_ends_connections_example = stop_ends_connections faults commands

abbrev never : ℕ → Option Error
never n = none

abbrev subscribed_client : Client
subscribed_client = record {
  clients = (client_key broker [], 0) ∷ [];
  calls = 2;
  log = connected (client_key broker []) 0 ∷ subscribed 0 (build_topic (codes "one")) ∷ [];
}
