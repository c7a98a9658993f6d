-- ===== src/Mqtt.antt =====
-- pkg/mqtt/mqtt.go: one connection for each broker and user name, made when it is first needed. Of the
-- paho library the error of each call (connect, subscribe, unsubscribe) is a parameter. A connection
-- is the number of the call that made it, and the log lists what paho was told. The options of a
-- client, whose making never fails, and the handlers that only log are left out, and a method is one
-- step.
pub mod Connections
pub mod Subscriptions
pub mod Threads
pub mod Topics
mod Tests
use iotencoder.Common.{
  ℕ, ◌+◌, Text, codes, List, [], ◌∷◌, ◌++◌, map, Option, none, some, Error, Result, ok, err, panic,
  wrap,
}
use iotencoder.Common.Dict.{Dict, lookup, insert}

-- What paho was told, with the connection's number; `connected` also has the key.
pub data Event : Type 0 where
  connected : Text → ℕ → Event
  subscribed : ℕ → Text → Event
  unsubscribed : ℕ → Text → Event
  disconnected : ℕ → Event

-- `client`, the calls of paho so far, and its log, the latest event last.
pub record Client : Type 0 where
  pub clients : Dict ℕ
  pub calls : ℕ
  pub log : List Event

-- `NewClient`
abbrev pub new_client : Client
new_client = record { clients = []; calls = 0; log = [] }

-- `key` in `getClient`
unfoldable pub client_key : Text → Text → Text
client_key broker username = broker ++ (b':' ∷ username)

unfoldable pub build_topic : Text → Text
build_topic token = codes "device/sck/" ++ (token ++ codes "/readings")

-- The handler of `Subscribe` counts the message under its broker and calls back.
count_message : Text → Dict ℕ → Option ℕ → Dict ℕ
count_message broker counts none = insert broker 1 counts
count_message broker counts (some n) = insert broker (n + 1) counts

unfoldable pub handle :
    {S : Type 0} → Text → (Text → Text → S → S) → Text → Text → Dict ℕ × S → Dict ℕ × S
unfolding count_message
handle broker callback topic payload (counts, s) =
    (count_message broker counts (lookup broker counts), callback topic payload s)

module _ (faults : ℕ → Option Error) where
  -- The answer to the next call of paho; if it is no error, the event is logged.
  unfoldable pub answered : Event → Client → Option Error → Result (Unit {0}) × Client
  answered e c none = (ok tt, record c { calls = c.calls + 1; log = c.log ++ (e ∷ []) })
  answered e c (some x) = (err x, record c { calls = c.calls + 1 })

  unfoldable pub tell : Event → Client → Result (Unit {0}) × Client
  unfolding answered
  tell e c = answered e c (faults c.calls)

  -- `connect` and the rest of `getClient`, where the map has no client for the key.
  unfoldable pub connect : Text → Client → Option Error → Result ℕ × Client
  connect key c none = (
    ok c.calls,
    record {
      clients = insert key c.calls c.clients;
      calls = c.calls + 1;
      log = c.log ++ (connected key c.calls ∷ []);
    },
  )
  connect key c (some e) = (
    err (wrap (wrap e "failed to connect to broker") "failed to connect to broker"),
    record c { calls = c.calls + 1 },
  )

  unfoldable pub found : Text → Client → Option ℕ → Result ℕ × Client
  unfolding connect
  found key c (some n) = (ok n, c)
  found key c none = connect key c (faults c.calls)

  -- `getClient`
  unfoldable pub get_client : Text → Text → Client → Result ℕ × Client
  unfolding found client_key
  get_client broker username c =
      let key = client_key broker username in found key c (lookup key c.clients)

  -- What `Subscribe` and `Unsubscribe` do with the answer of `getClient`.
  unfoldable pub with_client : (ℕ → Event) → Result ℕ × Client → Result (Unit {0}) × Client
  unfolding tell
  with_client event (ok n, c) = tell (event n) c
  with_client event (err e, c) = (err (wrap e "failed to get client"), c)
  with_client event (panic, c) = (panic, c)

  -- `Subscribe`
  unfoldable pub subscribe : Text → Text → Text → Client → Result (Unit {0}) × Client
  unfolding get_client with_client build_topic
  subscribe broker username token c =
      with_client (λ n. subscribed n (build_topic token)) (get_client broker username c)

  -- `Unsubscribe`
  unfoldable pub unsubscribe : Text → Text → Text → Client → Result (Unit {0}) × Client
  unfolding get_client with_client build_topic
  unsubscribe broker username token c =
      with_client (λ n. unsubscribed n (build_topic token)) (get_client broker username c)

-- `Stop`: every client of the map is disconnected and deleted from it.
unfoldable pub stop : Client → Client
stop c = record {
  clients = [];
  calls = c.calls;
  log = c.log ++ map (λ (key, n). disconnected n) c.clients;
}
