-- ===== src/Rpc/Encoder/Synced/Runs.antt =====
-- Any run of the encoder of pkg/rpc/encoder.go after a start: creations, deletions and messages, in any order.
use iotencoder.Common.{◌≡◌, refl, Text, ok}
use iotencoder.Common.Float.{Float64, IsIeee}
use iotencoder.Postgres.Types.{token_length}
use iotencoder.Postgres.Transactor.{Session}
use iotencoder.Postgres.Token.{generate_token}
use iotencoder.Postgres.Streams.{Entropy}
use iotencoder.Postgres.Streams.Schema.{IsConsistent}
use iotencoder.Postgres.Streams.Histories.{after, after-IsConsistent, creating, deleting, reading}
use iotencoder.Postgres.Streams.Tokens.{has_token}
use iotencoder.Postgres.Streams.Untouched.{get_device-tables}
use iotencoder.Mqtt.{Client, new_client, client_key}
use iotencoder.Mqtt.Topics.{live}
use iotencoder.Rpc.Requests.{CreateRequest, DeleteRequest}
use iotencoder.Rpc.Requests.Translation.{Generated}
use iotencoder.Rpc.Encoder.{Encoder, State, handle_create, handle_delete, handle_callback, start}
use iotencoder.Rpc.Encoder.Effects.{handle_create-Outcome, handle_delete-Outcome}
use iotencoder.Rpc.Encoder.Starting.{undisturbed}
use iotencoder.Rpc.Encoder.Storing.{
  handle_create-Stored, handle_delete-Stored, handle_callback-Stored,
}
use iotencoder.Rpc.Encoder.Synced.Start.{start-InStep}
use iotencoder.Rpc.Encoder.Subscribing.{handle_callback-client}
use iotencoder.Rpc.Encoder.Synced.{
  online, InStep, Unchanged-InStep, CreateOutcome-InStep, DeleteOutcome-InStep,
}

module _ {F P : Type 0} ⦃f : Float64 F⦄ (encoder : Encoder F Client P) where
  open encoder use {server, broker_addr, broker_username, names}

  -- What the handlers make of a state: creations for which a uuid and a token are drawn, deletions and
  -- messages, whatever fails in the database.
  pub data Runs : State F Client P → State F Client P → Type 0 where
    rest : {w : State F Client P} → Runs w w
    create :
        {w v : State F Client P}
        → (entropy : Entropy) (req : CreateRequest F) (uuid token : Text)
        → entropy.new_uuid ≡ ok uuid
        → generate_token entropy.random_bytes token_length ≡ ok token
        → Runs (handle_create (online encoder) entropy req w).1 v
        → Runs w v
    delete :
        {w v : State F Client P}
        → (req : DeleteRequest) → Runs (handle_delete (online encoder) req w).1 v
        → Runs w v
    arrive :
        {w v : State F Client P}
        → (topic payload : Text) → Runs (handle_callback (online encoder) topic payload w).1 v
        → Runs w v

  -- The database of a handler's state.
  abbrev Sound : Session F → Type 0
  Sound s = IsConsistent s.db

  module _ (generated : Generated names) (laws : IsIeee F) where
    create-InStep :
        (entropy : Entropy) (req : CreateRequest F) (uuid token : Text) (w : State F Client P)
        → entropy.new_uuid ≡ ok uuid
        → generate_token entropy.random_bytes token_length ≡ ok token
        → InStep encoder w
        → InStep encoder (handle_create (online encoder) entropy req w).1
    unfolding after
    create-InStep entropy req uuid token w drawn token_drawn h =
        CreateOutcome-InStep encoder uuid token req w _
          (handle_create-Outcome (online encoder) uuid token entropy drawn token_drawn generated
            laws req w)
          (handle_create-Stored (online encoder) Sound entropy req w
            (λ stream. after-IsConsistent server (creating entropy stream) w.session h.consistent)
            h.consistent)
          h

    delete-InStep :
        (req : DeleteRequest) (w : State F Client P)
        → InStep encoder w
        → InStep encoder (handle_delete (online encoder) req w).1
    unfolding after
    delete-InStep req w h =
        DeleteOutcome-InStep encoder req w _ (handle_delete-Outcome (online encoder) req w)
          (handle_delete-Stored (online encoder) Sound req w
            (λ stream. after-IsConsistent server (deleting stream) w.session h.consistent)
            h.consistent)
          h

    arrive-InStep :
        (topic payload : Text) (w : State F Client P)
        → InStep encoder w
        → InStep encoder (handle_callback (online encoder) topic payload w).1
    unfolding after
    arrive-InStep topic payload w h =
        Unchanged-InStep encoder w _
          (handle_callback-Stored (online encoder) (λ s. s.db.tables ≡ w.session.db.tables) topic
            payload w (λ token. get_device-tables server token w.session) refl)
          (handle_callback-client (online encoder) topic payload w)
          (handle_callback-Stored (online encoder) Sound topic payload w
            (λ token. after-IsConsistent server (reading token) w.session h.consistent)
            h.consistent)
          h

    pub Runs-InStep : {w v : State F Client P} → Runs w v → InStep encoder w → InStep encoder v
    Runs-InStep rest h = h
    Runs-InStep (create {w} entropy req uuid token drawn token_drawn r) h =
        Runs-InStep r (create-InStep entropy req uuid token w drawn token_drawn h)
    Runs-InStep (delete {w} req r) h = Runs-InStep r (delete-InStep req w h)
    Runs-InStep (arrive {w} topic payload r) h = Runs-InStep r (arrive-InStep topic payload w h)

  -- After a start on a consistent database with a new MQTT client, no call failing in it, and after any
  -- creations for which a uuid and a token are drawn, any deletions and any messages after it, in any
  -- order and whatever fails in the database, but with no failing call of paho: the connection of the
  -- encoder has the topic of a token exactly if a device in the table has the token.
  pub subscriptions_in_step :
      (w v : State F Client P)
      → Generated names
      → IsIeee F
      → w.client ≡ new_client
      → IsConsistent w.session.db
      → Runs (start (undisturbed encoder) w).1 v
      → (token : Text)
      → live (client_key broker_addr broker_username) token v.client
        ≡ has_token token v.session.db.tables.devices
  subscriptions_in_step w v generated laws new c runs =
      (Runs-InStep generated laws runs (start-InStep encoder w new c)).synced
