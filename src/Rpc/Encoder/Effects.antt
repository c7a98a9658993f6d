-- ===== src/Rpc/Encoder/Effects.antt =====
-- What `CreateStream` and `DeleteStream` of pkg/rpc/encoder.go do to the database and to the
-- subscriptions, however they end.
use iotencoder.Common.{
  ◌≡◌, refl, Text, Option, none, some, Error, Result, ok, err, panic, ◌⊎◌, inl, inr, ap,
}
use iotencoder.Common.Float.{Float64, IsIeee}
use iotencoder.Postgres.Types.{Stream, DeviceRow, token_length}
use iotencoder.Postgres.Transactor.{Session}
use iotencoder.Postgres.Transactor.Ending.{Ended}
use iotencoder.Postgres.Token.{generate_token}
use iotencoder.Postgres.Streams.{Entropy}
use iotencoder.Postgres.Streams.Atomic.{
  Creates, Deletes, create_stream_atomic, delete_stream_atomic,
}
use iotencoder.Rpc.Requests.{
  CreateRequest, DeleteRequest, device_of, validate_create_request, validate_delete_request,
  requested_stream,
}
use iotencoder.Rpc.Requests.Ranges.{Valid, validate_create_request-Valid}
use iotencoder.Rpc.Requests.Translation.{
  Generated, requested_stream-located, requested_stream-no_panic,
}
use iotencoder.Rpc.Encoder.{
  Encoder, State, create_answer, create_stored, create_requested, create_validated, handle_create,
  delete_answer, delete_stored, deleted_stream, delete_validated, handle_delete,
}

module _ {F M P : Type 0} ⦃f : Float64 F⦄ (encoder : Encoder F M P) where
  open encoder use {server, names, mqtt, broker_addr, broker_username}

  -- The tables and the subscriptions are as before.
  abbrev pub Unchanged : State F M P → State F M P → Type 0
  Unchanged w w' = (w'.session.db.tables ≡ w.session.db.tables) × (w'.client ≡ w.client)

  module _ (uuid token : Text) where
    -- The stream that the request describes was created, with its device.
    abbrev pub Registered : CreateRequest F → State F M P → State F M P → Type 0
    Registered req w w' =
        (stream : Stream F) × (row : DeviceRow F) × (requested_stream names req ≡ ok stream)
        × (stream.device ≡ some row)
        × (row.device_token ≡ req.device_token)
        × Creates server stream row uuid token w.session.db
            (record stream { stream_id = uuid; token = token }) w'.session.db

    -- How a creation ends: the stream is created and the device's topic subscribed to; or nothing is
    -- changed; or the stream is created, but the subscription failed.
    abbrev pub CreateOutcome :
        CreateRequest F → State F M P → Result (Text × Text) × State F M P → Type 0
    CreateOutcome req w (ok (u, t), w') =
        (u ≡ uuid)
        × (t ≡ token)
        × Registered req w w'
        × (mqtt.subscribe broker_addr broker_username req.device_token w.client
            ≡ (ok tt, w'.client))
    CreateOutcome req w (err e, w') =
        Unchanged w w'
        ⊎ ((x : Error) × Registered req w w'
            × (mqtt.subscribe broker_addr broker_username req.device_token w.client
                ≡ (err x, w'.client)))
    CreateOutcome req w (panic, w') =
        Registered req w w'
        × (mqtt.subscribe broker_addr broker_username req.device_token w.client
            ≡ (panic, w'.client))

    create_answer-Outcome :
        (req : CreateRequest F) (w w1 : State F M P) (stream : Stream F) (r : Result (Unit {0}) × M)
        → (stream.stream_id ≡ uuid) × (stream.token ≡ token)
        → Registered req w w1
        → mqtt.subscribe broker_addr broker_username req.device_token w.client ≡ r
        → CreateOutcome req w (create_answer encoder stream w1 r)
    unfolding create_answer
    create_answer-Outcome req w w1 stream (ok tt, m) (u, t) h e = (u, t, h, e)
    create_answer-Outcome req w w1 stream (err x, m) (u, t) h e = inr (x, h, e)
    create_answer-Outcome req w w1 stream (panic, m) (u, t) h e = (h, e)

    create_stored-Outcome :
        (req : CreateRequest F) (w : State F M P) (stream : Stream F) (row : DeviceRow F)
        (r : Result (Stream F) × Session F)
        → requested_stream names req ≡ ok stream
        → stream.device ≡ some row
        → row.device_token ≡ req.device_token
        → Ended server.faults (Creates server stream row uuid token) w.session r
        → CreateOutcome req w (create_stored encoder req w r)
    unfolding create_stored
    create_stored-Outcome req w stream row (ok s, session) q dev d made =
        let (id, saved, ops, up, pr, ins, es) = made in
        create_answer-Outcome req w (record w { session = session }) s _
          (ap (λ x. x.stream_id) es, ap (λ x. x.token) es)
          (stream, row, q, dev, d, (id, saved, ops, up, pr, ins, refl)) refl
    create_stored-Outcome req w stream row (err e, session) q dev d same = inl (same, refl)
    create_stored-Outcome req w stream row (panic, session) q dev d h = elim h [ ]

    module _ (entropy : Entropy) (fresh : entropy.new_uuid ≡ ok uuid)
        (drawn : generate_token entropy.random_bytes token_length ≡ ok token)
        (generated : Generated names) (laws : IsIeee F) where
      create_requested-Outcome :
          (req : CreateRequest F) (w : State F M P) (r : Result (Stream F))
          → Valid req
          → requested_stream names req ≡ r
          → CreateOutcome req w (create_requested encoder entropy req w r)
      unfolding create_requested
      create_requested-Outcome req w (ok stream) v q =
          let (l, os, same, located, all) = requested_stream-located names generated req stream q in
          let row = device_of names req l in
          create_stored-Outcome req w stream row _ q (ap (λ x. x.device) same) refl (
            create_stream_atomic server entropy uuid token fresh drawn stream row w.session
              (ap (λ x. x.device) same))
      create_requested-Outcome req w (err e) v q = inl (refl, refl)
      create_requested-Outcome req w panic v q =
          absurd (requested_stream-no_panic names generated req v.location v.located q)

      create_validated-Outcome :
          (req : CreateRequest F) (w : State F M P) (o : Option Error)
          → validate_create_request req ≡ o
          → CreateOutcome req w (create_validated encoder entropy req w o)
      unfolding create_validated
      create_validated-Outcome req w (some e) v = inl (refl, refl)
      create_validated-Outcome req w none v =
          create_requested-Outcome req w _ (validate_create_request-Valid laws req v) refl

      -- With a uuid and a token drawn, `handle_create` answers them when the stream that the request
      -- describes is created, with its device, and the device's topic is subscribed to. When it
      -- answers an error, the tables and the subscriptions are as before, or the stream is created
      -- and the subscription failed. It panics only where the MQTT client does.
      pub handle_create-Outcome :
          (req : CreateRequest F) (w : State F M P)
          → CreateOutcome req w (handle_create encoder entropy req w)
      unfolding handle_create
      handle_create-Outcome req w = create_validated-Outcome req w _ refl

  abbrev Removed : DeleteRequest → State F M P → Option Text → State F M P → Type 0
  Removed req w o w' = Deletes server (deleted_stream encoder req) w.session.db o w'.session.db

  -- How a deletion ends: the stream is deleted, and with the last stream of a device the device, and
  -- its topic is unsubscribed from; or nothing is changed; or the unsubscription failed.
  abbrev pub DeleteOutcome : DeleteRequest → State F M P → Result (Unit {0}) × State F M P → Type 0
  DeleteOutcome req w (ok _, w') =
      (Removed req w none w' × (w'.client ≡ w.client))
      ⊎ ((token : Text) × Removed req w (some token) w'
          × (mqtt.unsubscribe broker_addr broker_username token w.client ≡ (ok tt, w'.client)))
  DeleteOutcome req w (err e, w') =
      Unchanged w w'
      ⊎ ((token : Text) × (x : Error) × Removed req w (some token) w'
          × (mqtt.unsubscribe broker_addr broker_username token w.client ≡ (err x, w'.client)))
  DeleteOutcome req w (panic, w') =
      (token : Text) × Removed req w (some token) w'
      × (mqtt.unsubscribe broker_addr broker_username token w.client ≡ (panic, w'.client))

  delete_answer-Outcome :
      (req : DeleteRequest) (w w1 : State F M P) (token : Text) (r : Result (Unit {0}) × M)
      → Removed req w (some token) w1
      → mqtt.unsubscribe broker_addr broker_username token w.client ≡ r
      → DeleteOutcome req w (delete_answer encoder w1 r)
  unfolding delete_answer
  delete_answer-Outcome req w w1 token (ok tt, m) h e = inr (token, h, e)
  delete_answer-Outcome req w w1 token (err x, m) h e = inr (token, x, h, e)
  delete_answer-Outcome req w w1 token (panic, m) h e = (token, h, e)

  delete_stored-Outcome :
      (req : DeleteRequest) (w : State F M P) (r : Result (Option Text) × Session F)
      → Ended server.faults (Deletes server (deleted_stream encoder req)) w.session r
      → DeleteOutcome req w (delete_stored encoder w r)
  unfolding delete_stored
  delete_stored-Outcome req w (ok none, s) h = inl (h, refl)
  delete_stored-Outcome req w (ok (some token), s) h =
      delete_answer-Outcome req w (record w { session = s }) token _ h refl
  delete_stored-Outcome req w (err e, s) same = inl (same, refl)
  delete_stored-Outcome req w (panic, s) h = elim h [ ]

  delete_validated-Outcome :
      (req : DeleteRequest) (w : State F M P) (o : Option Error)
      → DeleteOutcome req w (delete_validated encoder req w o)
  unfolding delete_validated
  delete_validated-Outcome req w (some e) = inl (refl, refl)
  delete_validated-Outcome req w none =
      delete_stored-Outcome req w _
        (delete_stream_atomic server (deleted_stream encoder req) w.session)

  -- When `handle_delete` succeeds, the stream is deleted, and with the last stream of a device the
  -- device, whose topic is then unsubscribed from; the subscriptions are as before if streams of the
  -- device are left. When it answers an error, the tables and the subscriptions are as before, or the
  -- stream and its device are deleted and the unsubscription failed. It panics only where the MQTT
  -- client does.
  pub handle_delete-Outcome :
      (req : DeleteRequest) (w : State F M P) → DeleteOutcome req w (handle_delete encoder req w)
  unfolding handle_delete
  handle_delete-Outcome req w = delete_validated-Outcome req w (validate_delete_request req)
