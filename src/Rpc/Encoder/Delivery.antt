-- ===== src/Rpc/Encoder/Delivery.antt =====
-- From `CreateStream` to `handleCallback` of pkg/rpc/encoder.go: the messages of a device reach the stream that
-- was created for it.
pub mod Sent
pub mod Written
mod Tests
use iotencoder.Common.{
  ℕ, ◌≡◌, refl, sym, ap, ◌∙◌, subst, Text, is_empty, false, List, [], ◌∷◌, ◌++◌, Option, none, some,
  Result, ok, err, panic, arith,
}
use mathlib.Core.List.{Permᴰ}
use iotencoder.Common.Float.{Float64, IsIeee}
use iotencoder.Postgres.Types.{DeviceRow, Stream, Device, token_length}
use iotencoder.Postgres.Statements.{find_device, streams_of}
use iotencoder.Postgres.Rows.Quiet.{AllScan, AllScan-Permᴰ}
use iotencoder.Postgres.Token.{generate_token}
use iotencoder.Postgres.Streams.{Entropy, scan_stream}
use iotencoder.Postgres.Streams.Atomic.{Creates}
use iotencoder.Postgres.Streams.Effects.{IsFresh}
use iotencoder.Postgres.Streams.Created.{rows_of, Parses, read_of, Creates-Reads}
use iotencoder.Mqtt.{build_topic}
use iotencoder.Rpc.Requests.{CreateRequest, requested_stream}
use iotencoder.Rpc.Requests.Translation.{Generated}
use iotencoder.Rpc.Topic.Matches.{AllWord}
use iotencoder.Rpc.Encoder.{Encoder, State, handle_create, handle_callback}
use iotencoder.Rpc.Encoder.Effects.{Registered, CreateOutcome, handle_create-Outcome}
use iotencoder.Rpc.Encoder.Messages.{with_quiet, handle_callback_lem}

module _ {F M P : Type 0} ⦃f : Float64 F⦄ (encoder : Encoder F M P)
    (law : Parses encoder.server.json) (uuid token : Text) (req : CreateRequest F) (payload : Text)
    (olds : List (Stream F)) where
  open encoder use {server, names, processor}

  -- A message of the device is handed to the processor with the streams that the device had and the one
  -- that was asked for, in some order.
  Delivers : State F M P → Type 0
  Delivers w' =
      (stream : Stream F) × (row : DeviceRow F) × (requested_stream names req ≡ ok stream)
      × ((n : ℕ) × (stream.device ≡ some (record row { id = n })))
      × (row.device_token ≡ req.device_token)
      × ((streams : List (Stream F)) × Permᴰ (olds ++ (read_of server law stream ∷ [])) streams
          × ((handle_callback (with_quiet encoder) (build_topic req.device_token) payload w').1.work
              ≡ (processor.process (record { row = row; streams = streams }) (some payload)
                  w'.work).1))

  Registered-Delivers :
      (w w' : State F M P)
      → AllWord req.device_token
      → is_empty req.device_token ≡ false
      → IsFresh w.session.db
      → AllScan
          (scan_stream server)
          (rows_of w.session.db (find_device req.device_token w.session.db.tables.devices))
          olds
      → Registered encoder uuid token req w w'
      → Delivers w'
  unfolding Delivers
  Registered-Delivers w w' word full fresh scans (stream, row, asked, dev, same, creates) =
      let (id, found, reads) =
        Creates-Reads server law stream _ row uuid token w.session.db w'.session.db olds fresh
          creates
          (subst
            (λ t.
              AllScan (scan_stream server)
                (rows_of w.session.db (find_device t w.session.db.tables.devices)) olds)
            (sym same) scans) in
      let saved : DeviceRow F = record row { id = id } in
      let (streams, permuted, arranged) =
        AllScan-Permᴰ (scan_stream server) (streams_of id w'.session.db.tables.streams)
          (server.stream_order.arranged w'.session.db (streams_of id w'.session.db.tables.streams))
          (server.stream_order.permutes w'.session.db _) (olds ++ (read_of server law stream ∷ []))
          reads in
      (
        stream,
        saved,
        asked,
        (row.id, dev),
        same,
        (
          streams,
          permuted,
          (handle_callback_lem encoder req.device_token payload saved streams w' word full
              (subst (λ t. find_device t w'.session.db.tables.devices ≡ some saved) same found)
              arranged).0,
        ),
      )

  CreateOutcome-Delivers :
      (w : State F M P) (a : Result (Text × Text) × State F M P) (b : Text × Text)
      → AllWord req.device_token
      → is_empty req.device_token ≡ false
      → IsFresh w.session.db
      → AllScan
          (scan_stream server)
          (rows_of w.session.db (find_device req.device_token w.session.db.tables.devices))
          olds
      → CreateOutcome encoder uuid token req w a
      → a.0 ≡ ok b
      → Delivers a.1
  CreateOutcome-Delivers w (ok (u, t), w') b word full fresh scans (eu, et, registered, sub) e =
      Registered-Delivers w w' word full fresh scans registered
  CreateOutcome-Delivers w (err x, w') b word full fresh scans h e = ground (arith, e)
  CreateOutcome-Delivers w (panic, w') b word full fresh scans h e = ground (arith, e)

  -- When handle_create has answered a uuid and a token, on a database whose ids stay below its sequence,
  -- for a device token that is a word that is not empty, where the operations of the device's streams so
  -- far can be read, then a message on the device's topic, with no failing call of the driver, is handed
  -- to the processor with the device, whose columns but the id are those that the request describes, and,
  -- in the order in which the rows are answered, the streams that it had and the one that the request
  -- describes, and no other.
  pub create_then_message :
      (entropy : Entropy) (b : Text × Text) (w : State F M P)
      → entropy.new_uuid ≡ ok uuid
      → generate_token entropy.random_bytes token_length ≡ ok token
      → Generated names
      → IsIeee F
      → AllWord req.device_token
      → is_empty req.device_token ≡ false
      → IsFresh w.session.db
      → AllScan
          (scan_stream server)
          (rows_of w.session.db (find_device req.device_token w.session.db.tables.devices))
          olds
      → (handle_create encoder entropy req w).0 ≡ ok b
      → let w' = (handle_create encoder entropy req w).1 in
        (stream : Stream F) × (row : DeviceRow F) × (requested_stream names req ≡ ok stream)
        × ((n : ℕ) × (stream.device ≡ some (record row { id = n })))
        × (row.device_token ≡ req.device_token)
        × ((streams : List (Stream F)) × Permᴰ (olds ++ (read_of server law stream ∷ [])) streams
            × ((handle_callback
                  (with_quiet encoder)
                  (build_topic req.device_token)
                  payload
                  w').1.work
                ≡ (processor.process
                    (record { row = row; streams = streams })
                    (some payload)
                    w'.work).1))
  unfolding Delivers
  create_then_message entropy b w drawn token_drawn generated ieee word full fresh scans e =
      CreateOutcome-Delivers w (handle_create encoder entropy req w) b word full fresh scans
        (handle_create-Outcome encoder uuid token entropy drawn token_drawn generated ieee req w) e
