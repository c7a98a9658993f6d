-- ===== src/Rpc/Encoder/Messages.antt =====
-- What `handleCallback` (pkg/rpc/encoder.go) does with the messages of a device, by whether its token can
-- be read from its topic.
use iotencoder.Common.{
  err, Result, panic, some, List, is_empty, false, subst, arith, ◌≡◌, refl, Text, ok,
}
use iotencoder.Common.Float.{Float64}
use iotencoder.Postgres.Types.{DeviceRow, Stream, Device}
use iotencoder.Postgres.Statements.{find_device, streams_of}
use iotencoder.Postgres.Transactor.{Session}
use iotencoder.Postgres.Rows.Quiet.{AllScan}
use iotencoder.Postgres.Streams.{scan_stream, get_device}
use iotencoder.Postgres.Streams.RoundTrip.{quiet}
use iotencoder.Postgres.Streams.Reading.{get_device_lem}
use iotencoder.Mqtt.{build_topic}
use iotencoder.Rpc.Topic.Matches.{AllWord, extract_token-build_topic}
use iotencoder.Rpc.Topic.Refusal.{NoSlash, extract_token-build_topic_refused}
use iotencoder.Rpc.Encoder.{Encoder, State, processed, with_stored, with_token, handle_callback}

-- A message on the topic of a device whose token has no slash and is not made of word characters only
-- is dropped: `handle_callback` changes nothing and reports no error.
pub handle_callback_refused :
    {F M P : Type 0} ⦃f : Float64 F⦄ (encoder : Encoder F M P) (token payload : Text)
    (w : State F M P)
    → NoSlash token
    → (AllWord token → ⊥)
    → handle_callback encoder (build_topic token) payload w ≡ (ok tt, w)
unfolding handle_callback with_token
handle_callback_refused encoder token payload w h other =
    rw (extract_token-build_topic_refused token h other) refl

module _ {F M P : Type 0} ⦃f : Float64 F⦄ (encoder : Encoder F M P) where
  -- The encoder with a database on which no call fails.
  abbrev pub with_quiet : Encoder F M P
  with_quiet = record encoder { server = quiet encoder.server }

  -- What a message leaves behind: the processor's work, and else the state as before.
  abbrev Leaves : State F M P → Result (Unit {0}) × P → Result (Unit {0}) × State F M P → Type 0
  Leaves w r a = (a.1.work ≡ r.1) × (a.1.client ≡ w.client) × (a.1.session.db ≡ w.session.db)

  processed-Leaves :
      (w w1 : State F M P) (r : Result (Unit {0}) × P)
      → w1.client ≡ w.client
      → w1.session.db ≡ w.session.db
      → Leaves w r (processed with_quiet w1 r)
  unfolding processed
  processed-Leaves w w1 (ok _, p) c d = (refl, c, d)
  processed-Leaves w w1 (err e, p) c d = (refl, c, d)
  processed-Leaves w w1 (panic, p) c d = (refl, c, d)

  with_stored-Leaves :
      (payload : Text) (device : Device F) (w : State F M P) (r : Result (Device F) × Session F)
      → r.0 ≡ ok device
      → r.1.db ≡ w.session.db
      → Leaves w
          (encoder.processor.process device (some payload) w.work)
          (with_stored with_quiet payload w r)
  unfolding with_stored
  with_stored-Leaves payload device w (ok d, s) e same =
      subst
        (λ x. Leaves w (encoder.processor.process x (some payload) w.work) (
          processed with_quiet (record w { session = s })
            (encoder.processor.process d (some payload) w.work)))
        (ground arith) (processed-Leaves w (record w { session = s }) _ refl same)
  with_stored-Leaves payload device w (err x, s) e same = ground arith
  with_stored-Leaves payload device w (panic, s) e same = ground arith

  -- With no failing call of the driver, a message on the topic of a device whose token is a word that is
  -- not empty is handed to the processor with the device and all of its streams, if their operations
  -- can be parsed; nothing but the processor's state is changed.
  pub handle_callback_lem :
      (token payload : Text) (row : DeviceRow F) (streams : List (Stream F)) (w : State F M P)
      → AllWord token
      → is_empty token ≡ false
      → find_device token w.session.db.tables.devices ≡ some row
      → AllScan
          (scan_stream encoder.server)
          (encoder.server.stream_order.arranged w.session.db
            (streams_of row.id w.session.db.tables.streams))
          streams
      → let processing =
          encoder.processor.process
            (record { row = row; streams = streams })
            (some payload)
            w.work in
        let after = (handle_callback with_quiet (build_topic token) payload w).1 in
        (after.work ≡ processing.1) × (after.client ≡ w.client) × (after.session.db ≡ w.session.db)
  unfolding handle_callback with_token
  handle_callback_lem token payload row streams w word full found scans =
      let (answers, keeps) =
        get_device_lem encoder.server token row streams w.session found scans in
      rw (extract_token-build_topic token word full) (
        with_stored-Leaves payload (record { row = row; streams = streams }) w
          (get_device (quiet encoder.server) token w.session) answers keeps)
