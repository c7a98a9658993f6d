-- ===== src/Rpc/Encoder/Silence.antt =====
-- From `DeleteStream` to `handleCallback` of pkg/rpc/encoder.go: after the last stream of a device is deleted, its
-- messages are not processed.
use iotencoder.Common.{
  ◌≡◌, ◌≢◌, refl, sym, ap, ◌∙◌, Text, is_empty, text_eq_refl, false, none, some, Result, ok, err,
  panic, arith, inl, inr,
}
use mathlib.Core.Option.{some-injective}
use iotencoder.Common.Float.{Float64}
use iotencoder.Postgres.Types.{DeviceRow, Device}
use iotencoder.Postgres.Tables.{StreamRow}
use iotencoder.Postgres.Statements.{stream_with, count_streams, device_with}
use iotencoder.Postgres.Transactor.{Session}
use iotencoder.Postgres.Streams.{get_device}
use iotencoder.Postgres.Streams.Schema.{IsConsistent}
use iotencoder.Postgres.Streams.Tokens.{has_token, has_token_none, Deletes-tokens}
use iotencoder.Postgres.Streams.Last.{Deletes-last}
use iotencoder.Postgres.Streams.Untouched.{get_device-absent}
use iotencoder.Mqtt.{build_topic}
use iotencoder.Rpc.Requests.{DeleteRequest}
use iotencoder.Rpc.Topic.Matches.{AllWord, extract_token-build_topic}
use iotencoder.Rpc.Encoder.{
  Encoder, State, deleted_stream, handle_delete, with_stored, with_token, handle_callback,
}
use iotencoder.Rpc.Encoder.Effects.{DeleteOutcome, handle_delete-Outcome}

module _ {F M P : Type 0} ⦃f : Float64 F⦄ (encoder : Encoder F M P) where
  open encoder use {server, mqtt, broker_addr, broker_username}

  with_stored-absent :
      (payload : Text) (w : State F M P) (r : Result (Device F) × Session F)
      → ((device : Device F) → r.0 ≢ ok device)
      → (with_stored encoder payload w r).1.work ≡ w.work
  unfolding with_stored
  with_stored-absent payload w (ok device, s) k = absurd (k device refl)
  with_stored-absent payload w (err e, s) k = refl
  with_stored-absent payload w (panic, s) k = refl

  -- A message on the topic of a token that no device in the table has leaves the processor as it is.
  pub handle_callback-absent :
      (token payload : Text) (w : State F M P)
      → AllWord token
      → is_empty token ≡ false
      → has_token token w.session.db.tables.devices ≡ false
      → (handle_callback encoder (build_topic token) payload w).1.work ≡ w.work
  unfolding handle_callback with_token
  handle_callback-absent token payload w word full absent =
      rw (extract_token-build_topic token word full) (
        with_stored-absent payload w (get_device server token w.session) (λ device.
          get_device-absent server token w.session device
            (has_token_none token w.session.db.tables.devices absent)))

  -- The topic was unsubscribed from, and messages on it are not processed.
  Silent : Text → State F M P → State F M P → Type 0
  Silent token w w' =
      (mqtt.unsubscribe broker_addr broker_username token w.client ≡ (ok tt, w'.client))
      × ((payload : Text)
          → (handle_callback encoder (build_topic token) payload w').1.work ≡ w'.work)

  DeleteOutcome-Silent :
      (req : DeleteRequest) (w : State F M P) (a : Result (Unit {0}) × State F M P) (s : StreamRow)
      (d : DeviceRow F)
      → IsConsistent w.session.db
      → stream_with req.stream_uid w.session.db.tables.streams ≡ some s
      → count_streams s.device_id w.session.db.tables.streams ≡ 1
      → device_with s.device_id w.session.db.tables.devices ≡ some d
      → AllWord d.device_token
      → is_empty d.device_token ≡ false
      → DeleteOutcome encoder req w a
      → a.0 ≡ ok tt
      → Silent d.device_token w a.1
  unfolding Silent
  DeleteOutcome-Silent req w (ok _, w') s d c found only has word full (inl (removed, client)) e =
      let last =
        Deletes-last server (deleted_stream encoder req) none w.session.db w'.session.db s d c found
          only has removed in
      ground (arith, last)
  DeleteOutcome-Silent req w (ok _, w') s d c found only has word full (inr (token, removed, sub))
        e =
      let stream = deleted_stream encoder req in
      let last : token ≡ d.device_token = some-injective token d.device_token (
        Deletes-last server stream (some token) w.session.db w'.session.db s d c found only has
          removed) in
      let gone : has_token d.device_token w'.session.db.tables.devices ≡ false =
        Deletes-tokens server stream (some token) w.session.db w'.session.db c.distinct_devices
          removed d.device_token
        ∙ ground (arith, last, text_eq_refl d.device_token) in
      (
        ap (λ t. mqtt.unsubscribe broker_addr broker_username t w.client) (sym last) ∙ sub,
        λ payload. handle_callback-absent d.device_token payload w' word full gone,
      )
  DeleteOutcome-Silent req w (err x, w') s d c found only has word full h e = ground (arith, e)
  DeleteOutcome-Silent req w (panic, w') s d c found only has word full h e = ground (arith, e)

  -- On a consistent database, when handle_delete has succeeded with the only stream of a device whose
  -- token is a word that is not empty, the device's topic was unsubscribed from, and a message on it
  -- leaves the state of the processor as it is, whatever fails in the database.
  pub delete_then_message :
      (req : DeleteRequest) (w : State F M P) (s : StreamRow) (d : DeviceRow F)
      → IsConsistent w.session.db
      → stream_with req.stream_uid w.session.db.tables.streams ≡ some s
      → count_streams s.device_id w.session.db.tables.streams ≡ 1
      → device_with s.device_id w.session.db.tables.devices ≡ some d
      → AllWord d.device_token
      → is_empty d.device_token ≡ false
      → (handle_delete encoder req w).0 ≡ ok tt
      → let w' = (handle_delete encoder req w).1 in
        (mqtt.unsubscribe broker_addr broker_username d.device_token w.client ≡ (ok tt, w'.client))
        × ((payload : Text)
            → (handle_callback encoder (build_topic d.device_token) payload w').1.work ≡ w'.work)
  unfolding Silent
  delete_then_message req w s d c found only has word full e =
      DeleteOutcome-Silent req w (handle_delete encoder req w) s d c found only has word full
        (handle_delete-Outcome encoder req w) e
