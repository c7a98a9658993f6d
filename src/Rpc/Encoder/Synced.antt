-- ===== src/Rpc/Encoder/Synced.antt =====
-- The subscriptions of the encoder of pkg/rpc/encoder.go and the devices of its database stay in step, over the
-- methods of pkg/mqtt/mqtt.go and pkg/postgres/postgres.go.
pub mod Start
pub mod Runs
pub mod Tests
use iotencoder.Common.{
  ◌≡◌, ◌≢◌, refl, sym, ap, ◌∙◌, subst, Text, text_eq, text_eq_refl, Bool, true, false, Option, none,
  some, Error, Result, ok, err, panic, arith, inl, inr, if◌then◌else◌, ◌&&◌,
}
use iotencoder.Common.Float.{Float64, IsIeee}
use iotencoder.Postgres.Types.{DeviceRow, token_length}
use iotencoder.Postgres.Tables.{Db}
use iotencoder.Postgres.Token.{generate_token}
use iotencoder.Postgres.Streams.{Entropy}
use iotencoder.Postgres.Streams.Schema.{IsConsistent}
use iotencoder.Postgres.Streams.Histories.{after, after-IsConsistent, creating, deleting, reading}
use iotencoder.Postgres.Streams.Tokens.{has_token, Creates-tokens, Deletes-tokens}
use iotencoder.Postgres.Streams.Untouched.{get_device-tables}
use iotencoder.Mqtt.{Client, client_key, subscribe, unsubscribe}
use iotencoder.Mqtt.Topics.{live, Tracks}
use iotencoder.Mqtt.Topics.Calls.{subscribe-live, unsubscribe-live}
use iotencoder.Rpc.Requests.{CreateRequest, DeleteRequest}
use iotencoder.Rpc.Requests.Translation.{Generated}
use iotencoder.Rpc.Encoder.{
  Encoder, State, deleted_stream, handle_create, handle_delete, handle_callback,
}
use iotencoder.Rpc.Encoder.Parts.{mqtt_client}
use iotencoder.Rpc.Encoder.Effects.{
  CreateOutcome, DeleteOutcome, handle_create-Outcome, handle_delete-Outcome,
}
use iotencoder.Rpc.Encoder.Storing.{
  handle_create-Stored, handle_delete-Stored, handle_callback-Stored,
}
use iotencoder.Rpc.Encoder.Subscribing.{handle_callback-client}

module _ {F P : Type 0} ⦃f : Float64 F⦄ (encoder : Encoder F Client P) where
  open encoder use {server, broker_addr, broker_username}

  -- The encoder with an MQTT client on which no call of paho fails.
  abbrev pub online : Encoder F Client P
  online = record encoder { mqtt = mqtt_client (λ _. none) }

  abbrev pub broker_key : Text
  broker_key = client_key broker_addr broker_username

  -- Messages arrive of exactly the devices in the table.
  abbrev pub Synced : State F Client P → Type 0
  Synced w =
      (token : Text) → live broker_key token w.client ≡ has_token token w.session.db.tables.devices

  pub record InStep (w : State F Client P) : Type 0 where
    pub consistent : IsConsistent w.session.db
    pub tracks : Tracks w.client
    pub synced : Synced w

  pub Unchanged-InStep :
      (w w' : State F Client P)
      → w'.session.db.tables ≡ w.session.db.tables
      → w'.client ≡ w.client
      → IsConsistent w'.session.db
      → InStep w
      → InStep w'
  Unchanged-InStep w w' tables client c h = record {
    consistent = c;
    tracks = rw client h.tracks;
    synced = λ token. rw (client, tables) (h.synced token);
  }

  -- One topic is set to `v`, and so is the device's token in the table.
  set-InStep :
      (v : Bool) (token : Text) (w w' : State F Client P) (r : Result (Unit {0}) × Client)
      → (r.0 ≡ ok tt)
        × Tracks r.1
        × ((k t : Text)
            → live k t r.1
              ≡ (if text_eq broker_key k && text_eq token t then v else live k t w.client))
      → w'.client ≡ r.1
      → ((t : Text)
          → has_token t w'.session.db.tables.devices
            ≡ (if text_eq token t then v else has_token t w.session.db.tables.devices))
      → IsConsistent w'.session.db
      → InStep w
      → InStep w'
  set-InStep v token w w' r (answers, tracks, now) client tokens c h = record {
    consistent = c;
    tracks = rw client tracks;
    synced = λ t.
        ap (live broker_key t) client
        ∙ now broker_key t
        ∙ ground (arith, text_eq_refl broker_key, h.synced t, tokens t);
  }

  pub CreateOutcome-InStep :
      (uuid token : Text) (req : CreateRequest F) (w : State F Client P)
      (a : Result (Text × Text) × State F Client P)
      → CreateOutcome online uuid token req w a
      → IsConsistent a.1.session.db
      → InStep w
      → InStep a.1
  CreateOutcome-InStep uuid token req w (ok (u, t), w')
        (eu, et, (stream, row, asked, dev, same, made), sub) c h =
      set-InStep true req.device_token w w'
        (subscribe (λ _. none) broker_addr broker_username req.device_token w.client)
        (subscribe-live broker_addr broker_username req.device_token w.client h.tracks)
        (ap (λ r. r.1) (sym sub))
        (λ x.
          Creates-tokens server stream _ row uuid token w.session.db w'.session.db x made
          ∙ ap (λ y. if text_eq y x then true else has_token x w.session.db.tables.devices) same)
        c h
  CreateOutcome-InStep uuid token req w (err e, w') (inl (tables, client)) c h =
      Unchanged-InStep w w' tables client c h
  CreateOutcome-InStep uuid token req w (err e, w') (inr (x, registered, sub)) c h =
      let (answers, tracks, now) =
        subscribe-live broker_addr broker_username req.device_token w.client h.tracks in
      ground (arith, answers, ap (λ r. r.0) sub)
  CreateOutcome-InStep uuid token req w (panic, w') (registered, sub) c h =
      let (answers, tracks, now) =
        subscribe-live broker_addr broker_username req.device_token w.client h.tracks in
      ground (arith, answers, ap (λ r. r.0) sub)

  pub DeleteOutcome-InStep :
      (req : DeleteRequest) (w : State F Client P) (a : Result (Unit {0}) × State F Client P)
      → DeleteOutcome online req w a
      → IsConsistent a.1.session.db
      → InStep w
      → InStep a.1
  DeleteOutcome-InStep req w (ok _, w') (inl (removed, client)) c h = record {
    consistent = c;
    tracks = rw client h.tracks;
    synced = λ token.
        ap (live broker_key token) client
        ∙ h.synced token
        ∙ sym (
            Deletes-tokens server (deleted_stream online req) none w.session.db w'.session.db
              h.consistent.distinct_devices removed token);
  }
  DeleteOutcome-InStep req w (ok _, w') (inr (token, removed, sub)) c h =
      set-InStep false token w w'
        (unsubscribe (λ _. none) broker_addr broker_username token w.client)
        (unsubscribe-live broker_addr broker_username token w.client h.tracks)
        (ap (λ r. r.1) (sym sub))
        (Deletes-tokens server (deleted_stream online req) (some token) w.session.db w'.session.db
          h.consistent.distinct_devices removed)
        c h
  DeleteOutcome-InStep req w (err e, w') (inl (tables, client)) c h =
      Unchanged-InStep w w' tables client c h
  DeleteOutcome-InStep req w (err e, w') (inr (token, x, removed, sub)) c h =
      let (answers, tracks, now) =
        unsubscribe-live broker_addr broker_username token w.client h.tracks in
      ground (arith, answers, ap (λ r. r.0) sub)
  DeleteOutcome-InStep req w (panic, w') (token, removed, sub) c h =
      let (answers, tracks, now) =
        unsubscribe-live broker_addr broker_username token w.client h.tracks in
      ground (arith, answers, ap (λ r. r.0) sub)
