-- ===== src/Rpc/Encoder.antt =====
-- `encoderImpl` of pkg/rpc/encoder.go: the handlers of the RPC methods, the start, and the callback for
-- a message. The logger and Sentry are left out. What a method answers is a value or an error; the
-- callback answers nothing, but a panic of the processor passes through it.
pub mod Effects
pub mod Messages
pub mod Parts
pub mod Starting
pub mod Subscribing
pub mod Storing
pub mod Silence
pub mod Refusals
pub mod Race
pub mod Synced
pub mod Delivery
pub mod Restart
pub mod Tests
use iotencoder.Common.{
  ℕ, Text, List, [], ◌∷◌, Option, none, some, Error, Result, ok, err, panic, internal, wrap,
}
use iotencoder.Common.Float.{Float64}
use iotencoder.Postgres.Types.{Stream, Device}
use iotencoder.Postgres.Transactor.{Session}
use iotencoder.Postgres.Streams.{
  Server, Entropy, create_stream, delete_stream, get_devices, get_device,
}
use iotencoder.Rpc.Requests.{
  CreateRequest, DeleteRequest, EnumNames, validate_create_request, validate_delete_request,
  requested_stream,
}
use iotencoder.Rpc.Topic.{extract_token}

-- The interface `mqtt.Client`, over the state of its implementation: broker, user name, device token.
-- The callback is always `handleCallback`.
pub record MqttClient (M : Type 0) : Type 0 where
  pub subscribe : Text → Text → Text → M → Result (Unit {0}) × M
  pub unsubscribe : Text → Text → Text → M → Result (Unit {0}) × M

-- The interface `Processor`.
pub record Processor (F P : Type 0) : Type 0 where
  pub process : Device F → Option Text → P → Result (Unit {0}) × P

-- `encoderImpl` without its state.
pub record Encoder (F M P : Type 0) : Type 0 where
  pub server : Server F
  pub names : EnumNames
  pub mqtt : MqttClient M
  pub processor : Processor F P
  pub broker_addr : Text
  pub broker_username : Text

-- The state behind the encoder's database, MQTT client and processor.
pub record State (F M P : Type 0) : Type 0 where
  pub session : Session F
  pub client : M
  pub work : P

module _ {F M P : Type 0} ⦃f : Float64 F⦄ (encoder : Encoder F M P) where
  open encoder use {server, names, mqtt, processor, broker_addr, broker_username}

  -- The loop of `Start`; an error of a subscription is only logged.
  next_device : (M → Result (Unit {0}) × M) → Result (Unit {0}) × M → Result (Unit {0}) × M
  next_device rest (ok _, m) = rest m
  next_device rest (err _, m) = rest m
  next_device rest (panic, m) = (panic, m)

  subscribe_devices : List (ℕ × Text) → M → Result (Unit {0}) × M
  unfolding next_device
  subscribe_devices [] m = (ok tt, m)
  subscribe_devices ((id, token) ∷ ds) m =
      next_device (subscribe_devices ds) (mqtt.subscribe broker_addr broker_username token m)

  started : State F M P → Result (List (ℕ × Text)) × Session F → Result (Unit {0}) × State F M P
  unfolding subscribe_devices
  started w (ok ds, s) =
      let (r, m) = subscribe_devices ds w.client in (r, record w { session = s; client = m })
  started w (err e, s) = (err (wrap e "failed to load devices"), record w { session = s })
  started w (panic, s) = (panic, record w { session = s })

  -- `Start`
  unfoldable pub start : State F M P → Result (Unit {0}) × State F M P
  unfolding started
  start w = started w (get_devices server w.session)

  -- The end of `CreateStream`: the answer of `Subscribe`.
  create_answer :
      Stream F → State F M P → Result (Unit {0}) × M → Result (Text × Text) × State F M P
  create_answer stream w (ok _, m) = (ok (stream.stream_id, stream.token), record w { client = m })
  create_answer stream w (err e, m) = (err (internal e), record w { client = m })
  create_answer stream w (panic, m) = (panic, record w { client = m })

  -- The answer of the database.
  create_stored :
      CreateRequest F
      → State F M P
      → Result (Stream F) × Session F
      → Result (Text × Text) × State F M P
  unfolding create_answer
  create_stored req w (ok stream, s) =
      create_answer stream (record w { session = s })
        (mqtt.subscribe broker_addr broker_username req.device_token w.client)
  create_stored req w (err e, s) = (err (internal e), record w { session = s })
  create_stored req w (panic, s) = (panic, record w { session = s })

  create_requested :
      Entropy
      → CreateRequest F
      → State F M P
      → Result (Stream F)
      → Result (Text × Text) × State F M P
  unfolding create_stored
  create_requested entropy req w (ok stream) =
      create_stored req w (create_stream server entropy stream w.session)
  create_requested entropy req w (err e) = (err e, w)
  create_requested entropy req w panic = (panic, w)

  create_validated :
      Entropy → CreateRequest F → State F M P → Option Error → Result (Text × Text) × State F M P
  unfolding create_requested
  create_validated entropy req w (some e) = (err e, w)
  create_validated entropy req w none = create_requested entropy req w (requested_stream names req)

  -- `CreateStream`; the response is the uid and the token of the stream.
  unfoldable pub handle_create :
      Entropy → CreateRequest F → State F M P → Result (Text × Text) × State F M P
  unfolding create_validated
  handle_create entropy req w = create_validated entropy req w (validate_create_request req)

  -- The end of `DeleteStream`: the answer of `Unsubscribe`.
  delete_answer : State F M P → Result (Unit {0}) × M → Result (Unit {0}) × State F M P
  delete_answer w (ok _, m) = (ok tt, record w { client = m })
  delete_answer w (err e, m) = (err (internal e), record w { client = m })
  delete_answer w (panic, m) = (panic, record w { client = m })

  delete_stored : State F M P → Result (Option Text) × Session F → Result (Unit {0}) × State F M P
  unfolding delete_answer
  delete_stored w (ok none, s) = (ok tt, record w { session = s })
  delete_stored w (ok (some token), s) =
      delete_answer (record w { session = s })
        (mqtt.unsubscribe broker_addr broker_username token w.client)
  delete_stored w (err e, s) = (err (internal e), record w { session = s })
  delete_stored w (panic, s) = (panic, record w { session = s })

  abbrev pub deleted_stream : DeleteRequest → Stream F
  deleted_stream req = record {
    community_id = [];
    public_key = [];
    operations = [];
    stream_id = req.stream_uid;
    token = req.token;
    device = none;
  }

  delete_validated : DeleteRequest → State F M P → Option Error → Result (Unit {0}) × State F M P
  unfolding delete_stored
  delete_validated req w (some e) = (err e, w)
  delete_validated req w none =
      delete_stored w (delete_stream server (deleted_stream req) w.session)

  -- `DeleteStream`
  unfoldable pub handle_delete : DeleteRequest → State F M P → Result (Unit {0}) × State F M P
  unfolding delete_validated
  handle_delete req w = delete_validated req w (validate_delete_request req)

  -- The end of `handleCallback`: an error of the processor is only logged.
  processed : State F M P → Result (Unit {0}) × P → Result (Unit {0}) × State F M P
  processed w (ok _, p) = (ok tt, record w { work = p })
  processed w (err e, p) = (ok tt, record w { work = p })
  processed w (panic, p) = (panic, record w { work = p })

  with_stored : Text → State F M P → Result (Device F) × Session F → Result (Unit {0}) × State F M P
  unfolding processed
  with_stored payload w (ok device, s) =
      processed (record w { session = s }) (processor.process device (some payload) w.work)
  with_stored payload w (err e, s) = (ok tt, record w { session = s })
  with_stored payload w (panic, s) = (panic, record w { session = s })

  with_token : Text → State F M P → Result Text → Result (Unit {0}) × State F M P
  unfolding with_stored
  with_token payload w (ok token) = with_stored payload w (get_device server token w.session)
  with_token payload w (err e) = (ok tt, w)
  with_token payload w panic = (panic, w)

  -- `handleCallback`
  unfoldable pub handle_callback : Text → Text → State F M P → Result (Unit {0}) × State F M P
  unfolding with_token
  handle_callback topic payload w = with_token payload w (extract_token topic)
