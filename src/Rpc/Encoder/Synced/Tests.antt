-- ===== src/Rpc/Encoder/Synced/Tests.antt =====
-- The theorems on subscriptions and devices at a device with one stream.
use iotencoder.Common.{ℕ, ◌≡◌, refl, Text, text_eq, codes, [], ◌∷◌, none, some, ok, pos, arith}
use iotencoder.Common.Dict.{lookup}
use iotencoder.Common.Float.{Whole, whole_float, Whole-IsIeee}
use iotencoder.Postgres.Types.{token_length, DeviceRow}
use iotencoder.Postgres.Tables.{StreamRow}
use iotencoder.Postgres.Statements.{
  find_device, conflicts, stream_with, delete_uuid, count_streams, delete_row, device_with,
  delete_device, delete_stream_row, select_count,
}
use iotencoder.Postgres.Transactor.{with_tx, get}
use iotencoder.Postgres.Token.{generate_token, base64}
use iotencoder.Postgres.Streams.{Server, delete_stream}
use iotencoder.Postgres.Streams.Owners.{has_device}
use iotencoder.Postgres.Streams.Schema.{IsConsistent}
use iotencoder.Postgres.Streams.Tokens.{has_token}
use iotencoder.Mqtt.{Client, client_key, build_topic, unsubscribe}
use iotencoder.Mqtt.Topics.{live}
use iotencoder.Pipeline.MovingAverage.{Averager}
use iotencoder.Pipeline.Processor.{World}
use iotencoder.Rpc.Requests.{validate_delete_request}
use iotencoder.Rpc.Tests.{request, barcelona, names-Generated}
use iotencoder.Rpc.Topic.{is_word}
use iotencoder.Rpc.Encoder.{Encoder, State, start, handle_create, handle_delete, handle_callback}
use iotencoder.Rpc.Encoder.Starting.{undisturbed}
use iotencoder.Rpc.Encoder.Synced.{online}
use iotencoder.Rpc.Encoder.Synced.Runs.{rest, create, delete, arrive, subscriptions_in_step}
use iotencoder.Rpc.Encoder.Silence.{delete_then_message}
use iotencoder.Rpc.Encoder.Parts.{mqtt_client}
use iotencoder.Rpc.Encoder.Tests.{encoder, server, state, drawn, uuid, token, delete_request}

-- Encryption that changes nothing.
abbrev pub plain : Server Whole
plain = record server { pgp = record { encrypt = λ pw t. t; decrypt = λ pw t. some t } }

abbrev pub whole : Encoder Whole Client (World (Averager Whole))
whole = record encoder { server = plain; mqtt = mqtt_client (λ n. none) }

pub token_drawn : generate_token drawn.random_bytes token_length ≡ ok token
unfolding generate_token base64
token_drawn = refl

abbrev with_devices : State Whole Client (World (Averager Whole))
with_devices = record state {
  session = record {
    db = record {
      tables = record {
        devices = stored (codes "one") 1 ∷ stored (codes "two") 2 ∷ [];
        streams = [];
        certificates = [];
      };
      next_id = 3;
    };
    calls = 0;
  };
}
  where
    stored : Text → ℕ → DeviceRow Whole
    stored name id = record {
      id = id;
      device_token = name;
      label = [];
      longitude = some (pos 2);
      latitude = some (pos 41);
      exposure = codes "indoor";
    }

with_devices-IsConsistent : IsConsistent with_devices.session.db
unfolding has_device find_device text_eq
with_devices-IsConsistent = record {
  below = (omega arith, (omega arith, tt));
  distinct_devices = (refl, refl, (refl, refl, tt));
  distinct_streams = tt;
  owned = tt;
}

subscriptions_in_step_example :
    let w1 = (start (undisturbed whole) with_devices).1 in
    let w2 = (handle_create (online whole) drawn (request barcelona) w1).1 in
    let w3 = (handle_callback (online whole) (build_topic (codes "abc_1")) (codes "[]") w2).1 in
    let v = (handle_delete (online whole) delete_request w3).1 in
    live (client_key (codes "tcp://broker:1883") []) (codes "abc_1") v.client
    ≡ has_token (codes "abc_1") v.session.db.tables.devices
subscriptions_in_step_example =
    subscriptions_in_step whole with_devices _ names-Generated Whole-IsIeee refl
      with_devices-IsConsistent
      (create drawn (request barcelona) uuid token refl token_drawn
        (arrive (build_topic (codes "abc_1")) (codes "[]") (delete delete_request rest)))
      (codes "abc_1")

abbrev pub device : DeviceRow Whole
device = record {
  id = 1;
  device_token = codes "abc_1";
  label = codes "label";
  longitude = some (pos 2);
  latitude = some (pos 41);
  exposure = codes "indoor";
}

abbrev pub stream : StreamRow
stream = record {
  device_id = 1;
  community_id = codes "community";
  public_key = codes "key";
  token = token;
  operations = codes "[]";
  uuid = uuid;
}

abbrev pub with_stream : State Whole Client (World (Averager Whole))
with_stream = record state {
  session = record {
    db = record {
      tables = record { devices = device ∷ []; streams = stream ∷ []; certificates = [] };
      next_id = 2;
    };
    calls = 0;
  };
}

with_stream-IsConsistent : IsConsistent with_stream.session.db
unfolding has_device find_device conflicts
with_stream-IsConsistent = record {
  below = (omega arith, tt);
  distinct_devices = (refl, refl, tt);
  distinct_streams = (refl, tt);
  owned = (refl, tt);
}

deletion_ok : (handle_delete whole delete_request with_stream).0 ≡ ok tt
unfolding handle_delete validate_delete_request delete_stream with_tx get delete_stream_row
    stream_with delete_uuid count_streams select_count delete_device delete_row device_with text_eq
    unsubscribe lookup
deletion_ok = refl

delete_then_message_example :
    let w' = (handle_delete whole delete_request with_stream).1 in
    (whole.mqtt.unsubscribe (codes "tcp://broker:1883") [] (codes "abc_1") with_stream.client
      ≡ (ok tt, w'.client))
    × ((payload : Text)
        → (handle_callback whole (build_topic (codes "abc_1")) payload w').1.work ≡ w'.work)
unfolding is_word stream_with count_streams device_with text_eq
delete_then_message_example =
    delete_then_message whole delete_request with_stream stream device with_stream-IsConsistent refl
      refl refl (refl, (refl, (refl, (refl, (refl, tt))))) refl deletion_ok
