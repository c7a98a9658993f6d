-- ===== src/Rpc/Encoder/Tests.antt =====
-- The theorems on the handlers of pkg/rpc/encoder.go at concrete inputs.
use iotencoder.Common.{
  ◌==◌, ◌≡◌, refl, pos, Text, codes, [], ◌++◌, replicate, none, some, new, ok, arith, if◌then◌else◌,
}
use iotencoder.Common.Float.{Whole, whole_float, Whole-IsIeee}
use iotencoder.Smartcitizen.Types.{Json}
use iotencoder.Postgres.Token.{base64, generate_token}
use iotencoder.Postgres.Statements.{as_stored}
use iotencoder.Postgres.Streams.{Server, Entropy}
use iotencoder.Mqtt.{Client, new_client, build_topic}
use iotencoder.Pipeline.MovingAverage.{Averager}
use iotencoder.Pipeline.Operations.{averager_at}
use iotencoder.Pipeline.Processor.{Services, World}
use iotencoder.Rpc.Requests.{DeleteRequest}
use iotencoder.Rpc.Encoder.{Encoder, State, handle_create, handle_delete, handle_callback}
use iotencoder.Rpc.Encoder.Effects.{
  CreateOutcome, DeleteOutcome, handle_create-Outcome, handle_delete-Outcome,
}
use iotencoder.Rpc.Encoder.Messages.{handle_callback_refused}
use iotencoder.Rpc.Encoder.Parts.{mqtt_client, pipeline_processor}
use iotencoder.Rpc.Tests.{names, request, barcelona, names-Generated, dashed-not_word}

abbrev pub server : Server Whole
server = record {
  password = codes "secret";
  pgp = record { encrypt = λ pw t. pw ++ t; decrypt = λ pw t. none };
  json = record { print_operations = λ ops. ok (codes "[]"); parse_operations = λ t. ok [] };
  faults = λ n. none;
  device_order = as_stored;
  stream_order = as_stored;
}

abbrev pub json : Json Whole
json = record {
  parse_payload = λ p. ok [];
  parse_metadata = λ p. ok [];
  print_device = λ d. ok d.token;
  sensors_asset = ok [];
}

abbrev pub services : Services
services = record {
  script = ok (codes "code");
  exec = λ n code keys payload. ok payload;
  write_data = λ n req. none;
}

-- The connection is made, and the subscription fails.
abbrev pub encoder : Encoder Whole Client (World (Averager Whole))
encoder = record {
  server = server;
  names = names;
  mqtt = mqtt_client (λ n. if n == 1 then some (new "refused") else none);
  processor = pipeline_processor (averager_at (pos 1000)) json services;
  broker_addr = codes "tcp://broker:1883";
  broker_username = [];
}

abbrev pub state : State Whole Client (World (Averager Whole))
state = record {
  session = record {
    db = record { tables = record { devices = []; streams = []; certificates = [] }; next_id = 1 };
    calls = 0;
  };
  client = new_client;
  work = record {
    averager = [];
    metadata = none;
    execs = 0;
    requests = [];
    zenroom_errors = 0;
    datastore_errors = 0;
    zenroom_observed = 0;
    datastore_observed = 0;
  };
}

abbrev pub uuid : Text
uuid = codes "uuid"

abbrev pub token : Text
token = replicate 32 b'A'

abbrev pub drawn : Entropy
drawn = record { new_uuid = ok uuid; random_bytes = λ n. ok (replicate n 0) }

handle_create-Outcome_example :
    CreateOutcome encoder uuid token
      (request barcelona)
      state
      (handle_create encoder drawn (request barcelona) state)
unfolding generate_token base64
handle_create-Outcome_example =
    handle_create-Outcome encoder uuid token drawn refl refl names-Generated Whole-IsIeee
      (request barcelona) state

abbrev pub delete_request : DeleteRequest
delete_request = record { stream_uid = uuid; token = token }

handle_delete-Outcome_example :
    DeleteOutcome encoder delete_request state (handle_delete encoder delete_request state)
handle_delete-Outcome_example = handle_delete-Outcome encoder delete_request state

handle_callback_refused_example :
    handle_callback encoder (build_topic (codes "a-b")) (codes "[]") state ≡ (ok tt, state)
handle_callback_refused_example =
    handle_callback_refused encoder (codes "a-b") (codes "[]") state (omega arith) dashed-not_word
