-- ===== src/Rpc/Encoder/Delivery/Tests.antt =====
-- The theorems on the messages of a new stream at a request without operations.
use iotencoder.Common.{
  ℕ, ◌+◌, pos, ap, length, ◌++◌, ◌≡◌, refl, arith, Text, text_eq, codes, List, [], ◌∷◌, none, some,
  new, Result, ok, err,
}
use mathlib.Core.List.{Permᴰ, Memᴰ}
use iotencoder.Common.Float.{Whole, whole_float, Whole-IsIeee}
use iotencoder.Postgres.Types.{token_length, Operation, DeviceRow, Stream}
use iotencoder.Postgres.Statements.{
  find_device, upsert_device, is_exposure, insert_stream, conflicts,
}
use iotencoder.Common.Dict.{lookup}
use iotencoder.Postgres.Transactor.{with_tx, get}
use iotencoder.Postgres.Token.{generate_token, base64}
use iotencoder.Postgres.Streams.{OperationsJson, create_stream}
use iotencoder.Postgres.Streams.Created.{rows_of, Parses, read_of}
use iotencoder.Mqtt.{Client, build_topic, subscribe}
use iotencoder.Pipeline.MovingAverage.{Averager}
use iotencoder.Pipeline.MovingAverage.Window.{moving_average_lem}
use iotencoder.Pipeline.Operations.{averager_at}
use iotencoder.Pipeline.Operations.Succeeding.{Answering}
use iotencoder.Pipeline.Processor.{World, WriteRequest}
use iotencoder.Pipeline.Processor.Serving.{Available}
use iotencoder.Smartcitizen.Types.{SensorData, Json}
use iotencoder.Smartcitizen.Metadata.{Table}
use iotencoder.Rpc.Requests.{CreateRequest, requested_stream, validate_create_request, to_lower}
use iotencoder.Rpc.Tests.{names, request, barcelona, names-Generated}
use iotencoder.Rpc.Topic.{is_word}
use iotencoder.Rpc.Encoder.Delivery.Sent.{SentFor}
use iotencoder.Rpc.Encoder.Delivery.Written.{with_pipeline, create_then_written}
use iotencoder.Rpc.Encoder.{Encoder, State, handle_create, handle_callback}
use iotencoder.Rpc.Encoder.Parts.{mqtt_client}
use iotencoder.Rpc.Encoder.Messages.{with_quiet}
use iotencoder.Rpc.Encoder.Delivery.{create_then_message}
use iotencoder.Rpc.Encoder.Tests.{encoder, server, services, state, drawn, uuid, token}

-- Only the empty list of operations can be printed.
abbrev print : List (Operation Whole) → Result Text
print [] = ok (codes "[]")
print (op ∷ ops) = err (new "unsupported")

abbrev json : OperationsJson Whole
json = record { print_operations = print; parse_operations = λ t. ok [] }

json-Parses : Parses json
json-Parses = record { parse-print = parses }
  where
    parses : (ops : List (Operation Whole)) (t : Text) → print ops ≡ ok t → ok [] ≡ ok ops
    parses [] t e = refl
    parses (op ∷ ops) t e = ground (arith, e)

abbrev whole : Encoder Whole Client (World (Averager Whole))
whole = record encoder { server = record server { json = json }; mqtt = mqtt_client (λ n. none) }

abbrev plain_request : CreateRequest Whole
plain_request = record (request barcelona) { operations = [] }

creation_ok : (handle_create whole drawn plain_request state).0 ≡ ok (uuid, token)
unfolding handle_create generate_token base64 validate_create_request requested_stream create_stream
    with_tx get upsert_device is_exposure text_eq to_lower find_device insert_stream conflicts
    subscribe lookup
creation_ok = refl

token_drawn : generate_token drawn.random_bytes token_length ≡ ok token
unfolding generate_token base64
token_drawn = refl

create_then_message_example :
    let w' = (handle_create whole drawn plain_request state).1 in
    (stream : Stream Whole) × (row : DeviceRow Whole) × (requested_stream names plain_request
      ≡ ok stream)
    × ((n : ℕ) × (stream.device ≡ some (record row { id = n })))
    × (row.device_token ≡ codes "abc_1")
    × ((streams : List (Stream Whole)) × Permᴰ
          (read_of whole.server json-Parses stream ∷ [])
          streams
        × ((handle_callback (with_quiet whole) (build_topic (codes "abc_1")) (codes "[]") w').1.work
            ≡ (whole.processor.process
                (record { row = row; streams = streams })
                (some (codes "[]"))
                w'.work).1))
unfolding is_word generate_token base64 rows_of find_device
create_then_message_example =
    create_then_message whole json-Parses uuid token plain_request (codes "[]") [] drawn
      (uuid, token) state refl refl names-Generated Whole-IsIeee
      (refl, (refl, (refl, (refl, (refl, tt))))) refl
      (record { devices_below = tt; streams_below = tt }) tt creation_ok

abbrev point : SensorData Whole
point = record {
  recorded_at = pos 1000;
  sensors = record { id = pos 12; value = some (pos 7) } ∷ [];
}

-- Every payload has the one data point.
abbrev measured : Json Whole
measured = record {
  parse_payload = λ p. ok (point ∷ []);
  parse_metadata = λ p. ok [];
  print_device = λ d. ok d.token;
  sensors_asset = ok [];
}

abbrev table : Table
table = λ id. some (record {
  id = id;
  uuid = [];
  parent_id = none;
  name = codes "PM";
  description = [];
  unit = none;
})

abbrev known : State Whole Client (World (Averager Whole))
known = record state { work = record state.work { metadata = some table } }

answering : Answering (averager_at (pos 1000)) measured
answering = record {
  averages =
      λ v t id interval s. (_, ap (λ r. r.0) (moving_average_lem (pos 1000) v t id interval s));
  prints = λ d. (d.token, refl);
}

available : Available services
available = record {
  scripted = (codes "code", refl);
  encrypts = λ n code keys payload. (payload, refl);
  takes = λ n req. refl;
}

abbrev piped : Encoder Whole Client (World (Averager Whole))
piped = with_pipeline whole (averager_at (pos 1000)) measured services

written_ok : (handle_create piped drawn plain_request known).0 ≡ ok (uuid, token)
unfolding handle_create generate_token base64 validate_create_request requested_stream create_stream
    with_tx get upsert_device is_exposure text_eq to_lower find_device insert_stream conflicts
    subscribe lookup
written_ok = refl

written_known : (handle_create piped drawn plain_request known).1.work.metadata ≡ some table
unfolding handle_create generate_token base64 validate_create_request requested_stream create_stream
    with_tx get upsert_device is_exposure text_eq to_lower find_device insert_stream conflicts
    subscribe lookup
written_known = refl

create_then_written_example :
    let w' = (handle_create piped drawn plain_request known).1 in
    (sent : List WriteRequest) × ((handle_callback
        (with_quiet piped)
        (build_topic (codes "abc_1"))
        (codes "[]")
        w').1.work.requests
      ≡ w'.work.requests ++ sent)
    × (length sent ≡ 0 + 1)
    × SentFor (codes "community") (codes "abc_1") sent
    × ((s : Stream Whole) → Memᴰ s [] → SentFor s.community_id (codes "abc_1") sent)
unfolding is_word rows_of find_device
create_then_written_example =
    create_then_written whole (averager_at (pos 1000)) measured services answering available
      json-Parses uuid token plain_request [] drawn (uuid, token) known (codes "[]") table point []
      refl token_drawn names-Generated Whole-IsIeee (refl, (refl, (refl, (refl, (refl, tt))))) refl
      (record { devices_below = tt; streams_below = tt }) tt tt tt written_ok refl written_known
