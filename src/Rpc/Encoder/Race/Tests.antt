-- ===== src/Rpc/Encoder/Race/Tests.antt =====
-- The theorems on requests that meet, and on those that are refused, at a device with one stream.
use iotencoder.Common.{
  ap, length, true, false, Error, err, ◌≡◌, refl, text_eq, codes, [], ◌∷◌, some, ok, arith,
}
use iotencoder.Common.Dict.{lookup}
use iotencoder.Common.Float.{Whole, whole_float, Whole-IsIeee}
use iotencoder.Postgres.Tables.{StreamRow, Tables}
use iotencoder.Postgres.Statements.{
  find_device, conflicts, stream_with, delete_uuid, count_streams, delete_row, device_with,
  delete_device, delete_stream_row, select_count,
}
use iotencoder.Postgres.Transactor.{with_tx, get}
use iotencoder.Postgres.Token.{generate_token, base64}
use iotencoder.Postgres.Streams.{Entropy, create_stream, delete_stream}
use iotencoder.Postgres.Streams.Tokens.{has_token}
use iotencoder.Mqtt.{Client, client_key, unsubscribe}
use iotencoder.Mqtt.Topics.{live}
use iotencoder.Pipeline.MovingAverage.{Averager}
use iotencoder.Pipeline.Processor.{World}
use iotencoder.Postgres.Streams.Schema.{IsConsistent, IsConsistent-IsFresh}
use iotencoder.Rpc.Requests.{validate_delete_request}
use iotencoder.Rpc.Tests.{request, barcelona, names-Generated}
use iotencoder.Rpc.Encoder.{State, handle_create, handle_delete}
use iotencoder.Rpc.Encoder.Synced.{online}
use iotencoder.Mqtt.Topics.Calls.{new_client-Tracks}
use iotencoder.Rpc.Encoder.Refusals.{create_again_refused, delete_authorised}
use iotencoder.Rpc.Encoder.Race.{delete_commit, delete_unsubscribe, delete_race_loses}
use iotencoder.Rpc.Encoder.Tests.{encoder, state, drawn, uuid, token, delete_request}
use iotencoder.Postgres.Statements.{upsert_device, is_exposure, insert_stream}
use iotencoder.Rpc.Requests.{validate_create_request, requested_stream, to_lower}
use iotencoder.Mqtt.{subscribe}
use iotencoder.Rpc.Encoder.Synced.Tests.{whole, with_stream, stream, token_drawn}

streams_deleted :
    length (handle_delete whole delete_request with_stream).1.session.db.tables.streams ≡ 0
unfolding handle_delete validate_delete_request delete_stream with_tx get delete_stream_row
    stream_with delete_uuid count_streams select_count delete_device delete_row device_with text_eq
    unsubscribe lookup
streams_deleted = refl

delete_authorised_example :
    let w' = (handle_delete whole delete_request with_stream).1 in
    (s : StreamRow) × (stream_with uuid (stream ∷ []) ≡ some s)
    × (some s.token ≡ some token)
    × (w'.session.db.tables.streams ≡ delete_uuid uuid (stream ∷ []))
delete_authorised_example =
    delete_authorised whole delete_request with_stream
      (λ e. ground (arith, streams_deleted, ap (λ (t : Tables Whole). length t.streams) e))

-- The deletion is through with its transaction.
abbrev between : State Whole Client (World (Averager Whole))
between = record with_stream {
  session = (delete_commit (online whole) delete_request with_stream.session).1;
}

device_deleted :
    (delete_commit (online whole) delete_request with_stream.session).0 ≡ ok (some (codes "abc_1"))
unfolding delete_commit validate_delete_request delete_stream with_tx get delete_stream_row
    stream_with delete_uuid count_streams select_count delete_device delete_row device_with text_eq
device_deleted = refl

created_between :
    (handle_create (online whole) drawn (request barcelona) between).0 ≡ ok (uuid, token)
unfolding handle_create generate_token base64 validate_create_request requested_stream create_stream
    with_tx get upsert_device is_exposure text_eq to_lower find_device insert_stream conflicts
    subscribe lookup delete_commit validate_delete_request delete_stream delete_stream_row
    stream_with delete_uuid count_streams select_count delete_device delete_row device_with
created_between = refl

delete_race_loses_example :
    let w2 = (handle_create (online whole) drawn (request barcelona) between).1 in
    let (a, m) =
      delete_unsubscribe
        (online whole)
        (delete_commit (online whole) delete_request with_stream.session).0
        w2.client in
    (a ≡ ok tt)
    × (has_token (codes "abc_1") w2.session.db.tables.devices ≡ true)
    × (live (client_key (codes "tcp://broker:1883") []) (codes "abc_1") m ≡ false)
delete_race_loses_example =
    delete_race_loses whole names-Generated Whole-IsIeee drawn uuid token refl token_drawn
      delete_request (request barcelona) with_stream (uuid, token) new_client-Tracks device_deleted
      created_between

-- Another uuid is drawn for the second request; the subscription of the first one fails.
abbrev redrawn : Entropy
redrawn = record drawn { new_uuid = ok (codes "other") }

devices_created :
    length (handle_create encoder drawn (request barcelona) state).1.session.db.tables.devices ≡ 1
unfolding handle_create generate_token base64 validate_create_request requested_stream create_stream
    with_tx get upsert_device is_exposure text_eq to_lower find_device insert_stream conflicts
    subscribe lookup
devices_created = refl

state-IsConsistent : IsConsistent state.session.db
state-IsConsistent = record { below = tt; distinct_devices = tt; distinct_streams = tt; owned = tt }

create_again_refused_example :
    let w' = (handle_create encoder drawn (request barcelona) state).1 in
    let a = handle_create encoder redrawn (request barcelona) w' in
    (e : Error) × (a.0 ≡ err e)
    × (a.1.session.db.tables ≡ w'.session.db.tables)
    × (a.1.client ≡ w'.client)
create_again_refused_example =
    create_again_refused encoder names-Generated Whole-IsIeee drawn redrawn uuid token
      (codes "other") token (request barcelona) (request barcelona) state refl token_drawn refl
      token_drawn (IsConsistent-IsFresh state.session.db state-IsConsistent) refl refl
      (λ e. ground (arith, devices_created, ap (λ (t : Tables Whole). length t.devices) e))
