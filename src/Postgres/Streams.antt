-- ===== src/Postgres/Streams.antt =====
-- The store of devices and streams of pkg/postgres/postgres.go: `CreateStream`, `DeleteStream`,
-- `GetDevices` and `GetDevice`. Of the `*Device` that `DeleteStream` returns only the token is set,
-- so it is the token.
pub mod Atomic
pub mod Effects
pub mod Orphan
pub mod RoundTrip
pub mod Reading
pub mod Owners
pub mod Schema
pub mod Keeping
pub mod Tokens
pub mod Untouched
pub mod Last
pub mod Unique
pub mod Histories
pub mod Created
use iotencoder.Common.{
  ℕ, ◌==◌, Text, Bool, true, false, List, [], ◌∷◌, Option, none, some, Error, Result, ok, err,
  panic, new, wrap, unique_violation, if◌then◌else◌,
}
use iotencoder.Postgres.Types.{Operation, DeviceRow, Stream, Device, token_length}
use iotencoder.Postgres.Tables.{StreamRow, Db, Tables}
use iotencoder.Postgres.Statements.{
  Reply, answer, refusal, Statement, Pgp, upsert_device, insert_stream, delete_stream_row,
  select_count, delete_device, select_devices, select_device, select_streams, RowOrder,
}
use iotencoder.Postgres.Transactor.{
  Session, Transactor, Tx, ◌>>=◌, return, wrapping, outside, get, with_tx,
}
use iotencoder.Postgres.Rows.{map_rows}
use iotencoder.Postgres.Token.{generate_token}

-- `Operations.Value` and `Operations.Scan`: `encoding/json` at the type of the operations.
pub record OperationsJson (F : Type 0) : Type 0 where
  pub print_operations : List (Operation F) → Result Text
  pub parse_operations : Text → Result (List (Operation F))

-- The random values of one call: `uuid.NewRandom`, and what `rand.Read` fills n bytes with.
pub record Entropy : Type 0 where
  pub new_uuid : Result Text
  pub random_bytes : ℕ → Result Text

-- `DB`: its password, the server's and the driver's behaviour.
pub record Server (F : Type 0) : Type 0 where
  pub password : Text
  pub pgp : Pgp
  pub json : OperationsJson F
  pub faults : ℕ → Option Error
  pub device_order : RowOrder F (ℕ × Text)
  pub stream_order : RowOrder F StreamRow

module _ {F : Type 0} (server : Server F) where
  open server use {password, pgp, json, faults}

  abbrev pub stream_row : ℕ → Stream F → Text → Text → Text → StreamRow
  stream_row id stream uuid token operations = record {
    device_id = id;
    community_id = stream.community_id;
    public_key = stream.public_key;
    token = pgp.encrypt password token;
    operations = operations;
    uuid = uuid;
  }

  -- The argument `stream.Operations` is printed when the statement is sent.
  insert_printed : ℕ → Stream F → Text → Text → Result Text → Statement F (Unit {0})
  insert_printed id stream uuid token (ok operations) db =
      insert_stream (stream_row id stream uuid token operations) db
  insert_printed id stream uuid token (err e) db = (refusal e, db)
  insert_printed id stream uuid token panic db = (refusal (new "panic"), db)

  -- How the error of the insert is reported.
  insert_reported : Result (Unit {0}) × Transactor F → Result (Unit {0}) × Transactor F
  insert_reported (ok a, t) = (ok a, t)
  insert_reported (err unique_violation, t) =
      (err (new "failed to create stream: device already registered within community"), t)
  insert_reported (err e, t) = (err (wrap e "failed to create stream"), t)
  insert_reported (panic, t) = (panic, t)

  abbrev pub created : Stream F → Text → Text → Stream F
  created stream uuid token = record stream { stream_id = uuid; token = token }

  insert_tx : ℕ → Stream F → Text → Text → Tx F (Unit {0})
  unfolding insert_printed insert_reported
  insert_tx id stream uuid token t =
      insert_reported (
        get faults (insert_printed id stream uuid token (json.print_operations stream.operations))
          t)

  unfoldable pub create_body : Entropy → Stream F → DeviceRow F → Tx F (Stream F)
  unfolding insert_tx
  create_body entropy stream row = do
    id ← wrapping "failed to save device" (get faults (upsert_device row))
    uuid ← wrapping "failed to generate stream UUID" (outside entropy.new_uuid)
    token ←
        wrapping "failed to generate random token"
          (outside (generate_token entropy.random_bytes token_length))
    _ ← insert_tx id stream uuid token
    return (created stream uuid token)

  unfoldable pub create_with :
      Entropy → Stream F → Option (DeviceRow F) → Session F → Result (Stream F) × Session F
  unfolding create_body
  create_with entropy stream none s = (panic, s)
  create_with entropy stream (some row) s =
      with_tx faults true "failed to start transaction when inserting device"
        (create_body entropy stream row) s

  -- `CreateStream`; a stream with no device is read through a nil pointer.
  unfoldable pub create_stream : Entropy → Stream F → Session F → Result (Stream F) × Session F
  unfolding create_with
  create_stream entropy stream s = create_with entropy stream stream.device s

  delete_last : ℕ → ℕ → Tx F (Option Text)
  delete_last id n =
      if n == 0
      then (do
        token ← wrapping "failed to delete device" (get faults (delete_device id))
        return (some token))
      else return none

  pub delete_body : Stream F → Tx F (Option Text)
  unfolding delete_last
  delete_body stream = do
    id ←
        wrapping "failed to delete stream"
          (get faults (delete_stream_row pgp password stream.stream_id stream.token))
    n ← wrapping "failed to count streams" (get faults (select_count id))
    delete_last id n

  -- `DeleteStream`
  unfoldable pub delete_stream : Stream F → Session F → Result (Option Text) × Session F
  unfolding delete_body
  delete_stream stream s =
      with_tx faults true "failed to start transaction when deleting stream" (delete_body stream) s

  unfoldable pub devices_body : Tx F (List (ℕ × Text))
  devices_body = wrapping "failed to select device rows from database" (
      map_rows faults (λ r. ok r) "failed to scan row into Device struct" false
        (select_devices server.device_order))

  -- `GetDevices`, the id and the token of each device. Its error is no named result.
  unfoldable pub get_devices : Session F → Result (List (ℕ × Text)) × Session F
  unfolding devices_body
  get_devices s = with_tx faults false "failed to begin transaction" devices_body s

  -- A row of the streams, scanned; the columns that are not selected stay empty.
  unfoldable pub scan_stream : StreamRow → Result (Stream F)
  scan_stream row = with_operations (json.parse_operations row.operations)
    where
      with_operations : Result (List (Operation F)) → Result (Stream F)
      with_operations (ok ops) = ok (record {
        community_id = row.community_id;
        public_key = row.public_key;
        operations = ops;
        stream_id = [];
        token = [];
        device = none;
      })
      with_operations (err e) = err (wrap e "failed to unmarshal bytes into Operations")
      with_operations panic = panic

  unfoldable pub device_body : Text → Tx F (Device F)
  unfolding scan_stream
  device_body token = do
    row ← wrapping "failed to load device" (get faults (select_device token))
    streams ← wrapping "failed to execute row mapper" (
        map_rows faults scan_stream "failed to scan stream row into struct" true
          (select_streams server.stream_order row.id))
    return (record { row = row; streams = streams })

  -- `GetDevice`
  unfoldable pub get_device : Text → Session F → Result (Device F) × Session F
  unfolding device_body
  get_device token s = with_tx faults true "failed to begin transaction" (device_body token) s
