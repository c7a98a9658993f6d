-- ===== src/Postgres/Streams/RoundTrip.antt =====
-- A device's only stream, created by `CreateStream` and deleted by `DeleteStream` with the uuid and the
-- token that were returned (pkg/postgres/postgres.go), leaves no trace in the tables.
use iotencoder.Common.{
  ℕ, ◌+◌, ◌≡◌, refl, Text, false, [], ◌∷◌, ◌++◌, none, some, Result, ok, err, panic, arith, ◌∙◌, ap,
  subst, text_eq_refl,
}
use iotencoder.Postgres.Types.{DeviceRow, Stream, token_length}
use iotencoder.Postgres.Tables.{StreamRow, Db}
use iotencoder.Postgres.Statements.{
  answer, Statement, Decrypts, find_device, conflicts, delete_stream_row, count_streams,
  select_count, delete_device,
}
use iotencoder.Postgres.Transactor.{Session, Transactor, with_tx, get, commit_or_rollback}
use iotencoder.Postgres.Transactor.Ending.{Ended}
use iotencoder.Postgres.Token.{generate_token}
use iotencoder.Postgres.Streams.{
  Server, Entropy, create_stream, stream_row, delete_last, delete_body, delete_stream,
}
use iotencoder.Postgres.Streams.Atomic.{Creates, create_stream_atomic}
use iotencoder.Postgres.Streams.Effects.{
  IsFresh, count_streams-new, stream_with-append, delete_uuid-append, device_with-append,
  delete_row-append, upsert_device-new, insert_stream-ok,
}

-- A server on which no call of the driver fails.
abbrev pub quiet : {F : Type 0} → Server F → Server F
quiet server = record server { faults = λ _. none }

module _ {F : Type 0} (server : Server F) where
  open server use {password, pgp, json}

  -- The database after the creation of a new device's first stream.
  abbrev with_first : Stream F → DeviceRow F → StreamRow → Db F → Db F
  with_first stream row sr db = record {
    tables = record db.tables {
      devices = db.tables.devices ++ (record row { id = db.next_id } ∷ []);
      streams = db.tables.streams ++ (sr ∷ []);
    };
    next_id = db.next_id + 1;
  }

  abbrev moved_on : Db F → Db F
  moved_on db = record db { next_id = db.next_id + 1 }

  after_creation :
      (stream s : Stream F) (row : DeviceRow F) (uuid token : Text) (db db' : Db F)
      → find_device row.device_token db.tables.devices ≡ none
      → Creates server stream row uuid token db s db'
      → (operations : Text) × (db'
          ≡ with_first stream row (stream_row server db.next_id stream uuid token operations) db)
        × (conflicts (stream_row server db.next_id stream uuid token operations) db.tables.streams
            ≡ false)
  after_creation stream s row uuid token db db' new (id, saved, operations, up, pr, ins, es) =
      let (same, left) = upsert_device-new row db saved id new up in
      let (free, inserted) =
        insert_stream-ok (stream_row server id stream uuid token operations) saved db' ins in
      (operations, ground arith, ground arith)

  module _ (law : Decrypts pgp) where
    delete_only_stream :
        (stream : Stream F) (row : DeviceRow F) (uuid token operations : Text) (db : Db F)
        → let sr = stream_row server db.next_id stream uuid token operations in
          conflicts sr db.tables.streams ≡ false
          → let full = with_first stream row sr db in
            delete_stream_row pgp password uuid token full ≡ (
              answer db.next_id,
              record full { tables = record full.tables { streams = db.tables.streams } },
            )
    unfolding delete_stream_row
    delete_only_stream stream row uuid token operations db free =
        let sr = stream_row server db.next_id stream uuid token operations in
        rw (
          stream_with-append sr db.tables.streams free,
          law.decrypt-encrypt password token,
          text_eq_refl token,
          delete_uuid-append sr db.tables.streams free,
        )

  delete_only_device :
      (row : DeviceRow F) (db : Db F)
      → IsFresh db
      → let gone : Db F = record {
        tables = record db.tables {
          devices = db.tables.devices ++ (record row { id = db.next_id } ∷ []);
        };
        next_id = db.next_id + 1;
      } in
        delete_device db.next_id gone ≡ (answer row.device_token, moved_on db)
  unfolding delete_device
  delete_only_device row db fresh =
      let d : DeviceRow F = record row { id = db.next_id } in
      rw (
        device_with-append db.next_id d db.tables.devices refl fresh.devices_below,
        count_streams-new db.next_id db.tables.streams fresh.streams_below,
        delete_row-append db.next_id d db.tables.devices refl fresh.devices_below,
      )

  -- A statement that is answered, when no call of the driver fails.
  pub get_quiet :
      {A : Type 0} (statement : Statement F A) (t : Transactor F) (a : A) (db : Db F)
      → statement t.work ≡ (answer a, db)
      → get (λ _. none) statement t ≡ (ok a, record t { work = db; calls = t.calls + 1 + 1 })
  unfolding get
  get_quiet statement t a db e = rw e

  abbrev pub at_calls : Session F → Db F → ℕ → Transactor F
  at_calls s db n = record {
    committed = s.db.tables;
    work = db;
    finalised = false;
    finalised_err = none;
    calls = n;
  }

  delete_body-quiet :
      (stream : Stream F) (s : Session F) (id : ℕ) (token : Text) (gone final : Db F)
      → delete_stream_row pgp password stream.stream_id stream.token s.db ≡ (answer id, gone)
      → count_streams id gone.tables.streams ≡ 0
      → delete_device id gone ≡ (answer token, final)
      → delete_body (quiet server) stream (at_calls s s.db (s.calls + 1))
        ≡ (ok (some token), at_calls s final (s.calls + 1 + 1 + 1 + 1 + 1 + 1 + 1))
  unfolding delete_body delete_last
  delete_body-quiet stream s id token gone final e1 e2 e3 =
      let n = s.calls + 1 in
      rw (
        get_quiet (delete_stream_row pgp password stream.stream_id stream.token) (at_calls s s.db n)
            id gone e1,
        get_quiet (select_count id) (at_calls s gone (n + 1 + 1))
            (count_streams id gone.tables.streams) gone (unfold select_count in refl),
        e2,
        get_quiet (delete_device id) (at_calls s gone (n + 1 + 1 + 1 + 1)) token final e3,
      )

  -- A deletion in which every call of the driver succeeds and the statements answer so.
  delete_stream-quiet :
      (stream : Stream F) (s : Session F) (id : ℕ) (token : Text) (gone final : Db F)
      → delete_stream_row pgp password stream.stream_id stream.token s.db ≡ (answer id, gone)
      → count_streams id gone.tables.streams ≡ 0
      → delete_device id gone ≡ (answer token, final)
      → ((delete_stream (quiet server) stream s).0 ≡ ok (some token))
        × ((delete_stream (quiet server) stream s).1.db ≡ final)
  unfolding delete_stream with_tx commit_or_rollback
  delete_stream-quiet stream s id token gone final e1 e2 e3 =
      rw (delete_body-quiet stream s id token gone final e1 e2 e3) (refl, refl)

  -- The round trip from what a creation does to the database.
  delete_stream-Creates :
      (law : Decrypts pgp) (stream created_stream : Stream F) (row : DeviceRow F)
      (uuid token : Text) (db : Db F) (s : Session F)
      → IsFresh db
      → find_device row.device_token db.tables.devices ≡ none
      → Creates server stream row uuid token db created_stream s.db
      → ((delete_stream (quiet server) created_stream s).0 ≡ ok (some row.device_token))
        × ((delete_stream (quiet server) created_stream s).1.db.tables ≡ db.tables)
  delete_stream-Creates law stream created_stream row uuid token db s fresh new made =
      let (operations, after, free) =
        after_creation stream created_stream row uuid token db s.db new made in
      let sr = stream_row server db.next_id stream uuid token operations in
      let delete =
        λ (c : Stream F) (d : Db F). delete_stream_row pgp password c.stream_id c.token d in
      let full : Db F = with_first stream row sr db in
      let gone : Db F = record full {
        tables = record full.tables { streams = db.tables.streams };
      } in
      let row_deleted : delete created_stream s.db ≡ (answer db.next_id, gone) =
        ap (delete created_stream) after
        ∙ ap (λ c. delete c full) made.6
        ∙ delete_only_stream law stream row uuid token operations db free in
      let (done, left) =
        delete_stream-quiet created_stream s db.next_id row.device_token gone (moved_on db)
          row_deleted (count_streams-new db.next_id db.tables.streams fresh.streams_below)
          (delete_only_device row db fresh) in
      (done, ap (λ d. d.tables) left)

  Ended-round_trip :
      (law : Decrypts pgp) (stream made : Stream F) (row : DeviceRow F) (uuid token : Text)
      (s : Session F) (a : Result (Stream F) × Session F)
      → IsFresh s.db
      → find_device row.device_token s.db.tables.devices ≡ none
      → Ended server.faults (Creates server stream row uuid token) s a
      → a.0 ≡ ok made
      → let (r, s') = delete_stream (quiet server) made a.1 in
        (r ≡ ok (some row.device_token)) × (s'.db.tables ≡ s.db.tables)
  Ended-round_trip law stream made row uuid token s (ok c, s1) fresh new creates e =
      delete_stream-Creates law stream made row uuid token s.db s1 fresh new
        (subst (λ x. Creates server stream row uuid token s.db x s1.db) (ground (arith, e)) creates)
  Ended-round_trip law stream made row uuid token s (err x, s1) fresh new same e = ground (arith, e)
  Ended-round_trip law stream made row uuid token s (panic, s1) fresh new same e = ground (arith, e)

  -- On a database whose ids stay below its sequence and in which no device has the token, with a uuid
  -- and a token drawn: when `create_stream` answers a stream, then deleting that stream, with no failing call, succeeds, returns the
  -- device's token and gives back the tables as they were before the creation.
  pub create_delete_round_trip :
      (law : Decrypts pgp) (entropy : Entropy) (stream made : Stream F) (row : DeviceRow F)
      (uuid token : Text) (s : Session F)
      → entropy.new_uuid ≡ ok uuid
      → generate_token entropy.random_bytes token_length ≡ ok token
      → stream.device ≡ some row
      → IsFresh s.db
      → find_device row.device_token s.db.tables.devices ≡ none
      → (create_stream server entropy stream s).0 ≡ ok made
      → let (r, s') = delete_stream (quiet server) made (create_stream server entropy stream s).1 in
        (r ≡ ok (some row.device_token)) × (s'.db.tables ≡ s.db.tables)
  create_delete_round_trip law entropy stream made row uuid token s drawn token_drawn of_device
        fresh new e =
      Ended-round_trip law stream made row uuid token s (create_stream server entropy stream s)
        fresh new
        (create_stream_atomic server entropy uuid token drawn token_drawn stream row s of_device) e
