-- ===== src/Postgres/Streams/Created.antt =====
-- What `GetDevice` reads after `CreateStream` (pkg/postgres/postgres.go): the device as it was saved, with the
-- streams that it had and the new one.
use iotencoder.Common.{
  ℕ, ◌+◌, ◌≡◌, refl, sym, ap, ◌∙◌, subst, Text, text_eq_iff, text_eq_refl, Option-cases, inl, inr,
  List, [], ◌∷◌, ◌++◌, Option, none, some, Result, ok, arith,
}
use iotencoder.Postgres.Types.{DeviceRow, Stream, Operation}
use iotencoder.Postgres.Tables.{StreamRow, Db}
use iotencoder.Postgres.Statements.{answer, find_device, update_device, upsert_device, streams_of}
use iotencoder.Postgres.Rows.Quiet.{AllScan}
use iotencoder.Postgres.Streams.{Server, OperationsJson, stream_row, scan_stream}
use iotencoder.Postgres.Streams.Atomic.{Creates}
use iotencoder.Postgres.Streams.Effects.{StreamsBelow, IsFresh, upsert_device-new, insert_stream-ok}

-- The streams of the device that has a token, if one has.
unfoldable pub rows_of : {F : Type 0} → Db F → Option (DeviceRow F) → List StreamRow
rows_of db none = []
rows_of db (some d) = streams_of d.id db.tables.streams

-- What was printed is parsed to what it was.
pub record Parses {F : Type 0} (json : OperationsJson F) : Type 0 where
  pub parse-print :
      (ops : List (Operation F)) (t : Text)
      → json.print_operations ops ≡ ok t
      → json.parse_operations t ≡ ok ops

streams_of-new : (n : ℕ) (ss : List StreamRow) → StreamsBelow n ss → streams_of n ss ≡ []
unfolding streams_of
streams_of-new n [] h = refl
streams_of-new n (s ∷ ss) h = ground (arith, streams_of-new n ss h.1)

streams_of-append :
    (row : StreamRow) (ss : List StreamRow)
    → streams_of row.device_id (ss ++ (row ∷ [])) ≡ streams_of row.device_id ss ++ (row ∷ [])
unfolding streams_of
streams_of-append row [] = ground arith
streams_of-append row (s ∷ ss) = ground (arith, streams_of-append row ss)

module _ {F : Type 0} where
  find_device-append :
      (d : DeviceRow F) (ds : List (DeviceRow F))
      → find_device d.device_token ds ≡ none
      → find_device d.device_token (ds ++ (d ∷ [])) ≡ some d
  unfolding find_device
  find_device-append d [] h = rw (text_eq_refl d.device_token) refl
  find_device-append d (x ∷ ds) h = ground (arith, find_device-append d ds)

  find_device-update :
      (row d : DeviceRow F) (ds : List (DeviceRow F))
      → find_device row.device_token ds ≡ some d
      → find_device row.device_token (update_device row ds) ≡ some (record row { id = d.id })
  unfolding find_device update_device
  find_device-update row d [] h = ground (arith, h)
  find_device-update row d (x ∷ ds) h =
      ground (arith, text_eq_iff x.device_token row.device_token, find_device-update row d ds, h)

  pub upsert_device-found :
      (row d : DeviceRow F) (db saved : Db F) (id : ℕ)
      → find_device row.device_token db.tables.devices ≡ some d
      → upsert_device row db ≡ (answer id, saved)
      → (id ≡ d.id)
        × (saved ≡ record {
          tables = record db.tables { devices = update_device row db.tables.devices };
          next_id = db.next_id + 1;
        })
  unfolding upsert_device
  upsert_device-found row d db saved id old e = ground arith

  -- After a device was saved it is found, with the columns of the row and the id that was answered.
  unfoldable pub Saved : DeviceRow F → Db F → Db F → ℕ → Type 0
  Saved row db saved id =
      (find_device row.device_token saved.tables.devices ≡ some (record row { id = id }))
      × (saved.tables.streams ≡ db.tables.streams)
      × (rows_of db (find_device row.device_token db.tables.devices)
          ≡ streams_of id db.tables.streams)

  pub upsert_device-Saved :
      (row : DeviceRow F) (db saved : Db F) (id : ℕ)
      → IsFresh db
      → upsert_device row db ≡ (answer id, saved)
      → Saved row db saved id
  unfolding rows_of Saved
  upsert_device-Saved row db saved id fresh e =
      elim (Option-cases (find_device row.device_token db.tables.devices)) [
        | inl new ↦
            let (i, left) = upsert_device-new row db saved id new e in
            (
              ap (λ x. find_device row.device_token x.tables.devices) left
                  ∙ find_device-append (record row { id = db.next_id }) db.tables.devices new
                  ∙ ap (λ n. some (record row { id = n })) (sym i),
              ap (λ x. x.tables.streams) left,
              rw new (
                  sym (streams_of-new db.next_id db.tables.streams fresh.streams_below)
                  ∙ ap (λ n. streams_of n db.tables.streams) (sym i)),
            )
        | inr (d, old) ↦
            let (i, left) = upsert_device-found row d db saved id old e in
            (
              ap (λ x. find_device row.device_token x.tables.devices) left
                  ∙ find_device-update row d db.tables.devices old
                  ∙ ap (λ n. some (record row { id = n })) (sym i),
              ap (λ x. x.tables.streams) left,
              rw old (ap (λ n. streams_of n db.tables.streams) (sym i)),
            )
      ]

  -- After a creation the device is found, with the columns it was saved with.
  pub Creates-Finds :
      (server : Server F) (stream made : Stream F) (row : DeviceRow F) (uuid token : Text)
      (db db' : Db F)
      → IsFresh db
      → Creates server stream row uuid token db made db'
      → (id : ℕ) × (find_device row.device_token db'.tables.devices ≡ some (record row { id = id }))
  unfolding Saved
  Creates-Finds server stream made row uuid token db db' fresh
        (id, saved, operations, up, pr, ins, es) =
      let (found, same, rows) = upsert_device-Saved row db saved id fresh up in
      let (free, left) =
        insert_stream-ok (stream_row server id stream uuid token operations) saved db' ins in
      (id, ap (λ x. find_device row.device_token x.tables.devices) left ∙ found)

AllScan-append :
    {R A : Type 0} (scan : R → Result A) (rs : List R) (as' : List A) (r : R) (a : A)
    → AllScan scan rs as'
    → scan r ≡ ok a
    → AllScan scan (rs ++ (r ∷ [])) (as' ++ (a ∷ []))
AllScan-append scan [] [] r a h e = (e, tt)
AllScan-append scan [] (b ∷ as') r a h e = elim h [ ]
AllScan-append scan (q ∷ rs) [] r a h e = elim h [ ]
AllScan-append scan (q ∷ rs) (b ∷ as') r a h e = (h.0, AllScan-append scan rs as' r a h.1 e)

module _ {F : Type 0} (server : Server F) (law : Parses server.json) where
  open server use {json}

  -- What a row of the streams is read as.
  abbrev pub read_of : Stream F → Stream F
  read_of stream = record {
    community_id = stream.community_id;
    public_key = stream.public_key;
    operations = stream.operations;
    stream_id = [];
    token = [];
    device = none;
  }

  scan_stream-row :
      (id : ℕ) (stream : Stream F) (uuid token operations : Text)
      → json.print_operations stream.operations ≡ ok operations
      → scan_stream server (stream_row server id stream uuid token operations) ≡ ok (read_of stream)
  unfolding scan_stream
  scan_stream-row id stream uuid token operations e =
      rw (law.parse-print stream.operations operations e) refl

  -- After `create_stream` has created a stream, on a database whose ids stay below its sequence, the
  -- device is found with the columns it was saved with, and its rows are those it had and the new one.
  pub Creates-Reads :
      (stream made : Stream F) (row : DeviceRow F) (uuid token : Text) (db db' : Db F)
      (olds : List (Stream F))
      → IsFresh db
      → Creates server stream row uuid token db made db'
      → AllScan
          (scan_stream server)
          (rows_of db (find_device row.device_token db.tables.devices))
          olds
      → (id : ℕ) × (find_device row.device_token db'.tables.devices ≡ some (record row { id = id }))
        × AllScan
            (scan_stream server)
            (streams_of id db'.tables.streams)
            (olds ++ (read_of stream ∷ []))
  unfolding Saved
  Creates-Reads stream made row uuid token db db' olds fresh
        (id, saved, operations, up, pr, ins, es) scans =
      let (found, same, rows) = upsert_device-Saved row db saved id fresh up in
      let sr = stream_row server id stream uuid token operations in
      let (free, left) = insert_stream-ok sr saved db' ins in
      let streams : streams_of id db'.tables.streams
          ≡ streams_of id db.tables.streams ++ (sr ∷ []) =
        ap (λ x. streams_of id x.tables.streams) left
        ∙ streams_of-append sr saved.tables.streams
        ∙ ap (λ x. streams_of id x ++ (sr ∷ [])) same in
      (
        id,
        ap (λ x. find_device row.device_token x.tables.devices) left ∙ found,
        subst (λ x. AllScan (scan_stream server) x (olds ++ (read_of stream ∷ []))) (sym streams)
            (AllScan-append (scan_stream server) (streams_of id db.tables.streams) olds sr
              (read_of stream) (subst (λ x. AllScan (scan_stream server) x olds) rows scans)
              (scan_stream-row id stream uuid token operations pr)),
      )
