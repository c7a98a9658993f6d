-- ===== src/Postgres/Streams/Effects.antt =====
-- What the statements of a creation and a deletion (pkg/postgres/postgres.go) make of the tables: rows
-- that were appended, and the ids and uuids that are new.
use iotencoder.Common.{
  ℕ, ◌+◌, ◌<◌, ◌≡◌, refl, false, List, [], ◌∷◌, ◌++◌, none, some, arith, text_eq_refl,
}
use iotencoder.Postgres.Types.{DeviceRow}
use iotencoder.Postgres.Tables.{StreamRow, Db}
use iotencoder.Postgres.Statements.{
  answer, find_device, upsert_device, conflicts, insert_stream, stream_with, delete_uuid,
  count_streams, device_with, delete_row,
}

-- No id of a device is at or above the sequence, in either table.
abbrev pub DevicesBelow : {F : Type 0} → ℕ → List (DeviceRow F) → Type 0
DevicesBelow n [] = Unit {0}
DevicesBelow n (d ∷ ds) = (d.id < n) × DevicesBelow n ds

abbrev pub StreamsBelow : ℕ → List StreamRow → Type 0
StreamsBelow n [] = Unit {0}
StreamsBelow n (s ∷ ss) = (s.device_id < n) × StreamsBelow n ss

pub record IsFresh {F : Type 0} (db : Db F) : Type 0 where
  pub devices_below : DevicesBelow db.next_id db.tables.devices
  pub streams_below : StreamsBelow db.next_id db.tables.streams

pub count_streams-new : (n : ℕ) (ss : List StreamRow) → StreamsBelow n ss → count_streams n ss ≡ 0
unfolding count_streams
count_streams-new n [] h = refl
count_streams-new n (s ∷ ss) h = ground (arith, count_streams-new n ss h.1)

pub stream_with-append :
    (row : StreamRow) (ss : List StreamRow)
    → conflicts row ss ≡ false
    → stream_with row.uuid (ss ++ (row ∷ [])) ≡ some row
unfolding conflicts stream_with
stream_with-append row [] h = rw text_eq_refl
stream_with-append row (s ∷ ss) h = ground (arith, stream_with-append row ss)

pub delete_uuid-append :
    (row : StreamRow) (ss : List StreamRow)
    → conflicts row ss ≡ false
    → delete_uuid row.uuid (ss ++ (row ∷ [])) ≡ ss
unfolding conflicts delete_uuid
delete_uuid-append row [] h = rw text_eq_refl
delete_uuid-append row (s ∷ ss) h = ground (arith, delete_uuid-append row ss)

module _ {F : Type 0} where
  pub device_with-append :
      (n : ℕ) (d : DeviceRow F) (ds : List (DeviceRow F))
      → d.id ≡ n
      → DevicesBelow n ds
      → device_with n (ds ++ (d ∷ [])) ≡ some d
  unfolding device_with
  device_with-append n d [] e h = ground arith
  device_with-append n d (x ∷ ds) e h = ground (arith, device_with-append n d ds e h.1)

  pub delete_row-append :
      (n : ℕ) (d : DeviceRow F) (ds : List (DeviceRow F))
      → d.id ≡ n
      → DevicesBelow n ds
      → delete_row n (ds ++ (d ∷ [])) ≡ ds
  unfolding delete_row
  delete_row-append n d [] e h = ground arith
  delete_row-append n d (x ∷ ds) e h = ground (arith, delete_row-append n d ds e h.1)

  -- Saving a device whose token is not in the table appends it with the next id.
  pub upsert_device-new :
      (row : DeviceRow F) (db saved : Db F) (id : ℕ)
      → find_device row.device_token db.tables.devices ≡ none
      → upsert_device row db ≡ (answer id, saved)
      → (id ≡ db.next_id)
        × (saved ≡ record {
          tables = record db.tables {
            devices = db.tables.devices ++ (record row { id = db.next_id } ∷ []);
          };
          next_id = db.next_id + 1;
        })
  unfolding upsert_device
  upsert_device-new row db saved id new e = ground arith

  pub insert_stream-ok :
      (row : StreamRow) (db db' : Db F)
      → insert_stream row db ≡ (answer tt, db')
      → (conflicts row db.tables.streams ≡ false)
        × (db'
            ≡ record db { tables = record db.tables { streams = db.tables.streams ++ (row ∷ []) } })
  unfolding insert_stream
  insert_stream-ok row db db' e = ground arith
