-- ===== src/Postgres/Streams/Keeping.antt =====
-- The statements of pkg/postgres/postgres.go keep the database consistent.
pub mod Bodies
use iotencoder.Common.{
  ℕ, text_eq, String, unique_violation, ◌+◌, ◌==◌, ◌≡◌, refl, Text, true, [], ◌∷◌, ◌++◌, Result, ok,
  err, panic, arith, Bool-cases, Option-cases, inl, inr, ==_iff,
}
use iotencoder.Postgres.Types.{DeviceRow, Stream, token_length}
use iotencoder.Postgres.Tables.{StreamRow, Db}
use iotencoder.Postgres.Statements.{
  Statement, find_device, update_device, is_exposure, upsert_device, conflicts, insert_stream,
  select_count, count_streams, delete_device, device_with, Pgp, delete_stream_row, stream_with,
}
use iotencoder.Postgres.Transactor.{Transactor, get, wrapping}
use iotencoder.Postgres.Transactor.Invariant.{
  Always, Anything, Raised, After, Triple, Keeps, >>=-Triple, wrapping-Triple, outside-Triple,
  get-Triple,
}
use iotencoder.Postgres.Token.{generate_token}
use iotencoder.Postgres.Streams.{
  Server, Entropy, stream_row, insert_printed, insert_reported, insert_tx, create_body, delete_last,
  delete_body,
}
use iotencoder.Postgres.Streams.Effects.{DevicesBelow}
use iotencoder.Postgres.Streams.Owners.{
  has_device, upsert_device-Owned, AllOwned-append, AllOwned-delete_uuid, AllOwned-delete_row,
}
use iotencoder.Postgres.Streams.Schema.{
  IsConsistent, DevicesBelow-mono, DevicesBelow-append, DevicesBelow-update, DevicesBelow-delete,
  DistinctDevices-append, DistinctDevices-update, DistinctDevices-delete, DistinctStreams-append,
  DistinctStreams-delete,
}

module _ {F : Type 0} where
  -- The device is there.
  abbrev pub Has : ℕ → Db F → Type 0
  Has id db = has_device id db.tables.devices ≡ true

  pub IsConsistent-Raised : Raised {F = F} IsConsistent
  IsConsistent-Raised tables n m l h = record {
    below = DevicesBelow-mono n m tables.devices l h.below;
    distinct_devices = h.distinct_devices;
    distinct_streams = h.distinct_streams;
    owned = h.owned;
  }

  pub upsert_device-Keeps : (row : DeviceRow F) → Keeps IsConsistent Always (upsert_device row) Has
  unfolding upsert_device
  upsert_device-Keeps row db h _ = elim (Bool-cases (is_exposure row.exposure)) [
    | inl x ↦ elim (Option-cases (find_device row.device_token db.tables.devices)) [
      | inl e ↦
          let (owned, has) =
            upsert_device-Owned row db added db.next_id (unfold upsert_device in rw (x, e) refl)
              h.owned in
          rw (x, e)
            (
              record {
                below =
                    DevicesBelow-append (db.next_id + 1) db.tables.devices
                      (record row { id = db.next_id }) (omega arith) raised_below;
                distinct_devices =
                    DistinctDevices-append db.next_id db.tables.devices row h.below e
                      h.distinct_devices;
                distinct_streams = h.distinct_streams;
                owned = owned;
              },
              omega arith,
              has,
            )
      | inr (d, e) ↦
          let (owned, has) =
            upsert_device-Owned row db changed d.id (unfold upsert_device in rw (x, e) refl)
              h.owned in
          rw (x, e)
            (
              record {
                below = DevicesBelow-update (db.next_id + 1) row db.tables.devices raised_below;
                distinct_devices = DistinctDevices-update row db.tables.devices h.distinct_devices;
                distinct_streams = h.distinct_streams;
                owned = owned;
              },
              omega arith,
              has,
            )
    ]
    | inr x ↦ rw x (h, omega arith)
  ]
    where
      added : Db F
      added = record {
        tables = record db.tables {
          devices = db.tables.devices ++ (record row { id = db.next_id } ∷ []);
        };
        next_id = db.next_id + 1;
      }

      changed : Db F
      changed = record {
        tables = record db.tables { devices = update_device row db.tables.devices };
        next_id = db.next_id + 1;
      }

      raised_below : DevicesBelow (db.next_id + 1) db.tables.devices
      raised_below =
          DevicesBelow-mono db.next_id (db.next_id + 1) db.tables.devices (omega arith) h.below

  pub insert_stream-Keeps :
      (row : StreamRow) → Keeps IsConsistent (Has row.device_id) (insert_stream row) Anything
  unfolding insert_stream
  insert_stream-Keeps row db h has = elim (Bool-cases (conflicts row db.tables.streams)) [
    | inl x ↦ rw x (h, omega arith)
    | inr x ↦ rw x (
      record {
        below = h.below;
        distinct_devices = h.distinct_devices;
        distinct_streams = DistinctStreams-append row db.tables.streams x h.distinct_streams;
        owned = AllOwned-append db.tables.devices db.tables.streams row h.owned has;
      },
      omega arith,
      tt,
    )
  ]

  pub delete_device-Keeps : (id : ℕ) → Keeps IsConsistent Always (delete_device {F = F} id) Anything
  unfolding delete_device
  delete_device-Keeps id db h _ = elim (Option-cases (device_with id db.tables.devices)) [
    | inl e ↦ rw e (h, omega arith)
    | inr (d, e) ↦ elim (Bool-cases (count_streams id db.tables.streams == 0)) [
      | inl x ↦
          rw (e, x)
            (
              record {
                below = DevicesBelow-delete db.next_id id db.tables.devices h.below;
                distinct_devices = DistinctDevices-delete id db.tables.devices h.distinct_devices;
                distinct_streams = h.distinct_streams;
                owned =
                    AllOwned-delete_row id db.tables.devices db.tables.streams
                      ((==_iff (count_streams id db.tables.streams) 0).0 x) h.owned;
              },
              omega arith,
              tt,
            )
      | inr x ↦ rw (e, x) (h, omega arith)
    ]
  ]

  module _ (pgp : Pgp) (password : Text) where
    pub delete_stream_row-Keeps :
        (uuid token : Text)
        → Keeps IsConsistent Always (delete_stream_row {F = F} pgp password uuid token) Anything
    unfolding delete_stream_row
    delete_stream_row-Keeps uuid token db h _ =
        elim (Option-cases (stream_with uuid db.tables.streams)) [
          | inl e ↦ rw e (h, omega arith)
          | inr (s, e) ↦ elim (Option-cases (pgp.decrypt password s.token)) [
            | inl x ↦ rw (e, x) (h, omega arith)
            | inr (t, x) ↦ elim (Bool-cases (text_eq t token)) [
              | inl same ↦
                  rw (e, x, same)
                    (
                      record {
                        below = h.below;
                        distinct_devices = h.distinct_devices;
                        distinct_streams =
                            DistinctStreams-delete s.uuid db.tables.streams h.distinct_streams;
                        owned =
                            AllOwned-delete_uuid db.tables.devices s.uuid db.tables.streams h.owned;
                      },
                      omega arith,
                      tt,
                    )
              | inr other ↦ rw (e, x, other) (h, omega arith)
            ]
          ]
        ]
