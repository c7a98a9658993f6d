-- ===== src/Postgres/Streams/Reading.antt =====
-- `GetDevice` and `GetDevices` of pkg/postgres/postgres.go: what they read when no call of the driver fails.
use iotencoder.Common.{ℕ, ◌+◌, ◌≡◌, refl, Text, List, map, some, ok}
use iotencoder.Postgres.Types.{DeviceRow, Stream}
use iotencoder.Postgres.Tables.{Db}
use iotencoder.Postgres.Statements.{
  answer, find_device, select_device, streams_of, select_streams, select_devices,
}
use iotencoder.Postgres.Transactor.{Session, with_tx, commit_or_rollback}
use iotencoder.Postgres.Rows.Quiet.{AllScan, AllScan-ok, map_rows-quiet, map_rows_plain-quiet}
use iotencoder.Postgres.Streams.{
  Server, scan_stream, device_body, get_device, devices_body, get_devices,
}
use iotencoder.Postgres.Streams.RoundTrip.{quiet, get_quiet, at_calls}

module _ {F : Type 0} (server : Server F) where
  -- The devices of the table, in the order of the answer.
  abbrev pub listed : Session F → List (ℕ × Text)
  listed s =
      server.device_order.arranged s.db (map (λ d. (d.id, d.device_token)) s.db.tables.devices)

  select_device-found :
      (token : Text) (row : DeviceRow F) (db : Db F)
      → find_device token db.tables.devices ≡ some row
      → select_device token db ≡ (answer row, db)
  unfolding select_device
  select_device-found token row db found = rw found refl

  body-quiet :
      (token : Text) (row : DeviceRow F) (streams : List (Stream F)) (s : Session F)
      → find_device token s.db.tables.devices ≡ some row
      → AllScan
          (scan_stream server)
          (server.stream_order.arranged s.db (streams_of row.id s.db.tables.streams))
          streams
      → (n : ℕ) × (device_body (quiet server) token (at_calls server s s.db (s.calls + 1))
          ≡ (ok (record { row = row; streams = streams }), at_calls server s s.db n))
  unfolding device_body
  body-quiet token row streams s found scans =
      let t = at_calls server s s.db (s.calls + 1) in
      let (n, read) =
        map_rows-quiet (scan_stream server) "failed to scan stream row into struct"
          (select_streams server.stream_order row.id)
          (server.stream_order.arranged s.db (streams_of row.id s.db.tables.streams)) streams
          (record t { calls = t.calls + 1 + 1 }) (unfold select_streams in refl) scans in
      (
        n,
        rw
            (
              get_quiet server (select_device token) t row s.db
                  (select_device-found token row s.db found),
              read,
            )
            refl,
      )

  -- With no failing call, if a device has the token and the operations of all its streams can be
  -- parsed, `get_device` answers the device with every one of its streams, in the order of the answer, and
  -- changes nothing in the database.
  pub get_device_lem :
      (token : Text) (row : DeviceRow F) (streams : List (Stream F)) (s : Session F)
      → find_device token s.db.tables.devices ≡ some row
      → AllScan
          (scan_stream server)
          (server.stream_order.arranged s.db (streams_of row.id s.db.tables.streams))
          streams
      → ((get_device (quiet server) token s).0 ≡ ok (record { row = row; streams = streams }))
        × ((get_device (quiet server) token s).1.db ≡ s.db)
  unfolding get_device with_tx commit_or_rollback
  get_device_lem token row streams s found scans =
      let (n, e) = body-quiet token row streams s found scans in rw e (refl, refl)

  devices-quiet :
      (s : Session F)
      → (n : ℕ) × (devices_body (quiet server) (at_calls server s s.db (s.calls + 1))
          ≡ (ok (listed s), at_calls server s s.db n))
  unfolding devices_body
  devices-quiet s =
      let devices = listed s in
      let (n, read) =
        map_rows_plain-quiet (λ r. ok r) "failed to scan row into Device struct"
          (select_devices server.device_order) devices devices
          (at_calls server s s.db (s.calls + 1)) (unfold select_devices in refl)
          (AllScan-ok devices) in
      (n, rw read refl)

  -- With no failing call, `get_devices` answers the id and the token of every device, in the order
  -- of the answer, and changes nothing in the database.
  pub get_devices_lem :
      (s : Session F)
      → ((get_devices (quiet server) s).0 ≡ ok (listed s))
        × ((get_devices (quiet server) s).1.db ≡ s.db)
  unfolding get_devices with_tx commit_or_rollback
  get_devices_lem s = let (n, e) = devices-quiet s in rw e (refl, refl)
