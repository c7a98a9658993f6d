-- ===== src/Postgres/Streams/Orphan.antt =====
-- The errors of `CreateStream` (pkg/postgres/postgres.go) that do not come from the transactor, and so do
-- not roll it back.
use iotencoder.Common.{ℕ, ◌+◌, ap, ◌∙◌, ◌≡◌, refl, Option, some, Error, err, wrap}
use iotencoder.Postgres.Types.{DeviceRow, Stream}
use iotencoder.Postgres.Tables.{Db}
use iotencoder.Postgres.Statements.{answer, upsert_device}
use iotencoder.Postgres.Transactor.{Session, with_tx, commit_or_rollback}
use iotencoder.Postgres.Streams.{Server, Entropy, create_body, create_with, create_stream}
use iotencoder.Postgres.Streams.RoundTrip.{quiet, get_quiet, at_calls}

module _ {F : Type 0} (server : Server F) where
  create_body-orphan :
      (entropy : Entropy) (stream : Stream F) (row : DeviceRow F) (s : Session F) (e : Error)
      (id : ℕ) (saved : Db F)
      → entropy.new_uuid ≡ err e
      → upsert_device row s.db ≡ (answer id, saved)
      → create_body (quiet server) entropy stream row (at_calls server s s.db (s.calls + 1)) ≡ (
        err (wrap e "failed to generate stream UUID"),
        at_calls server s saved (s.calls + 1 + 1 + 1),
      )
  unfolding create_body
  create_body-orphan entropy stream row s e id saved no_uuid up = rw (
    get_quiet server (upsert_device row) (at_calls server s s.db (s.calls + 1)) id saved up,
    no_uuid,
  )

  create_with-orphan :
      (entropy : Entropy) (stream : Stream F) (row : DeviceRow F) (s : Session F) (e : Error)
      (id : ℕ) (saved : Db F)
      → entropy.new_uuid ≡ err e
      → upsert_device row s.db ≡ (answer id, saved)
      → ((create_with (quiet server) entropy stream (some row) s).0
          ≡ err (wrap e "failed to generate stream UUID"))
        × ((create_with (quiet server) entropy stream (some row) s).1.db ≡ saved)
  unfolding create_with with_tx commit_or_rollback
  create_with-orphan entropy stream row s e id saved no_uuid up =
      rw (create_body-orphan entropy stream row s e id saved no_uuid up) (refl, refl)

  -- When no call of the driver fails, the device is saved and no uuid can be drawn, `create_stream`
  -- returns the error, and the saved device is committed nevertheless.
  pub create_stream_orphan :
      (entropy : Entropy) (stream : Stream F) (row : DeviceRow F) (s : Session F) (e : Error)
      (id : ℕ) (saved : Db F)
      → stream.device ≡ some row
      → entropy.new_uuid ≡ err e
      → upsert_device row s.db ≡ (answer id, saved)
      → ((create_stream (quiet server) entropy stream s).0
          ≡ err (wrap e "failed to generate stream UUID"))
        × ((create_stream (quiet server) entropy stream s).1.db ≡ saved)
  unfolding create_stream
  create_stream_orphan entropy stream row s e id saved device no_uuid up =
      let (fails, keeps) = create_with-orphan entropy stream row s e id saved no_uuid up in
      let run = λ (d : Option (DeviceRow F)). create_with (quiet server) entropy stream d s in
      (ap (λ d. (run d).0) device ∙ fails, ap (λ d. (run d).1.db) device ∙ keeps)
