-- ===== src/Postgres/Streams/Last.antt =====
-- The deletion of a device's last stream by `DeleteStream` of pkg/postgres/postgres.go.
use iotencoder.Common.{
  ℕ, ◌+◌, ◌≡◌, ◌≢◌, refl, sym, ap, ◌∙◌, Text, text_eq_iff, false, List, [], ◌∷◌, Option, none, some,
  arith, inl, inr, ◌⊎◌,
}
use mathlib.Core.Option.{some-injective}
use iotencoder.Postgres.Types.{DeviceRow, Stream}
use iotencoder.Postgres.Tables.{StreamRow, Db}
use iotencoder.Postgres.Statements.{
  answer, conflicts, stream_with, delete_uuid, count_streams, device_with, delete_device,
  delete_stream_row,
}
use iotencoder.Postgres.Streams.{Server}
use iotencoder.Postgres.Streams.Atomic.{Deletes}
use iotencoder.Postgres.Streams.Schema.{DistinctStreams, IsConsistent}
use iotencoder.Postgres.Streams.Tokens.{delete_device-found}

delete_uuid-absent :
    (row : StreamRow) (ss : List StreamRow)
    → conflicts row ss ≡ false
    → delete_uuid row.uuid ss ≡ ss
unfolding conflicts delete_uuid
delete_uuid-absent row [] h = refl
delete_uuid-absent row (s ∷ ss) h = ground (arith, delete_uuid-absent row ss)

pub stream_with-uuid :
    (uuid : Text) (ss : List StreamRow) (s : StreamRow)
    → stream_with uuid ss ≡ some s
    → s.uuid ≡ uuid
unfolding stream_with
stream_with-uuid uuid [] s e = ground arith
stream_with-uuid uuid (x ∷ ss) s e =
    ground (arith, text_eq_iff x.uuid uuid, stream_with-uuid uuid ss s)

-- Of streams with distinct uuids, one is deleted, and the device has one less.
count_streams-delete :
    (uuid : Text) (ss : List StreamRow) (s : StreamRow)
    → DistinctStreams ss
    → stream_with uuid ss ≡ some s
    → count_streams s.device_id (delete_uuid s.uuid ss) + 1 ≡ count_streams s.device_id ss
unfolding count_streams delete_uuid stream_with
count_streams-delete uuid [] s h e = ground arith
count_streams-delete uuid (x ∷ ss) s h e = ground (
  arith,
  text_eq_iff x.uuid uuid,
  text_eq_iff x.uuid s.uuid,
  stream_with-uuid uuid ss s,
  delete_uuid-absent x ss h.0,
  count_streams-delete uuid ss s h.1,
)

module _ {F : Type 0} (server : Server F) where
  open server use {pgp, password}

  delete_stream_row-found :
      (uuid token : Text) (db gone : Db F) (id : ℕ) (s : StreamRow)
      → stream_with uuid db.tables.streams ≡ some s
      → delete_stream_row pgp password uuid token db ≡ (answer id, gone)
      → (id ≡ s.device_id)
        × (gone ≡ record db {
          tables = record db.tables { streams = delete_uuid s.uuid db.tables.streams };
        })
  unfolding delete_stream_row
  delete_stream_row-found uuid token db gone id s found e = ground (arith, found)

  -- When a deletion of the only stream of a device has succeeded, the device is deleted and its token
  -- is what is returned.
  pub Deletes-last :
      (stream : Stream F) (o : Option Text) (db db' : Db F) (s : StreamRow) (d : DeviceRow F)
      → IsConsistent db
      → stream_with stream.stream_id db.tables.streams ≡ some s
      → count_streams s.device_id db.tables.streams ≡ 1
      → device_with s.device_id db.tables.devices ≡ some d
      → Deletes server stream db o db'
      → o ≡ some d.device_token
  Deletes-last stream o db db' s d h found only has (id, gone, del, rest) = by_rest rest
    where
      row :
          (id ≡ s.device_id)
          × (gone ≡ record db {
            tables = record db.tables { streams = delete_uuid s.uuid db.tables.streams };
          })
      row = delete_stream_row-found stream.stream_id stream.token db gone id s found del

      none_left : count_streams id gone.tables.streams ≡ 0
      none_left =
          rw (row.0, row.1)
            (ground (
              arith,
              only,
              count_streams-delete stream.stream_id db.tables.streams s h.distinct_streams found,
            ))

      by_rest :
          ((o ≡ none) × (count_streams id gone.tables.streams ≢ 0) × (db' ≡ gone))
            ⊎ ((token : Text) × (o ≡ some token)
                × (count_streams id gone.tables.streams ≡ 0)
                × (delete_device id gone ≡ (answer token, db')))
          → o ≡ some d.device_token
      by_rest (inl (eo, some_left, same)) = absurd (some_left none_left)
      by_rest (inr (token, eo, zero, e)) =
          let (d', found', same) = delete_device-found id gone db' token e in
          eo
          ∙ ap (λ t. some t) same
          ∙ ap (λ (x : DeviceRow F). some x.device_token)
              (some-injective d' d (
                sym found'
                ∙ ap (λ x. device_with x gone.tables.devices) row.0
                ∙ ap (λ (x : Db F). device_with s.device_id x.tables.devices) row.1
                ∙ has))
