-- ===== src/Postgres/Streams/Unique.antt =====
-- Who can delete a stream, and that a device has one stream in a community, by the statements of
-- pkg/postgres/postgres.go.
use iotencoder.Common.{
  ℕ, ◌==◌, ==_iff, ◌≡◌, ◌≢◌, ap, ◌∙◌, Text, text_eq, text_eq_iff, text_eq_refl, Bool, true, false,
  ◌&&◌, ◌||◌, List, [], ◌∷◌, ◌++◌, Option, none, some, arith, inl, inr, ◌⊎◌, Option-cases,
}
use iotencoder.Postgres.Types.{DeviceRow, Stream}
use iotencoder.Postgres.Tables.{StreamRow, Db}
use iotencoder.Postgres.Statements.{
  answer, find_device, conflicts, stream_with, delete_uuid, delete_device, delete_stream_row,
  count_streams,
}
use iotencoder.Postgres.Streams.{Server, stream_row}
use iotencoder.Postgres.Streams.Atomic.{Creates, Deletes}
use iotencoder.Postgres.Streams.Effects.{IsFresh, insert_stream-ok}
use iotencoder.Postgres.Streams.Created.{Saved, upsert_device-Saved, upsert_device-found}
use iotencoder.Postgres.Streams.Owners.{delete_device-ok}
use iotencoder.Postgres.Streams.Last.{stream_with-uuid}

-- Whether a device has a stream in a community.
unfoldable pub taken : ℕ → Text → List StreamRow → Bool
taken id community [] = false
taken id community (s ∷ ss) =
    (s.device_id == id && text_eq s.community_id community) || taken id community ss

taken-append :
    (row : StreamRow) (ss : List StreamRow)
    → taken row.device_id row.community_id (ss ++ (row ∷ [])) ≡ true
unfolding taken
taken-append row [] =
    ground (arith, text_eq_refl row.community_id, ==_iff row.device_id row.device_id)
taken-append row (s ∷ ss) = ground (arith, taken-append row ss)

taken-conflicts :
    (row : StreamRow) (ss : List StreamRow)
    → taken row.device_id row.community_id ss ≡ true
    → conflicts row ss ≡ true
unfolding taken conflicts
taken-conflicts row [] h = ground arith
taken-conflicts row (s ∷ ss) h = ground (arith, taken-conflicts row ss)

module _ {F : Type 0} (server : Server F) where
  open server use {pgp, password}

  -- A device that is found by its token has a stream in a community.
  pub Occupied : Text → Text → Db F → Type 0
  Occupied token community db =
      (d : DeviceRow F) × (find_device token db.tables.devices ≡ some d)
      × (taken d.id community db.tables.streams ≡ true)

  pub Creates-Occupied :
      (stream made : Stream F) (row : DeviceRow F) (uuid token : Text) (db db' : Db F)
      → IsFresh db
      → Creates server stream row uuid token db made db'
      → Occupied row.device_token stream.community_id db'
  unfolding Occupied Saved
  Creates-Occupied stream made row uuid token db db' fresh
        (id, saved, operations, up, pr, ins, es) =
      let sr = stream_row server id stream uuid token operations in
      let (found, same, rows) = upsert_device-Saved row db saved id fresh up in
      let (free, left) = insert_stream-ok sr saved db' ins in
      (
        record row { id = id },
        ap (λ (x : Db F). find_device row.device_token x.tables.devices) left ∙ found,
        ap (λ (x : Db F). taken id stream.community_id x.tables.streams) left
            ∙ taken-append sr saved.tables.streams,
      )

  -- No second stream is created for the device in the community.
  pub Occupied-refuses :
      (stream made : Stream F) (row : DeviceRow F) (uuid token : Text) (db db' : Db F)
      → Occupied row.device_token stream.community_id db
      → Creates server stream row uuid token db made db'
      → ⊥
  unfolding Occupied
  Occupied-refuses stream made row uuid token db db' (d, found, has)
        (id, saved, operations, up, pr, ins, es) =
      let sr = stream_row server id stream uuid token operations in
      let (i, left) = upsert_device-found row d db saved id found up in
      let (free, rest) = insert_stream-ok sr saved db' ins in
      let conflict : conflicts sr saved.tables.streams ≡ true =
        taken-conflicts sr saved.tables.streams (
          ap (λ (x : Db F). taken id stream.community_id x.tables.streams) left
          ∙ ap (λ j. taken j stream.community_id db.tables.streams) i
          ∙ has) in
      ground (arith, free, conflict)

  delete_stream_row-checked :
      (uuid token : Text) (db gone : Db F) (id : ℕ)
      → delete_stream_row pgp password uuid token db ≡ (answer id, gone)
      → (s : StreamRow) × (stream_with uuid db.tables.streams ≡ some s)
        × (pgp.decrypt password s.token ≡ some token)
        × (gone.tables.streams ≡ delete_uuid s.uuid db.tables.streams)
  unfolding delete_stream_row
  delete_stream_row-checked uuid token db gone id e =
      elim (Option-cases (stream_with uuid db.tables.streams)) [
        | inl missing ↦ ground arith
        | inr (s, found) ↦ elim (Option-cases (pgp.decrypt password s.token)) [
          | inl broken ↦ ground arith
          | inr (t, plain) ↦ (
            s,
            found,
            plain ∙ ground (arith, text_eq_iff t token, e, found, plain),
            ground (arith, e, found, plain),
          )
        ]
      ]

  -- Who deletes a stream has its token, and no other stream is deleted.
  pub Deletes-checked :
      (stream : Stream F) (o : Option Text) (db db' : Db F)
      → Deletes server stream db o db'
      → (s : StreamRow) × (stream_with stream.stream_id db.tables.streams ≡ some s)
        × (pgp.decrypt password s.token ≡ some stream.token)
        × (db'.tables.streams ≡ delete_uuid stream.stream_id db.tables.streams)
  Deletes-checked stream o db db' (id, gone, del, rest) =
      let (s, found, plain, left) =
        delete_stream_row-checked stream.stream_id stream.token db gone id del in
      (
        s,
        found,
        plain,
        kept rest
            ∙ left
            ∙ ap (λ u. delete_uuid u db.tables.streams)
                (stream_with-uuid stream.stream_id db.tables.streams s found),
      )
    where
      kept :
          ((o ≡ none) × (count_streams id gone.tables.streams ≢ 0) × (db' ≡ gone))
            ⊎ ((token : Text) × (o ≡ some token)
                × (count_streams id gone.tables.streams ≡ 0)
                × (delete_device id gone ≡ (answer token, db')))
          → db'.tables.streams ≡ gone.tables.streams
      kept (inl (eo, some_left, same)) = ap (λ (x : Db F). x.tables.streams) same
      kept (inr (token, eo, zero, e)) =
          ap (λ (x : Db F). x.tables.streams) (delete_device-ok id gone db' token e)
