-- ===== src/Postgres/Streams/Tokens.antt =====
-- The tokens of the devices in the table, over the creations and deletions of pkg/postgres/postgres.go.
use iotencoder.Common.{
  ◌≢◌, ◌⊎◌, ℕ, ==_iff, ◌≡◌, refl, Text, text_eq, text_eq_iff, text_eq_refl, Bool, true, false, ◌||◌,
  List, [], ◌∷◌, ◌++◌, Option, none, some, arith, sym, ap, ◌∙◌, if◌then◌else◌, inl, inr,
  Option-cases,
}
use mathlib.Core.Option.{some-injective}
use iotencoder.Postgres.Types.{DeviceRow, Stream}
use iotencoder.Postgres.Tables.{Db}
use iotencoder.Postgres.Statements.{
  answer, find_device, update_device, upsert_device, device_with, delete_row, delete_device,
  count_streams,
}
use iotencoder.Postgres.Streams.{Server, stream_row}
use iotencoder.Postgres.Streams.Atomic.{Creates, Deletes}
use iotencoder.Postgres.Streams.Effects.{upsert_device-new, insert_stream-ok}
use iotencoder.Postgres.Streams.Created.{upsert_device-found}
use iotencoder.Postgres.Streams.Owners.{has_device, delete_device-ok, delete_stream_row-ok}
use iotencoder.Postgres.Streams.Schema.{DistinctDevices}

module _ {F : Type 0} where
  unfoldable pub has_token : Text → List (DeviceRow F) → Bool
  has_token token [] = false
  has_token token (d ∷ ds) = text_eq d.device_token token || has_token token ds

  pub has_token_none :
      (token : Text) (ds : List (DeviceRow F))
      → has_token token ds ≡ false
      → find_device token ds ≡ none
  unfolding has_token find_device
  has_token_none token [] h = refl
  has_token_none token (d ∷ ds) h = ground (arith, has_token_none token ds)

  find_device-has_token :
      (token : Text) (ds : List (DeviceRow F))
      → find_device token ds ≡ none
      → has_token token ds ≡ false
  unfolding has_token find_device
  find_device-has_token token [] h = refl
  find_device-has_token token (d ∷ ds) h = ground (arith, find_device-has_token token ds)

  found-has_token :
      (token : Text) (ds : List (DeviceRow F)) (d : DeviceRow F)
      → find_device token ds ≡ some d
      → has_token token ds ≡ true
  unfolding has_token find_device
  found-has_token token [] d h = ground arith
  found-has_token token (x ∷ ds) d h = ground (arith, found-has_token token ds d)

  has_token-append :
      (token : Text) (ds : List (DeviceRow F)) (d : DeviceRow F)
      → has_token token (ds ++ (d ∷ []))
        ≡ (if text_eq d.device_token token then true else has_token token ds)
  unfolding has_token
  has_token-append token [] d = ground arith
  has_token-append token (x ∷ ds) d = ground (arith, has_token-append token ds d)

  has_token-update :
      (token : Text) (row : DeviceRow F) (ds : List (DeviceRow F))
      → has_token token (update_device row ds) ≡ has_token token ds
  unfolding has_token update_device
  has_token-update token row [] = refl
  has_token-update token row (d ∷ ds) = ground (arith, has_token-update token row ds)

  upsert_device-tokens :
      (row : DeviceRow F) (db saved : Db F) (id : ℕ) (token : Text)
      → upsert_device row db ≡ (answer id, saved)
      → has_token token saved.tables.devices
        ≡ (if text_eq row.device_token token then true else has_token token db.tables.devices)
  upsert_device-tokens row db saved id token e =
      elim (Option-cases (find_device row.device_token db.tables.devices)) [
        | inl new ↦
            let (i, left) = upsert_device-new row db saved id new e in
            ap (λ (x : Db F). has_token token x.tables.devices) left
            ∙ has_token-append token db.tables.devices (record row { id = db.next_id })
        | inr (d, old) ↦
            let (i, left) = upsert_device-found row d db saved id old e in
            ap (λ (x : Db F). has_token token x.tables.devices) left
            ∙ has_token-update token row db.tables.devices
            ∙ known d old
      ]
    where
      known :
          (d : DeviceRow F)
          → find_device row.device_token db.tables.devices ≡ some d
          → has_token token db.tables.devices
            ≡ (if text_eq row.device_token token then true else has_token token db.tables.devices)
      known d old = ground (
        arith,
        text_eq_iff row.device_token token,
        found-has_token row.device_token db.tables.devices d old,
      )

  -- A creation adds the token of its device.
  pub Creates-tokens :
      (server : Server F) (stream made : Stream F) (row : DeviceRow F) (uuid new_token : Text)
      (db db' : Db F) (token : Text)
      → Creates server stream row uuid new_token db made db'
      → has_token token db'.tables.devices
        ≡ (if text_eq row.device_token token then true else has_token token db.tables.devices)
  Creates-tokens server stream made row uuid new_token db db' token
        (id, saved, operations, up, pr, ins, es) =
      let (free, left) =
        insert_stream-ok (stream_row server id stream uuid new_token operations) saved db' ins in
      ap (λ (x : Db F). has_token token x.tables.devices) left
      ∙ upsert_device-tokens row db saved id token up

  delete_row-absent :
      (id : ℕ) (ds : List (DeviceRow F)) → has_device id ds ≡ false → delete_row id ds ≡ ds
  unfolding delete_row has_device
  delete_row-absent id [] h = refl
  delete_row-absent id (d ∷ ds) h = ground (arith, delete_row-absent id ds)

  device_with-has_token :
      (id : ℕ) (ds : List (DeviceRow F)) (d : DeviceRow F)
      → device_with id ds ≡ some d
      → has_token d.device_token ds ≡ true
  unfolding device_with has_token
  device_with-has_token id [] d h = ground arith
  device_with-has_token id (x ∷ ds) d h =
      ground (arith, device_with-has_token id ds d, text_eq_refl d.device_token)

  -- Of devices with distinct ids and tokens, the row that is deleted is the only one of its token.
  delete_row-tokens :
      (id : ℕ) (token : Text) (ds : List (DeviceRow F)) (d : DeviceRow F)
      → DistinctDevices ds
      → device_with id ds ≡ some d
      → has_token token (delete_row id ds)
        ≡ (if text_eq d.device_token token then false else has_token token ds)
  unfolding delete_row has_token device_with
  delete_row-tokens id token [] d h e = ground arith
  delete_row-tokens id token (x ∷ ds) d h e = ground (
    arith,
    ==_iff x.id id,
    delete_row-absent x.id ds h.0,
    find_device-has_token x.device_token ds h.1,
    text_eq_iff x.device_token token,
    text_eq_iff d.device_token token,
    device_with-has_token id ds d,
    delete_row-tokens id token ds d h.2,
  )

  pub delete_device-found :
      (id : ℕ) (db db' : Db F) (token : Text)
      → delete_device id db ≡ (answer token, db')
      → (d : DeviceRow F) × (device_with id db.tables.devices ≡ some d) × (token ≡ d.device_token)
  unfolding delete_device
  delete_device-found id db db' token e = elim (Option-cases (device_with id db.tables.devices)) [
    | inl missing ↦ ground arith
    | inr (d, found) ↦ (d, found, ground arith)
  ]

  -- The deletion of a stream with others left keeps the tokens, and with the last stream the token
  -- that is returned is gone, and no other.
  abbrev pub Forgets : Option Text → Db F → Db F → Type 0
  Forgets none db db' =
      (token : Text) → has_token token db'.tables.devices ≡ has_token token db.tables.devices
  Forgets (some gone) db db' =
      (token : Text)
      → has_token token db'.tables.devices
        ≡ (if text_eq gone token then false else has_token token db.tables.devices)

  pub Deletes-tokens :
      (server : Server F) (stream : Stream F) (o : Option Text) (db db' : Db F)
      → DistinctDevices db.tables.devices
      → Deletes server stream db o db'
      → Forgets o db db'
  Deletes-tokens server stream o db db' h (id, gone, del, rest) = by_rest o rest
    where
      kept : gone.tables.devices ≡ db.tables.devices
      kept =
          let (u, same) =
            delete_stream_row-ok server.pgp server.password stream.stream_id stream.token db gone id
              del in
          ap (λ x. x.tables.devices) same

      by_rest :
          (p : Option Text)
          → ((p ≡ none) × (count_streams id gone.tables.streams ≢ 0) × (db' ≡ gone))
            ⊎ ((token : Text) × (p ≡ some token)
                × (count_streams id gone.tables.streams ≡ 0)
                × (delete_device id gone ≡ (answer token, db')))
          → Forgets p db db'
      by_rest none (inl (e, some_left, same)) =
          λ t. ap (λ (x : Db F). has_token t x.tables.devices) same ∙ ap (has_token t) kept
      by_rest (some x) (inl (e, some_left, same)) = ground arith
      by_rest none (inr (token, e, none_left, del_device)) = ground arith
      by_rest (some x) (inr (token, e, none_left, del_device)) = λ t.
          let (d, found, same) = delete_device-found id gone db' token del_device in
          let left = delete_device-ok id gone db' token del_device in
          ap (λ (y : Db F). has_token t y.tables.devices) left
          ∙ ap (λ ds. has_token t (delete_row id ds)) kept
          ∙ delete_row-tokens id t db.tables.devices d h (ap (device_with id) (sym kept) ∙ found)
          ∙ ap (λ g. if text_eq g t then false else has_token t db.tables.devices)
              (sym (some-injective x token e ∙ same))
