-- ===== src/Postgres/Streams/Owners.antt =====
-- The foreign key of the streams, over the statements of pkg/postgres/postgres.go.
use iotencoder.Common.{
  ℕ, ◌+◌, ◌==◌, ==_iff, ◌≡◌, ◌≢◌, refl, Text, text_eq, Bool, true, false, ◌||◌, List, [], ◌∷◌, ◌++◌,
  some, arith, sym, subst, ◌∙◌, inl, inr, if◌then◌else◌, Option-cases,
}
use iotencoder.Postgres.Types.{DeviceRow}
use iotencoder.Postgres.Tables.{StreamRow, Db, Tables}
use iotencoder.Postgres.Statements.{
  answer, find_device, update_device, upsert_device, count_streams, delete_uuid, delete_row,
  delete_device, stream_with, delete_stream_row, Pgp,
}
use iotencoder.Postgres.Streams.Effects.{upsert_device-new}

module _ {F : Type 0} where
  unfoldable pub has_device : ℕ → List (DeviceRow F) → Bool
  has_device id [] = false
  has_device id (d ∷ ds) = d.id == id || has_device id ds

  -- Every stream belongs to a device of the table.
  abbrev pub AllOwned : List (DeviceRow F) → List StreamRow → Type 0
  AllOwned ds [] = Unit {0}
  AllOwned ds (s ∷ ss) = (has_device s.device_id ds ≡ true) × AllOwned ds ss

  abbrev pub Owned : Tables F → Type 0
  Owned t = AllOwned t.devices t.streams

  pub has_device-update :
      (id : ℕ) (row : DeviceRow F) (ds : List (DeviceRow F))
      → has_device id (update_device row ds) ≡ has_device id ds
  unfolding has_device update_device
  has_device-update id row [] = refl
  has_device-update id row (d ∷ ds) = ground (arith, has_device-update id row ds)

  has_device-append :
      (id : ℕ) (ds : List (DeviceRow F)) (d : DeviceRow F)
      → has_device id (ds ++ (d ∷ [])) ≡ (has_device id ds || d.id == id)
  unfolding has_device
  has_device-append id [] d = ground arith
  has_device-append id (x ∷ ds) d = ground (arith, has_device-append id ds d)

  find_device-has_device :
      (token : Text) (ds : List (DeviceRow F)) (d : DeviceRow F)
      → find_device token ds ≡ some d
      → has_device d.id ds ≡ true
  unfolding has_device find_device
  find_device-has_device token [] d e = ground arith
  find_device-has_device token (x ∷ ds) d e =
      ground (arith, ==_iff x.id d.id, find_device-has_device token ds d)

  AllOwned-mono :
      (ds ds' : List (DeviceRow F)) (ss : List StreamRow)
      → ((id : ℕ) → has_device id ds ≡ true → has_device id ds' ≡ true)
      → AllOwned ds ss
      → AllOwned ds' ss
  AllOwned-mono ds ds' [] k h = tt
  AllOwned-mono ds ds' (s ∷ ss) k h = (k s.device_id h.0, AllOwned-mono ds ds' ss k h.1)

  pub AllOwned-append :
      (ds : List (DeviceRow F)) (ss : List StreamRow) (s : StreamRow)
      → AllOwned ds ss
      → has_device s.device_id ds ≡ true
      → AllOwned ds (ss ++ (s ∷ []))
  AllOwned-append ds [] s h k = (k, tt)
  AllOwned-append ds (x ∷ ss) s h k = (h.0, AllOwned-append ds ss s h.1 k)

  AllOwned-if :
      (ds : List (DeviceRow F)) (b : Bool) (s : StreamRow) (ss : List StreamRow)
      → has_device s.device_id ds ≡ true
      → AllOwned ds ss
      → AllOwned ds (if b then ss else s ∷ ss)
  AllOwned-if ds true s ss k h = h
  AllOwned-if ds false s ss k h = (k, h)

  pub AllOwned-delete_uuid :
      (ds : List (DeviceRow F)) (uuid : Text) (ss : List StreamRow)
      → AllOwned ds ss
      → AllOwned ds (delete_uuid uuid ss)
  unfolding delete_uuid
  AllOwned-delete_uuid ds uuid [] h = tt
  AllOwned-delete_uuid ds uuid (s ∷ ss) h =
      AllOwned-if ds (text_eq s.uuid uuid) s (delete_uuid uuid ss) h.0
        (AllOwned-delete_uuid ds uuid ss h.1)

  has_device-delete_row :
      (id j : ℕ) (ds : List (DeviceRow F))
      → id ≢ j
      → has_device j ds ≡ true
      → has_device j (delete_row id ds) ≡ true
  unfolding has_device delete_row
  has_device-delete_row id j [] n h = h
  has_device-delete_row id j (d ∷ ds) n h =
      ground (arith, ==_iff d.id id, ==_iff d.id j, has_device-delete_row id j ds n)

  pub AllOwned-delete_row :
      (id : ℕ) (ds : List (DeviceRow F)) (ss : List StreamRow)
      → count_streams id ss ≡ 0
      → AllOwned ds ss
      → AllOwned (delete_row id ds) ss
  unfolding count_streams
  AllOwned-delete_row id ds [] c h = tt
  AllOwned-delete_row id ds (s ∷ ss) c h = (
    has_device-delete_row id s.device_id ds (λ e. ground (arith, ==_iff s.device_id id)) h.0,
    AllOwned-delete_row id ds ss (ground arith) h.1,
  )

  upsert_device-known :
      (row : DeviceRow F) (db saved : Db F) (id : ℕ) (d : DeviceRow F)
      → find_device row.device_token db.tables.devices ≡ some d
      → upsert_device row db ≡ (answer id, saved)
      → (id ≡ d.id)
        × (saved ≡ record {
          tables = record db.tables { devices = update_device row db.tables.devices };
          next_id = db.next_id + 1;
        })
  unfolding upsert_device
  upsert_device-known row db saved id d found e = ground arith

  pub upsert_device-Owned :
      (row : DeviceRow F) (db saved : Db F) (id : ℕ)
      → upsert_device row db ≡ (answer id, saved)
      → Owned db.tables
      → Owned saved.tables × (has_device id saved.tables.devices ≡ true)
  upsert_device-Owned row db saved id e h =
      elim (Option-cases (find_device row.device_token db.tables.devices)) [
        | inl new ↦
            let (same, left) = upsert_device-new row db saved id new e in
            subst Saved (sym left) (
              AllOwned-mono devices (devices ++ (record row { id = db.next_id } ∷ []))
                  db.tables.streams
                  (λ j k.
                    ground (arith, has_device-append j devices (record row { id = db.next_id })))
                  h,
              ground (
                arith,
                has_device-append id devices (record row { id = db.next_id }),
                ==_iff db.next_id id,
              ),
            )
        | inr (d, found) ↦
            let (same, left) = upsert_device-known row db saved id d found e in
            subst Saved (sym left) (
              AllOwned-mono devices (update_device row devices) db.tables.streams
                  (λ j k. has_device-update j row devices ∙ k) h,
              has_device-update id row devices
                  ∙ subst (λ j. has_device j devices ≡ true) (sym same)
                      (find_device-has_device row.device_token devices d found),
            )
      ]
    where
      devices : List (DeviceRow F)
      devices = db.tables.devices

      Saved : Db F → Type 0
      Saved x = Owned x.tables × (has_device id x.tables.devices ≡ true)

  pub delete_device-ok :
      (id : ℕ) (db db' : Db F) (token : Text)
      → delete_device id db ≡ (answer token, db')
      → db' ≡ record db { tables = record db.tables { devices = delete_row id db.tables.devices } }
  unfolding delete_device
  delete_device-ok id db db' token e = ground arith

  module _ (pgp : Pgp) (password : Text) where
    pub delete_stream_row-ok :
        (uuid token : Text) (db gone : Db F) (id : ℕ)
        → delete_stream_row pgp password uuid token db ≡ (answer id, gone)
        → (u : Text) × (gone
            ≡ record db { tables = record db.tables { streams = delete_uuid u db.tables.streams } })
    unfolding delete_stream_row
    delete_stream_row-ok uuid token db gone id e =
        elim (Option-cases (stream_with uuid db.tables.streams)) [
          | inl none_found ↦ ([], ground arith)
          | inr (s, found) ↦ (s.uuid, ground arith)
        ]
