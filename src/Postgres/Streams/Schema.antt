-- ===== src/Postgres/Streams/Schema.antt =====
-- What the keys and the unique indexes of pkg/migrations/sql say of the tables, and that the statements of
-- pkg/postgres/postgres.go keep it.
use iotencoder.Common.{
  ℕ, ◌<◌, ◌≤◌, ◌==◌, ==_iff, ◌≡◌, refl, Text, text_eq, text_eq_iff, true, false, List, [], ◌∷◌,
  ◌++◌, none, arith, Bool-cases, inl, inr,
}
use iotencoder.Postgres.Types.{DeviceRow}
use iotencoder.Postgres.Tables.{StreamRow, Db}
use iotencoder.Postgres.Statements.{find_device, update_device, conflicts, delete_uuid, delete_row}
use iotencoder.Postgres.Streams.Effects.{DevicesBelow, StreamsBelow, IsFresh}
use iotencoder.Postgres.Streams.Owners.{has_device, has_device-update, AllOwned, Owned}

-- No two devices have the same id or the same token.
abbrev pub DistinctDevices : {F : Type 0} → List (DeviceRow F) → Type 0
DistinctDevices [] = Unit {0}
DistinctDevices (d ∷ ds) =
    (has_device d.id ds ≡ false) × (find_device d.device_token ds ≡ none) × DistinctDevices ds

-- No two streams have the same uuid, or the same device and community.
abbrev pub DistinctStreams : List StreamRow → Type 0
DistinctStreams [] = Unit {0}
DistinctStreams (s ∷ ss) = (conflicts s ss ≡ false) × DistinctStreams ss

pub record IsConsistent {F : Type 0} (db : Db F) : Type 0 where
  pub below : DevicesBelow db.next_id db.tables.devices
  pub distinct_devices : DistinctDevices db.tables.devices
  pub distinct_streams : DistinctStreams db.tables.streams
  pub owned : Owned db.tables

module _ {F : Type 0} where
  has_device-below :
      (n id : ℕ) (ds : List (DeviceRow F)) → DevicesBelow n ds → has_device id ds ≡ true → id < n
  unfolding has_device
  has_device-below n id [] h e = ground arith
  has_device-below n id (d ∷ ds) h e = ground (arith, ==_iff d.id id, has_device-below n id ds h.1)

  StreamsBelow-owned :
      (n : ℕ) (ds : List (DeviceRow F)) (ss : List StreamRow)
      → DevicesBelow n ds
      → AllOwned ds ss
      → StreamsBelow n ss
  StreamsBelow-owned n ds [] h o = tt
  StreamsBelow-owned n ds (s ∷ ss) h o =
      (has_device-below n s.device_id ds h o.0, StreamsBelow-owned n ds ss h o.1)

  -- The next id is then one that neither table has.
  pub IsConsistent-IsFresh : (db : Db F) → IsConsistent db → IsFresh db
  IsConsistent-IsFresh db h = record {
    devices_below = h.below;
    streams_below =
        StreamsBelow-owned db.next_id db.tables.devices db.tables.streams h.below h.owned;
  }

  pub DevicesBelow-mono :
      (n m : ℕ) (ds : List (DeviceRow F)) → n ≤ m → DevicesBelow n ds → DevicesBelow m ds
  DevicesBelow-mono n m [] l h = tt
  DevicesBelow-mono n m (d ∷ ds) l h = (omega (arith, h.0), DevicesBelow-mono n m ds l h.1)

  pub DevicesBelow-append :
      (n : ℕ) (ds : List (DeviceRow F)) (d : DeviceRow F)
      → d.id < n
      → DevicesBelow n ds
      → DevicesBelow n (ds ++ (d ∷ []))
  DevicesBelow-append n [] d l h = (l, tt)
  DevicesBelow-append n (x ∷ ds) d l h = (h.0, DevicesBelow-append n ds d l h.1)

  pub DevicesBelow-update :
      (n : ℕ) (row : DeviceRow F) (ds : List (DeviceRow F))
      → DevicesBelow n ds
      → DevicesBelow n (update_device row ds)
  unfolding update_device
  DevicesBelow-update n row [] h = tt
  DevicesBelow-update n row (d ∷ ds) h = ground (arith, DevicesBelow-update n row ds h.1)

  pub DevicesBelow-delete :
      (n id : ℕ) (ds : List (DeviceRow F)) → DevicesBelow n ds → DevicesBelow n (delete_row id ds)
  unfolding delete_row
  DevicesBelow-delete n id [] h = tt
  DevicesBelow-delete n id (d ∷ ds) h = ground (arith, DevicesBelow-delete n id ds h.1)

  has_device-fresh : (n : ℕ) (ds : List (DeviceRow F)) → DevicesBelow n ds → has_device n ds ≡ false
  unfolding has_device
  has_device-fresh n [] h = refl
  has_device-fresh n (d ∷ ds) h = ground (arith, has_device-fresh n ds h.1)

  has_device-append_ne :
      (id : ℕ) (ds : List (DeviceRow F)) (d : DeviceRow F)
      → has_device id ds ≡ false
      → (d.id == id) ≡ false
      → has_device id (ds ++ (d ∷ [])) ≡ false
  unfolding has_device
  has_device-append_ne id [] d h e = ground arith
  has_device-append_ne id (x ∷ ds) d h e = ground (arith, has_device-append_ne id ds d)

  find_device-append_ne :
      (token : Text) (ds : List (DeviceRow F)) (d : DeviceRow F)
      → find_device token ds ≡ none
      → text_eq d.device_token token ≡ false
      → find_device token (ds ++ (d ∷ [])) ≡ none
  unfolding find_device
  find_device-append_ne token [] d h e = ground arith
  find_device-append_ne token (x ∷ ds) d h e = ground (arith, find_device-append_ne token ds d)

  pub DistinctDevices-append :
      (n : ℕ) (ds : List (DeviceRow F)) (row : DeviceRow F)
      → DevicesBelow n ds
      → find_device row.device_token ds ≡ none
      → DistinctDevices ds
      → DistinctDevices (ds ++ (record row { id = n } ∷ []))
  unfolding find_device has_device
  DistinctDevices-append n [] row b e h = (refl, refl, tt)
  DistinctDevices-append n (x ∷ ds) row b e h =
      elim (Bool-cases (text_eq x.device_token row.device_token)) [
        | inl same ↦ ground arith
        | inr other ↦ (
          has_device-append_ne x.id ds (record row { id = n }) h.0 (ground arith),
          find_device-append_ne x.device_token ds (record row { id = n }) h.1
              (ground (
                arith,
                text_eq_iff x.device_token row.device_token,
                text_eq_iff row.device_token x.device_token,
              )),
          DistinctDevices-append n ds row b.1 (ground arith) h.2,
        )
      ]

  find_device-update_none :
      (token : Text) (row : DeviceRow F) (ds : List (DeviceRow F))
      → find_device token ds ≡ none
      → find_device token (update_device row ds) ≡ none
  unfolding find_device update_device
  find_device-update_none token row [] h = refl
  find_device-update_none token row (d ∷ ds) h =
      ground (arith, find_device-update_none token row ds)

  pub DistinctDevices-update :
      (row : DeviceRow F) (ds : List (DeviceRow F))
      → DistinctDevices ds
      → DistinctDevices (update_device row ds)
  unfolding update_device
  DistinctDevices-update row [] h = tt
  DistinctDevices-update row (d ∷ ds) h = ground (
    arith,
    has_device-update d.id row ds,
    find_device-update_none d.device_token row ds,
    DistinctDevices-update row ds,
  )

  has_device-delete_none :
      (id j : ℕ) (ds : List (DeviceRow F))
      → has_device j ds ≡ false
      → has_device j (delete_row id ds) ≡ false
  unfolding has_device delete_row
  has_device-delete_none id j [] h = refl
  has_device-delete_none id j (d ∷ ds) h = ground (arith, has_device-delete_none id j ds)

  find_device-delete_none :
      (token : Text) (id : ℕ) (ds : List (DeviceRow F))
      → find_device token ds ≡ none
      → find_device token (delete_row id ds) ≡ none
  unfolding find_device delete_row
  find_device-delete_none token id [] h = refl
  find_device-delete_none token id (d ∷ ds) h = ground (arith, find_device-delete_none token id ds)

  pub DistinctDevices-delete :
      (id : ℕ) (ds : List (DeviceRow F)) → DistinctDevices ds → DistinctDevices (delete_row id ds)
  unfolding delete_row
  DistinctDevices-delete id [] h = tt
  DistinctDevices-delete id (d ∷ ds) h = ground (
    arith,
    has_device-delete_none id d.id ds,
    find_device-delete_none d.device_token id ds,
    DistinctDevices-delete id ds,
  )

conflicts-append_ne :
    (s row : StreamRow) (ss : List StreamRow)
    → conflicts s ss ≡ false
    → conflicts row (s ∷ []) ≡ false
    → conflicts s (ss ++ (row ∷ [])) ≡ false
unfolding conflicts
conflicts-append_ne s row [] h e = ground (
  arith,
  text_eq_iff s.uuid row.uuid,
  text_eq_iff row.uuid s.uuid,
  text_eq_iff s.community_id row.community_id,
  text_eq_iff row.community_id s.community_id,
  ==_iff s.device_id row.device_id,
  ==_iff row.device_id s.device_id,
)
conflicts-append_ne s row (x ∷ ss) h e = ground (arith, conflicts-append_ne s row ss)

pub DistinctStreams-append :
    (row : StreamRow) (ss : List StreamRow)
    → conflicts row ss ≡ false
    → DistinctStreams ss
    → DistinctStreams (ss ++ (row ∷ []))
unfolding conflicts
DistinctStreams-append row [] e h = (refl, tt)
DistinctStreams-append row (s ∷ ss) e h = (
  conflicts-append_ne s row ss h.0 (unfold conflicts in (ground arith)),
  DistinctStreams-append row ss (ground arith) h.1,
)

conflicts-delete_none :
    (uuid : Text) (row : StreamRow) (ss : List StreamRow)
    → conflicts row ss ≡ false
    → conflicts row (delete_uuid uuid ss) ≡ false
unfolding conflicts delete_uuid
conflicts-delete_none uuid row [] h = refl
conflicts-delete_none uuid row (s ∷ ss) h = ground (arith, conflicts-delete_none uuid row ss)

pub DistinctStreams-delete :
    (uuid : Text) (ss : List StreamRow) → DistinctStreams ss → DistinctStreams (delete_uuid uuid ss)
unfolding delete_uuid
DistinctStreams-delete uuid [] h = tt
DistinctStreams-delete uuid (s ∷ ss) h =
    ground (arith, conflicts-delete_none uuid s ss, DistinctStreams-delete uuid ss)
