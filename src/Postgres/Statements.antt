-- ===== src/Postgres/Statements.antt =====
-- The SQL statements of pkg/postgres/postgres.go, as functions on the tables. A statement that fails
-- says how; what it then leaves of the tables is rolled back.
use mathlib.Core.List.{Permᴰ}
use mathlib.Core.List.Permᴰ
use iotencoder.Common.{
  ℕ, ◌+◌, ◌==◌, Text, codes, text_eq, Bool, false, ◌&&◌, ◌||◌, List, [], ◌∷◌, ◌++◌, map, Option,
  none, some, Error, no_rows, unique_violation, external, if◌then◌else◌, ◌≡◌,
}
use iotencoder.Postgres.Types.{DeviceRow}
use iotencoder.Postgres.Tables.{StreamRow, Db}

-- The server's reply to a statement.
pub data Reply (A : Type 0) : Type 0 where
  answer : A → Reply A
  refusal : Error → Reply A

abbrev pub Statement : Type 0 → Type 0 → Type 0
Statement F A = Db F → Reply A × Db F

-- The enumeration type of the exposure column.
unfoldable pub is_exposure : Text → Bool
is_exposure e =
    text_eq e (codes "unknown") || text_eq e (codes "indoor") || text_eq e (codes "outdoor")

-- The unique indexes of the streams: on the uuid, and on the device and the community.
unfoldable pub conflicts : StreamRow → List StreamRow → Bool
conflicts row [] = false
conflicts row (s ∷ ss) =
    text_eq s.uuid row.uuid
    || (s.device_id == row.device_id && text_eq s.community_id row.community_id)
    || conflicts row ss

unfoldable pub count_streams : ℕ → List StreamRow → ℕ
count_streams id [] = 0
count_streams id (s ∷ ss) =
    if s.device_id == id then count_streams id ss + 1 else count_streams id ss

unfoldable pub streams_of : ℕ → List StreamRow → List StreamRow
streams_of id [] = []
streams_of id (s ∷ ss) = if s.device_id == id then s ∷ streams_of id ss else streams_of id ss

-- The stream with a uuid, compared as the text that the code drew. The column is of type UUID, so
-- Postgres also takes other spellings of the same one, upper case say; those are left out.
unfoldable pub stream_with : Text → List StreamRow → Option StreamRow
stream_with uuid [] = none
stream_with uuid (s ∷ ss) = if text_eq s.uuid uuid then some s else stream_with uuid ss

unfoldable pub delete_uuid : Text → List StreamRow → List StreamRow
delete_uuid uuid [] = []
delete_uuid uuid (s ∷ ss) =
    let rest = delete_uuid uuid ss in if text_eq s.uuid uuid then rest else s ∷ rest

-- The order in which a SELECT without ORDER BY answers its rows: Postgres promises none, so it is
-- some permutation of them.
pub record RowOrder (F A : Type 0) : Type 0 where
  pub arranged : Db F → List A → List A
  pub permutes : (db : Db F) (rows : List A) → Permᴰ rows (arranged db rows)

-- The rows in the order of the table.
abbrev pub as_stored : {F A : Type 0} → RowOrder F A
as_stored = record { arranged = λ db rows. rows; permutes = λ db rows. Permᴰ.refl rows }

module _ {F : Type 0} where
  unfoldable pub find_device : Text → List (DeviceRow F) → Option (DeviceRow F)
  find_device token [] = none
  find_device token (d ∷ ds) = if text_eq d.device_token token then some d else find_device token ds

  -- The columns that `DO UPDATE SET` names, from the excluded row.
  abbrev pub updated : DeviceRow F → DeviceRow F → DeviceRow F
  updated row d = record row { id = d.id; device_token = d.device_token }

  unfoldable pub update_device : DeviceRow F → List (DeviceRow F) → List (DeviceRow F)
  update_device row [] = []
  update_device row (d ∷ ds) =
      if text_eq d.device_token row.device_token
      then updated row d ∷ ds
      else d ∷ update_device row ds

  -- The insert of a device, or on a conflict of its token the update, which returns the id.
  upsert_found : DeviceRow F → Db F → Option (DeviceRow F) → Reply ℕ × Db F
  upsert_found row db (some d) = (
    answer d.id,
    record {
      tables = record db.tables { devices = update_device row db.tables.devices };
      next_id = db.next_id + 1;
    },
  )
  upsert_found row db none = (
    answer db.next_id,
    record {
      tables = record db.tables {
        devices = db.tables.devices ++ (record row { id = db.next_id } ∷ []);
      };
      next_id = db.next_id + 1;
    },
  )

  unfoldable pub upsert_device : DeviceRow F → Statement F ℕ
  unfolding upsert_found
  upsert_device row db =
      if is_exposure row.exposure
      then upsert_found row db (find_device row.device_token db.tables.devices)
      else (refusal (external "invalid input value for enum exposure"), db)

  unfoldable pub insert_stream : StreamRow → Statement F (Unit {0})
  insert_stream row db =
      if conflicts row db.tables.streams then (refusal unique_violation, db) else (
        answer tt,
        record db { tables = record db.tables { streams = db.tables.streams ++ (row ∷ []) } },
      )

  unfoldable pub select_count : ℕ → Statement F ℕ
  select_count id db = (answer (count_streams id db.tables.streams), db)

  unfoldable pub delete_row : ℕ → List (DeviceRow F) → List (DeviceRow F)
  delete_row id [] = []
  delete_row id (d ∷ ds) = let rest = delete_row id ds in if d.id == id then rest else d ∷ rest

  unfoldable pub device_with : ℕ → List (DeviceRow F) → Option (DeviceRow F)
  device_with id [] = none
  device_with id (d ∷ ds) = if d.id == id then some d else device_with id ds

  -- `DELETE FROM devices WHERE id = :id RETURNING device_token`; a stream that refers to the device
  -- forbids it.
  deleted_device : ℕ → Db F → Option (DeviceRow F) → Reply Text × Db F
  deleted_device id db none = (refusal no_rows, db)
  deleted_device id db (some d) =
      if count_streams id db.tables.streams == 0
      then (
        answer d.device_token,
        record db { tables = record db.tables { devices = delete_row id db.tables.devices } },
      )
      else (refusal (external "foreign key violation"), db)

  unfoldable pub delete_device : ℕ → Statement F Text
  unfolding deleted_device
  delete_device id db = deleted_device id db (device_with id db.tables.devices)

  -- `SELECT id, device_token FROM devices`
  unfoldable pub select_devices : RowOrder F (ℕ × Text) → Statement F (List (ℕ × Text))
  select_devices order db =
      (answer (order.arranged db (map (λ d. (d.id, d.device_token)) db.tables.devices)), db)

  selected_device : Db F → Option (DeviceRow F) → Reply (DeviceRow F) × Db F
  selected_device db none = (refusal no_rows, db)
  selected_device db (some d) = (answer d, db)

  unfoldable pub select_device : Text → Statement F (DeviceRow F)
  unfolding selected_device
  select_device token db = selected_device db (find_device token db.tables.devices)

  unfoldable pub select_streams : RowOrder F StreamRow → ℕ → Statement F (List StreamRow)
  select_streams order id db = (answer (order.arranged db (streams_of id db.tables.streams)), db)

-- The extension pgcrypto. The salt of an encryption is not modelled: the code relies on no more than
-- that decryption with the same password gives back the text.
pub record Pgp : Type 0 where
  pub encrypt : Text → Text → Text
  pub decrypt : Text → Text → Option Text

pub record Decrypts (pgp : Pgp) : Type 0 where
  pub decrypt-encrypt : (pw t : Text) → pgp.decrypt pw (pgp.encrypt pw t) ≡ some t

module _ {F : Type 0} (pgp : Pgp) (password : Text) where
  -- The second condition, on the decrypted token; a token that does not decrypt is an error.
  delete_checked : Text → StreamRow → Db F → Option Text → Reply ℕ × Db F
  delete_checked token s db none = (refusal (external "Wrong key or corrupt data"), db)
  delete_checked token s db (some t) =
      if text_eq t token
      then (
        answer s.device_id,
        record db { tables = record db.tables { streams = delete_uuid s.uuid db.tables.streams } },
      )
      else (refusal no_rows, db)

  -- The uuid is unique, so that at most one row is decrypted and deleted.
  delete_found : Text → Db F → Option StreamRow → Reply ℕ × Db F
  unfolding delete_checked
  delete_found token db none = (refusal no_rows, db)
  delete_found token db (some s) = delete_checked token s db (pgp.decrypt password s.token)

  -- `DELETE FROM streams WHERE uuid = :uuid AND pgp_sym_decrypt(token, :encryption_password) = :token
  -- RETURNING device_id`
  unfoldable pub delete_stream_row : Text → Text → Statement F ℕ
  unfolding delete_found
  delete_stream_row uuid token db = delete_found token db (stream_with uuid db.tables.streams)
