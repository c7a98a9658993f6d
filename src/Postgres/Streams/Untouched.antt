-- ===== src/Postgres/Streams/Untouched.antt =====
-- `GetDevice` and `GetDevices` of pkg/postgres/postgres.go leave the tables as they were, whatever fails, and a
-- device that is not in the table is not answered.
use iotencoder.Common.{
  true, false, ap, ◌∙◌, ℕ, ◌≡◌, ◌≢◌, refl, Text, none, ok, arith, Option-cases, inl, inr,
}
use iotencoder.Postgres.Types.{Device}
use iotencoder.Postgres.Tables.{Tables, Db}
use iotencoder.Postgres.Statements.{find_device, select_devices, select_device, select_streams}
use iotencoder.Postgres.Transactor.{Session, get}
use iotencoder.Postgres.Transactor.Invariant.{
  Always, Anything, Raised, Triple, Keeps, >>=-Triple, wrapping-Triple, get-Triple, with_tx-keeps,
  with_tx-gives,
}
use iotencoder.Postgres.Rows.Invariant.{map_rows-Triple}
use iotencoder.Postgres.Streams.{Server, scan_stream, device_body, get_device, devices_body}

module _ {F : Type 0} (I : Db F → Type 0) (raised : Raised I) (server : Server F) where
  open server use {faults}

  select_device-Keeps : (token : Text) → Keeps I Always (select_device token) Anything
  unfolding select_device
  select_device-Keeps token db h _ = elim (Option-cases (find_device token db.tables.devices)) [
    | inl e ↦ rw e (h, omega arith)
    | inr (d, e) ↦ rw e (h, omega arith, tt)
  ]

  select_streams-Keeps :
      (id : ℕ) → Keeps I Always (select_streams server.stream_order id) (λ _. Always)
  unfolding select_streams
  select_streams-Keeps id db h _ = (h, omega arith, tt)

  select_devices-Keeps : Keeps I Always (select_devices server.device_order) (λ _. Always)
  unfolding select_devices
  select_devices-Keeps db h _ = (h, omega arith, tt)

  pub device_body-Triple : (token : Text) → Triple I Always (device_body server token) Anything
  unfolding device_body
  device_body-Triple token =
      >>=-Triple I Anything Anything Always _ _
        (wrapping-Triple I Anything Always _ (get faults (select_device token)) (
          get-Triple I raised faults Anything Always (select_device token)
            (select_device-Keeps token)))
        λ row.
          >>=-Triple I Anything Anything Always _ _
            (wrapping-Triple {F = F} I Anything Always _ _ (
              map_rows-Triple I raised faults (scan_stream server) _ Always true
                (select_streams server.stream_order row.id) (select_streams-Keeps row.id)))
            λ streams t h p. (h, tt)

  pub devices_body-Triple : Triple I Always (devices_body server) Anything
  unfolding devices_body
  devices_body-Triple = wrapping-Triple {F = F} I Anything Always _ _ (
      map_rows-Triple I raised faults (λ r. ok r) _ Always false
        (select_devices server.device_order) select_devices-Keeps)

module _ {F : Type 0} (server : Server F) where
  Same : Tables F → Db F → Type 0
  Same tables db = db.tables ≡ tables

  Same-Raised : (tables : Tables F) → Raised (Same tables)
  unfolding Same
  Same-Raised tables t n m l h = h

  -- `get_device` changes nothing in the tables, whatever fails in it.
  pub get_device-tables :
      (token : Text) (s : Session F) → (get_device server token s).1.db.tables ≡ s.db.tables
  unfolding get_device Same
  get_device-tables token s =
      let same = Same-Raised s.db.tables in
      with_tx-keeps (Same s.db.tables) same server.faults Anything Always true _
        (device_body server token) s (device_body-Triple (Same s.db.tables) same server token) refl
        tt

  absent-Keeps :
      (tables : Tables F) (token : Text)
      → find_device token tables.devices ≡ none
      → Keeps (Same tables) Always (select_device token) (λ _ _. ⊥)
  unfolding select_device Same
  absent-Keeps tables token e db h _ =
      rw (ap (λ t. find_device token t.devices) h ∙ e) (h, omega arith)

  -- A device that is not in the table is not answered, whatever fails.
  pub get_device-absent :
      (token : Text) (s : Session F) (device : Device F)
      → find_device token s.db.tables.devices ≡ none
      → (get_device server token s).0 ≢ ok device
  unfolding get_device device_body Same
  get_device-absent token s device e answers =
      let same = Same-Raised s.db.tables in
      (with_tx-gives (Same s.db.tables) same server.faults (λ _ _. ⊥) Always true _
        (device_body server token) s device
        (>>=-Triple (Same s.db.tables) (λ _ _. ⊥) (λ _ _. ⊥) Always _ _
          (wrapping-Triple (Same s.db.tables) (λ _ _. ⊥) Always _
            (get server.faults (select_device token))
            (get-Triple (Same s.db.tables) same server.faults (λ _ _. ⊥) Always
              (select_device token) (absent-Keeps s.db.tables token e)))
          (λ row t h never. absurd never))
        refl tt answers).1
