-- ===== src/Smartcitizen/Metadata.antt =====
-- pkg/smartcitizen/metadata.go: the table of the sensors' metadata. A Go map that is only written and
-- looked up is a function.
use iotencoder.Common.{
  ℤ, eq_ℤ, List, [], ◌∷◌, Option, none, some, Result, ok, wrap_err, ◌>>=◌, if◌then◌else◌, ◌≡◌, refl,
  arith, ◌∙◌, Text,
}
use iotencoder.Smartcitizen.Types.{SensorMetadata, Json}

abbrev pub Table : Type 0
Table = ℤ → Option SensorMetadata

-- `sensors[id] = m`
abbrev write : Table → SensorMetadata → Table
write t m id = if eq_ℤ m.id id then some m else t id

-- The loop over the list of sensors.
add_sensors : Table → List SensorMetadata → Table
add_sensors t [] = t
add_sensors t (m ∷ ms) = add_sensors (write t m) ms

module _ {F : Type 0} (json : Json F) where
  unfoldable pub read_metadata : Result Table
  unfolding add_sensors
  read_metadata = do
    bytes ← wrap_err "failed to read sensors.json" json.sensors_asset
    list ← wrap_err "failed to unmarshal data" (json.parse_metadata bytes)
    ok (add_sensors (λ _. none) list)

-- The last sensor of the list with the id.
unfoldable pub last_with : ℤ → List SensorMetadata → Option SensorMetadata
last_with id [] = none
last_with id (m ∷ ms) = elim (last_with id ms) [
  | some found ↦ some found
  | none ↦ if eq_ℤ m.id id then some m else none
]

add_sensors_lem :
    (t : Table) (ms : List SensorMetadata) (id : ℤ)
    → add_sensors t ms id ≡ elim (last_with id ms) [ some m ↦ some m | none ↦ t id ]
unfolding add_sensors last_with
add_sensors_lem t [] id = refl
add_sensors_lem t (m ∷ ms) id = ground (arith, add_sensors_lem (write t m) ms id)

module _ {F : Type 0} (json : Json F) where
  -- When sensors.json can be read as a list, the table is read and has for each id the last sensor
  -- of the list with that id, and nothing for an id that the list does not have.
  pub read_metadata_lem :
      (bytes : Text) (list : List SensorMetadata)
      → json.sensors_asset ≡ ok bytes
      → json.parse_metadata bytes ≡ ok list
      → (table : Table) × (read_metadata json ≡ ok table)
        × ((id : ℤ) → table id ≡ last_with id list)
  unfolding read_metadata
  read_metadata_lem bytes list a p = (
    add_sensors (λ _. none) list,
    rw (a, p),
    λ id. add_sensors_lem (λ _. none) list id ∙ found (last_with id list),
  )
    where
      found :
          (o : Option SensorMetadata)
          → elim o as (λ _. Option SensorMetadata) [ some m ↦ some m | none ↦ none ] ≡ o
      found none = refl
      found (some m) = refl
