-- ===== src/Smartcitizen/Types.antt =====
-- The data types of pkg/smartcitizen. A `time.Time` is carried along as a number. Of the `null` types
-- the code makes only valid ones, but for a unit, which may be null; a pointer is an `Option`.
use iotencoder.Common.{ℕ, ℤ, Text, List, [], ◌∷◌, Option, none, some, eq_ℤ, Result, if◌then◌else◌}
use iotencoder.Postgres.Types.{Action}

-- raw.go
pub record RawSensor (F : Type 0) : Type 0 where
  pub id : ℤ
  pub value : F

pub record SensorData (F : Type 0) : Type 0 where
  pub recorded_at : ℤ
  pub sensors : List (RawSensor F)

abbrev pub Payload : Type 0 → Type 0
Payload F = List (SensorData F)

-- metadata.go; `none` is a null unit or parent
pub record SensorMetadata : Type 0 where
  pub id : ℤ
  pub uuid : Text
  pub parent_id : Option ℤ
  pub name : Text
  pub description : Text
  pub unit : Option Text

-- smartcitizen.go
pub record Sensor (F : Type 0) : Type 0 where
  pub id : ℤ
  pub name : Text
  pub description : Text
  pub unit : Option (Option Text)
  pub action : Action
  pub interval : Option ℕ
  pub value : Option F
  pub bins : List F
  pub values : List ℕ

pub record Device (F : Type 0) : Type 0 where
  pub token : Text
  pub label : Text
  pub longitude : F
  pub latitude : F
  pub exposure : Text
  pub recorded_at : ℤ
  pub sensors : List (Sensor F)

-- `encoding/json` at the types that the code reads and writes, and the asset sensors.json, which the
-- build generates.
pub record Json (F : Type 0) : Type 0 where
  pub parse_payload : Text → Result (Payload F)
  pub parse_metadata : Text → Result (List SensorMetadata)
  pub print_device : Device F → Result Text
  pub sensors_asset : Result Text

module _ {F : Type 0} where
  unfoldable pub find_in : ℤ → List (Sensor F) → Option (Sensor F)
  find_in id [] = none
  find_in id (s ∷ sensors) = if eq_ℤ s.id id then some s else find_in id sensors

  -- `FindSensor`
  unfoldable pub find_sensor : Device F → ℤ → Option (Sensor F)
  unfolding find_in
  find_sensor d id = find_in id d.sensors
