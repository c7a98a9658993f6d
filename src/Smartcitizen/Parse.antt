-- ===== src/Smartcitizen/Parse.antt =====
-- `ParseData` of pkg/smartcitizen/smartcitizen.go: a payload is parsed, and its first data point is
-- enriched by the sensors' metadata, which are read once.
use iotencoder.Common.{
  ℤ, eq_ℤ, eq_ℤ_iff, Text, List, [], ◌∷◌, ◌++◌, Option, none, some, Result, ok, err, panic, new,
  wrap_err, ◌>>=◌, if◌then◌else◌, ◌≡◌, refl, arith, ◌∙◌, ap, sym, subst, inl, inr, Option-cases,
}
use mathlib.Core.List.{append_assoc, append-nil}
use iotencoder.Postgres.Types.{DeviceRow, share}
use iotencoder.Smartcitizen.Types.{
  RawSensor, SensorData, Payload, SensorMetadata, Sensor, Device, Json, find_in, find_sensor,
}
use iotencoder.Smartcitizen.Metadata.{Table, read_metadata}

module _ {F : Type 0} where
  abbrev pub enriched : RawSensor F → SensorMetadata → Sensor F
  enriched raw m = record {
    id = raw.id;
    name = m.name;
    description = m.description;
    unit = some m.unit;
    action = share;
    interval = none;
    value = some raw.value;
    bins = [];
    values = [];
  }

  -- The loop over the raw sensors, with `d.Sensors`.
  enrich_loop : Table → List (RawSensor F) → List (Sensor F) → List (Sensor F)
  enrich_loop table [] sensors = sensors
  enrich_loop table (raw ∷ raws) sensors =
      let skip = enrich_loop table raws sensors in
      elim (table raw.id) [
        | none ↦ skip
        | some m ↦ enrich_loop table raws (sensors ++ (enriched raw m ∷ []))
      ]

  from_payload : Table → DeviceRow F → Payload F → Result (Device F)
  unfolding enrich_loop
  from_payload table row [] = err (new "missing data from payload")
  from_payload table row (point ∷ _) = ok (record {
    token = row.device_token;
    label = row.label;
    longitude = row.longitude;
    latitude = row.latitude;
    exposure = row.exposure;
    recorded_at = point.recorded_at;
    sensors = enrich_loop table point.sensors [];
  })

module _ {F : Type 0} (json : Json F) where
  -- `s.sensorMetadata`, read on the first call; the second part is the field afterwards.
  load_metadata : Option Table → Result Table × Option Table
  load_metadata (some table) = (ok table, some table)
  load_metadata none = elim (wrap_err "failed to read sensor metadata" (read_metadata json)) [
    | ok table ↦ (ok table, some table)
    | err e ↦ (err e, none)
    | panic ↦ (panic, none)
  ]

  unfoldable pub parse_data : DeviceRow F → Text → Option Table → Result (Device F) × Option Table
  unfolding load_metadata from_payload
  parse_data row payload cached =
      let (loaded, cached') = load_metadata cached in
      (
        (do
          table ← loaded
          points ← wrap_err "failed to unmarshal raw payload" (json.parse_payload payload)
          from_payload table row points),
        cached',
      )

module _ {F : Type 0} where
  -- The raw sensors that the table knows, enriched, in their order.
  unfoldable pub enrich : Table → List (RawSensor F) → List (Sensor F)
  enrich table [] = []
  enrich table (raw ∷ raws) = elim (table raw.id) [
    | none ↦ enrich table raws
    | some m ↦ enriched raw m ∷ enrich table raws
  ]

  enrich_loop_lem :
      (table : Table) (raws : List (RawSensor F)) (sensors : List (Sensor F))
      → enrich_loop table raws sensors ≡ sensors ++ enrich table raws
  unfolding enrich_loop enrich
  enrich_loop_lem table [] sensors = ground (arith, append-nil sensors)
  enrich_loop_lem table (raw ∷ raws) sensors = elim (Option-cases (table raw.id)) [
    | inl e ↦ ground (arith, enrich_loop_lem table raws sensors)
    | inr (m, e) ↦ ground (
      arith,
      enrich_loop_lem table raws (sensors ++ (enriched raw m ∷ [])),
      append_assoc sensors (enriched raw m ∷ []) (enrich table raws),
    )
  ]

  -- The first raw sensor with the id.
  unfoldable pub first_raw : ℤ → List (RawSensor F) → Option (RawSensor F)
  first_raw id [] = none
  first_raw id (raw ∷ raws) = if eq_ℤ raw.id id then some raw else first_raw id raws

  -- What looking a sensor up in enriched data is to give: nothing when the metadata or the point do
  -- not know it, and otherwise the reading, described by the metadata and shared as it is.
  abbrev pub Reads : Option SensorMetadata → Option (RawSensor F) → Option (Sensor F) → Type 0
  Reads (some m) (some raw) o =
      (sensor : Sensor F) × (o ≡ some sensor)
      × (sensor.id ≡ raw.id)
      × (sensor.name ≡ m.name)
      × (sensor.description ≡ m.description)
      × (sensor.unit ≡ some m.unit)
      × (sensor.value ≡ some raw.value)
      × (sensor.action ≡ share)
  Reads (some m) none o = o ≡ none
  Reads none raw o = o ≡ none

  -- The lookup of a reading by the code's own enrichment.
  unfoldable pub reading : Option SensorMetadata → Option (RawSensor F) → Option (Sensor F)
  reading (some m) (some raw) = some (enriched raw m)
  reading (some m) none = none
  reading none raw = none

  reading-Reads :
      (m : Option SensorMetadata) (raw : Option (RawSensor F)) → Reads m raw (reading m raw)
  unfolding reading
  reading-Reads (some m) (some raw) = (enriched raw m, refl, refl, refl, refl, refl, refl, refl)
  reading-Reads (some m) none = refl
  reading-Reads none raw = refl

  find_in-enrich :
      (table : Table) (id : ℤ) (raws : List (RawSensor F))
      → find_in id (enrich table raws) ≡ reading (table id) (first_raw id raws)
  unfolding find_in enrich first_raw reading
  find_in-enrich table id [] = ground arith
  find_in-enrich table id (raw ∷ raws) = elim (Option-cases (table raw.id)) [
    | inl e ↦ ground (arith, eq_ℤ_iff raw.id id, find_in-enrich table id raws)
    | inr (m, e) ↦ ground (arith, eq_ℤ_iff raw.id id, find_in-enrich table id raws)
  ]

module _ {F : Type 0} (json : Json F) where
  -- With the metadata at hand, a payload whose first data point is `point` is parsed to a device
  -- that has the stored device's columns and the point's time, and in which a sensor is found
  -- exactly when the point has a reading with its id and the metadata know it: it is then the first
  -- such reading, with the name, the description and the unit of the metadata, its value as it was
  -- read, and the action of sharing.
  pub parse_data_finds :
      (row : DeviceRow F) (payload : Text) (table : Table) (point : SensorData F)
      (points : List (SensorData F))
      → json.parse_payload payload ≡ ok (point ∷ points)
      → (d : Device F) × (parse_data json row payload (some table) ≡ (ok d, some table))
        × (d.token ≡ row.device_token)
        × (d.label ≡ row.label)
        × (d.longitude ≡ row.longitude)
        × (d.latitude ≡ row.latitude)
        × (d.exposure ≡ row.exposure)
        × (d.recorded_at ≡ point.recorded_at)
        × ((id : ℤ) → Reads (table id) (first_raw id point.sensors) (find_sensor d id))
  unfolding parse_data find_sensor
  parse_data_finds row payload table point points e = (
    record {
      token = row.device_token;
      label = row.label;
      longitude = row.longitude;
      latitude = row.latitude;
      exposure = row.exposure;
      recorded_at = point.recorded_at;
      sensors = enrich_loop table point.sensors [];
    },
    rw e,
    refl,
    refl,
    refl,
    refl,
    refl,
    refl,
    λ id.
        subst (Reads (table id) (first_raw id point.sensors))
          (sym (
            ap (find_in id) (enrich_loop_lem table point.sensors [])
            ∙ find_in-enrich table id point.sensors))
          (reading-Reads (table id) (first_raw id point.sensors)),
  )

  -- The sensors of such a device.
  pub parse_data_sensors :
      (row : DeviceRow F) (payload : Text) (table : Table) (point : SensorData F)
      (points : List (SensorData F))
      → json.parse_payload payload ≡ ok (point ∷ points)
      → (d : Device F) × (parse_data json row payload (some table) ≡ (ok d, some table))
        × (d.sensors ≡ enrich table point.sensors)
  unfolding parse_data
  parse_data_sensors row payload table point points e = (
    record {
      token = row.device_token;
      label = row.label;
      longitude = row.longitude;
      latitude = row.latitude;
      exposure = row.exposure;
      recorded_at = point.recorded_at;
      sensors = enrich_loop table point.sensors [];
    },
    rw e refl,
    enrich_loop_lem table point.sensors [],
  )
