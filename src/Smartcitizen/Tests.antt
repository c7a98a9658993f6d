-- ===== src/Smartcitizen/Tests.antt =====
-- The theorems on pkg/smartcitizen at concrete inputs.
use iotencoder.Common.{◌≡◌, refl, ℤ, pos, Text, codes, List, [], ◌∷◌, none, some, ok}
use iotencoder.Common.Float.{Whole}
use iotencoder.Postgres.Types.{DeviceRow}
use iotencoder.Smartcitizen.Types.{SensorData, SensorMetadata, Device, Json, find_sensor}
use iotencoder.Smartcitizen.Metadata.{Table}
use iotencoder.Smartcitizen.Parse.{parse_data, first_raw, Reads, parse_data_finds}

abbrev metadata : Text → SensorMetadata
metadata name = record {
  id = pos 12;
  uuid = [];
  parent_id = none;
  name = name;
  description = [];
  unit = none;
}

-- Two sensors of the list have one id.
abbrev list : List SensorMetadata
list = metadata (codes "old") ∷ metadata (codes "new") ∷ []

abbrev point : SensorData Whole
point = record {
  recorded_at = pos 1000;
  sensors = record { id = pos 12; value = some (pos 7) } ∷ [];
}

abbrev json : Json Whole
json = record {
  parse_payload = λ p. ok (point ∷ []);
  parse_metadata = λ p. ok list;
  print_device = λ d. ok d.token;
  sensors_asset = ok (codes "[]");
}

abbrev row : DeviceRow Whole
row = record {
  id = 1;
  device_token = codes "token";
  label = codes "label";
  longitude = some (pos 2);
  latitude = some (pos 41);
  exposure = codes "indoor";
}

abbrev table : Table
table = λ id. some (metadata (codes "new"))

parse_data_finds_example :
    (d : Device Whole) × (parse_data json row (codes "[]") (some table) ≡ (ok d, some table))
    × (d.token ≡ codes "token")
    × (d.label ≡ row.label)
    × (d.longitude ≡ row.longitude)
    × (d.latitude ≡ row.latitude)
    × (d.exposure ≡ row.exposure)
    × (d.recorded_at ≡ pos 1000)
    × ((id : ℤ) → Reads (table id) (first_raw id point.sensors) (find_sensor d id))
parse_data_finds_example = parse_data_finds json row (codes "[]") table point [] refl
