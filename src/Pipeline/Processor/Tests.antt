-- ===== src/Pipeline/Processor/Tests.antt =====
-- The theorems on the processor at a device with two streams.
use iotencoder.Common.{ap, ◌≡◌, refl, pos, Text, codes, List, [], ◌∷◌, none, some, ok}
use iotencoder.Common.Float.{Whole, whole_float}
use iotencoder.Postgres.Types.{Operation, DeviceRow, Stream, Device as StoredDevice}
use iotencoder.Pipeline.MovingAverage.{Averager}
use iotencoder.Pipeline.MovingAverage.Window.{moving_average_lem}
use iotencoder.Pipeline.Processor.{Services, World, process}
use iotencoder.Pipeline.Processor.Requests.{Report, process-Report}
use iotencoder.Smartcitizen.Types.{SensorData}
use iotencoder.Smartcitizen.Metadata.{Table}
use iotencoder.Pipeline.MovingAverage.Window.{moving_average_lem}
use iotencoder.Pipeline.Operations.Succeeding.{Answering}
use iotencoder.Pipeline.Processor.Serving.{Available, process-ok}
use iotencoder.Pipeline.Tests.{number, token, averager, json, share_operation}

abbrev row : DeviceRow Whole
row = record {
  id = 1;
  device_token = token;
  label = codes "label";
  longitude = number 2;
  latitude = number 41;
  exposure = codes "indoor";
}

abbrev stream : Text → List (Operation Whole) → Stream Whole
stream community ops = record {
  community_id = community;
  public_key = codes "key";
  operations = ops;
  stream_id = [];
  token = [];
  device = none;
}

abbrev stored_device : StoredDevice Whole
stored_device = record {
  row = row;
  streams = stream (codes "one") [] ∷ stream (codes "two") (share_operation 12 ∷ []) ∷ [];
}

abbrev services : Services
services = record {
  script = ok (codes "code");
  exec = λ n code keys payload. ok payload;
  write_data = λ n req. none;
}

abbrev world : World (Averager Whole)
world = record {
  averager = [];
  metadata = none;
  execs = 0;
  requests = [];
  zenroom_errors = 0;
  datastore_errors = 0;
  zenroom_observed = 0;
  datastore_observed = 0;
}

process-Report_example :
    let a = process averager json services stored_device (some (codes "[]")) world in
    Report services stored_device.row stored_device.streams world a.0 a.1
process-Report_example =
    process-Report averager json services stored_device (some (codes "[]")) world

abbrev table : Table
table = λ id. some (record {
  id = id;
  uuid = [];
  parent_id = none;
  name = codes "PM";
  description = [];
  unit = none;
})

answering : Answering averager json
answering = record {
  averages =
      λ v t id interval s. (_, ap (λ r. r.0) (moving_average_lem (pos 1000) v t id interval s));
  prints = λ d. (d.token, refl);
}

available : Available services
available = record {
  scripted = (codes "code", refl);
  encrypts = λ n code keys payload. (payload, refl);
  takes = λ n req. refl;
}

abbrev point : SensorData Whole
point = record { recorded_at = pos 1000; sensors = record { id = pos 12; value = number 7 } ∷ [] }

process-ok_example :
    (process averager json services stored_device
      (some (codes "[]"))
      (record world { metadata = some table })).0
    ≡ ok tt
process-ok_example =
    process-ok averager json services answering available stored_device (codes "[]") table point []
      (record world { metadata = some table }) refl refl (tt, tt)
