-- ===== src/Pipeline/Tests.antt =====
-- The theorems on pkg/pipeline at concrete inputs, with whole numbers for the floats.
use iotencoder.Common.{
  ℕ, ◌≡◌, refl, pos, Text, codes, List, [], ◌∷◌, none, some, ok, panic, arith, text_eq,
}
use iotencoder.Common.{◌≢◌}
use iotencoder.Common.Dict.{lookup}
use iotencoder.Common.Int.{◌-ℤ◌, ◌+ℤ◌}
use iotencoder.Common.Float.{Whole, whole_float, Whole-IsIeee}
use iotencoder.Postgres.Types.{Operation, share}
use iotencoder.Smartcitizen.Types.{Sensor, Device, Json, find_sensor}
use iotencoder.Pipeline.Binning.{bin_value}
use iotencoder.Pipeline.Binning.Counting.{at_most, bin_value-at_most}
use iotencoder.Pipeline.MovingAverage.Race.{entries_read, average_written, moving_average_race}
use iotencoder.Pipeline.MovingAverage.{Averager, series_key, moving_average}
use iotencoder.Pipeline.MovingAverage.Window.{recent, mean}
use iotencoder.Pipeline.MovingAverage.History.{
  Call, answer_to, after, answer_of_series, series, moving_average_history,
}
use iotencoder.Pipeline.Operations.{MovingAverager, averager_at, process_operations, process_device}
use iotencoder.Pipeline.Operations.Forgetting.{
  bin_operation, process_device_forgets, process_device_bins_once,
}

abbrev pub number : ℕ → Whole
number n = some (pos n)

abbrev pub token : Text
token = codes "a:1"

abbrev call : ℕ → ℕ → ℕ → Call Whole
call now value sensor = record {
  now = pos now;
  value = number value;
  token = token;
  sensor = pos sensor;
  interval = 60;
}

-- Two calls for sensor 12, the older one out of the interval, and one for sensor 13.
abbrev calls : List (Call Whole)
calls = call 990 8 13 ∷ call 980 4 12 ∷ call 900 100 12 ∷ []

moving_average_history_example :
    (answer_to (call 1000 6 12) (after calls)).0
    ≡ ok (answer_of_series (call 1000 6 12) (series (call 1000 6 12) calls))
moving_average_history_example =
    moving_average_history (call 1000 6 12) calls (omega arith) (omega arith)

mean_of_two : answer_of_series (call 1000 6 12) (series (call 1000 6 12) calls) ≡ number 5
unfolding answer_of_series series text_eq mean recent ◌-ℤ◌ ◌+ℤ◌
mean_of_two = refl

moving_average_race_example :
    let m : Averager Whole = [] in
    let entries = entries_read token (pos 12) 60 m in
    let m1 = (average_written token (pos 12) 60 (pos 1000) (number 4) entries m).1 in
    let (r, m2) = average_written token (pos 12) 60 (pos 1000) (number 6) entries m1 in
    let key = series_key token (pos 12) 60 in
    let (alone, m') = moving_average (pos 1000) (number 6) token (pos 12) 60 m in
    (r ≡ alone)
    × (lookup key m2 ≡ lookup key m')
    × ((j : Text) → key ≢ j → lookup j m2 ≡ lookup j m)
moving_average_race_example =
    moving_average_race token (pos 12) 60 (pos 1000) (number 4) (pos 1000) (number 6) []

bin_value-at_most_example : bin_value (number 7) (number 5 ∷ number 9 ∷ []) ≡ 0 ∷ 1 ∷ 0 ∷ []
unfolding at_most
bin_value-at_most_example =
    bin_value-at_most Whole-IsIeee (number 7) refl (number 5 ∷ number 9 ∷ []) (refl, (refl, tt))

abbrev sensor : ℕ → ℕ → Sensor Whole
sensor id value = record {
  id = pos id;
  name = codes "PM";
  description = [];
  unit = none;
  action = share;
  interval = none;
  value = some (number value);
  bins = [];
  values = [];
}

abbrev device : Device Whole
device = record {
  token = token;
  label = codes "label";
  longitude = number 2;
  latitude = number 41;
  exposure = codes "indoor";
  recorded_at = pos 1000;
  sensors = sensor 12 7 ∷ sensor 13 8 ∷ sensor 14 9 ∷ [];
}

abbrev pub json : Json Whole
json = record {
  parse_payload = λ p. ok (
      record { recorded_at = pos 1000; sensors = record { id = pos 12; value = number 7 } ∷ [] }
      ∷ []);
  parse_metadata = λ p. ok (
      record {
        id = pos 12;
        uuid = [];
        parent_id = none;
        name = codes "PM";
        description = [];
        unit = none;
      }
      ∷ []);
  print_device = λ d. ok d.token;
  sensors_asset = ok [];
}

abbrev pub averager : MovingAverager Whole (Averager Whole)
averager = averager_at (pos 1000)

abbrev pub share_operation : ℕ → Operation Whole
share_operation id = record { sensor_id = id; action = share; bins = []; interval = 0 }

abbrev operations : List (Operation Whole)
operations = share_operation 12 ∷ bin_operation averager json 13 (number 5 ∷ []) 0 ∷ []

process_device_forgets_example :
    find_sensor (process_device averager json device (share_operation 12 ∷ []) []).1 (pos 13) ≡ none
unfolding process_device process_operations find_sensor text_eq
process_device_forgets_example =
    process_device_forgets averager json device (share_operation 12) [] [] (pos 13) refl
      (λ e. ground arith, tt)

process_device_bins_once_example :
    let (_, d', s') =
      process_device averager json device
        (bin_operation averager json 12 (number 5 ∷ []) 0 ∷ [])
        [] in
    (process_device averager json d' (bin_operation averager json 12 (number 6 ∷ []) 0 ∷ []) s').0
    ≡ panic
process_device_bins_once_example =
    process_device_bins_once averager json device 12 (number 5 ∷ []) (number 6 ∷ []) 0 0 [] []
      (sensor 12 7) (number 7) (unfold find_sensor in refl) refl
