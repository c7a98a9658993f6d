-- ===== src/Pipeline/Operations.antt =====
-- `processDevice` of pkg/pipeline/pipeline.go applies a stream's operations to a device's sensors. The
-- timers and the histogram of an operation are left out.
pub mod Selection
pub mod Forgetting
pub mod Succeeding
use iotencoder.Common.{
  ℕ, ℤ, pos, Text, text_eq, List, [], ◌∷◌, ◌++◌, Option, none, some, Result, ok, err, panic, wrap,
  wrap_err, if◌then◌else◌,
}
use iotencoder.Common.Float.{Float64}
use iotencoder.Postgres.Types.{Operation, share, bin, moving_average_action}
use iotencoder.Smartcitizen.Types.{Sensor, Device, Json, find_sensor}
use iotencoder.Pipeline.Binning.{bin_value}
use iotencoder.Pipeline.MovingAverage.{Averager, moving_average}

-- The interface `MovingAverager`, over the state of its implementation.
pub record MovingAverager (F S : Type 0) : Type 0 where
  pub average : F → Text → ℤ → ℕ → S → Result F × S

-- The implementation of pkg/pipeline/moving_averager.go, while its clock shows `now`.
abbrev pub averager_at : {F : Type 0} ⦃f : Float64 F⦄ → ℤ → MovingAverager F (Averager F)
averager_at now = record { average = moving_average now }

module _ {F : Type 0} where
  abbrev pub shared : Sensor F → Operation F → Sensor F
  shared sensor op = record {
    id = sensor.id;
    name = sensor.name;
    description = sensor.description;
    unit = sensor.unit;
    action = op.action;
    interval = none;
    value = sensor.value;
    bins = [];
    values = [];
  }

  abbrev pub binned : Sensor F → Operation F → List ℕ → Sensor F
  binned sensor op values = record {
    id = sensor.id;
    name = sensor.name;
    description = sensor.description;
    unit = sensor.unit;
    action = op.action;
    interval = none;
    value = none;
    bins = op.bins;
    values = values;
  }

  abbrev pub averaged : Sensor F → Operation F → F → Sensor F
  averaged sensor op avg = record {
    id = sensor.id;
    name = sensor.name;
    description = sensor.description;
    unit = sensor.unit;
    action = op.action;
    interval = some op.interval;
    value = some avg;
    bins = [];
    values = [];
  }

module _ {F S : Type 0} ⦃f : Float64 F⦄ (avg : MovingAverager F S) (json : Json F) where
  -- `case postgres.Bin`; reading the value through a nil pointer panics.
  bin_sensor : Operation F → Sensor F → Option F → Result (Option (Sensor F))
  bin_sensor op sensor none = panic
  bin_sensor op sensor (some v) = ok (some (binned sensor op (bin_value v op.bins)))

  -- What becomes of the averager's answer.
  average_answer : Operation F → Sensor F → Result F × S → Result (Option (Sensor F)) × S
  average_answer op sensor (ok a, s) = (ok (some (averaged sensor op a)), s)
  average_answer op sensor (err e, s) = (err (wrap e "failed to calculate moving average"), s)
  average_answer op sensor (panic, s) = (panic, s)

  -- `case postgres.MovingAverage`
  average_sensor : Text → Operation F → Sensor F → Option F → S → Result (Option (Sensor F)) × S
  unfolding average_answer
  average_sensor token op sensor none s = (panic, s)
  average_sensor token op sensor (some v) s =
      average_answer op sensor (avg.average v token sensor.id op.interval s)

  -- The switch on the action; `none` is `continue`.
  process_sensor : Text → Operation F → Sensor F → S → Result (Option (Sensor F)) × S
  unfolding bin_sensor average_sensor
  process_sensor token op sensor s =
      if text_eq op.action share
      then (ok (some (shared sensor op)), s)
      else (if text_eq op.action bin
          then (bin_sensor op sensor sensor.value, s)
          else (if text_eq op.action moving_average_action
              then average_sensor token op sensor sensor.value s
              else (ok none, s)))

  -- The body of the loop over the operations, at the sensor that was found.
  process_found : Text → Operation F → S → Option (Sensor F) → Result (Option (Sensor F)) × S
  unfolding process_sensor
  process_found token op s none = (ok none, s)
  process_found token op s (some sensor) = process_sensor token op sensor s

  process_operation : Device F → Operation F → S → Result (Option (Sensor F)) × S
  unfolding process_found
  process_operation d op s = process_found d.token op s (find_sensor d (pos op.sensor_id))

  -- What the loop does with the outcome of its body; `rest` is the rest of the loop.
  continue_with :
      (List (Sensor F) → S → Result (List (Sensor F)) × S)
      → List (Sensor F)
      → Result (Option (Sensor F)) × S
      → Result (List (Sensor F)) × S
  continue_with rest processed (ok none, s) = rest processed s
  continue_with rest processed (ok (some p), s) = rest (processed ++ (p ∷ [])) s
  continue_with rest processed (err e, s) = (err e, s)
  continue_with rest processed (panic, s) = (panic, s)

  unfoldable pub process_operations :
      Device F → List (Operation F) → List (Sensor F) → S → Result (List (Sensor F)) × S
  unfolding continue_with process_operation
  process_operations d [] processed s = (ok processed, s)
  process_operations d (op ∷ ops) processed s =
      continue_with (process_operations d ops) processed (process_operation d op s)

  replace_sensors : Device F → Result (List (Sensor F)) × S → Result Text × Device F × S
  replace_sensors d (ok ps, s) =
      let d' : Device F = record d { sensors = ps } in
      (wrap_err "failed to marshal processed device" (json.print_device d'), d', s)
  replace_sensors d (err e, s) = (err e, d, s)
  replace_sensors d (panic, s) = (panic, d, s)

  -- `processDevice`. The device is behind a pointer, and its sensors are replaced: the second part
  -- of the result is the device afterwards.
  unfoldable pub process_device : Device F → List (Operation F) → S → Result Text × Device F × S
  unfolding replace_sensors
  process_device d [] s = (wrap_err "failed to marshal complete device" (json.print_device d), d, s)
  process_device d (op ∷ ops) s = replace_sensors d (process_operations d (op ∷ ops) [] s)
