-- ===== src/Pipeline/Operations/Forgetting.antt =====
-- The device that `processDevice` (pkg/pipeline/pipeline.go) leaves behind: its sensors are replaced
-- by the processed ones, and `Process` hands it to the next stream.
use iotencoder.Common.{
  ℕ, ℤ, pos, Text, text_eq, List, [], ◌∷◌, none, some, Result, ok, err, panic, wrap_err, arith, ◌≡◌,
  ◌≢◌, refl, sym, ◌∙◌, ap, subst, eq_ℤ_iff,
}
use iotencoder.Common.Float.{Float64}
use iotencoder.Postgres.Types.{Operation, bin}
use iotencoder.Smartcitizen.Types.{Sensor, Device, Json, find_in, find_sensor}
use iotencoder.Pipeline.Operations.{
  MovingAverager, process_operations, process_operation, process_found, process_sensor, bin_sensor,
  continue_with, replace_sensors, process_device, binned,
}
use iotencoder.Pipeline.Binning.{bin_value}
use iotencoder.Pipeline.Operations.Selection.{
  Discloses, sharing, binning, averaging, Selected, done, missing, unknown, taken,
  process_operations_select,
}

module _ {F : Type 0} where
  -- No operation is on the sensor.
  abbrev pub NotNamed : ℤ → List (Operation F) → Type 0
  NotNamed id [] = Unit {0}
  NotNamed id (op ∷ ops) = (pos op.sensor_id ≢ id) × NotNamed id ops

  find_in-id :
      (id : ℤ) (sensors : List (Sensor F)) {s : Sensor F} → find_in id sensors ≡ some s → s.id ≡ id
  unfolding find_in
  find_in-id id [] e = cc
  find_in-id id (x ∷ sensors) {s} e =
      ground (arith, eq_ℤ_iff x.id id, find_in-id id sensors {s = s})

module _ {F : Type 0} ⦃f : Float64 F⦄ where
  Discloses-id : {op : Operation F} {source p : Sensor F} → Discloses op source p → p.id ≡ source.id
  Discloses-id (sharing a same _) = same.0
  Discloses-id (binning v a e same _) = same.0
  Discloses-id (averaging avg a same _) = same.0

  Selected-forgets :
      {d : Device F} {ops : List (Operation F)} {ps : List (Sensor F)} (id : ℤ)
      → Selected d ops ps
      → NotNamed id ops
      → find_in id ps ≡ none
  unfolding find_in find_sensor
  Selected-forgets id done h = refl
  Selected-forgets id (missing gone sel) h = Selected-forgets id sel h.1
  Selected-forgets id (unknown other sel) h = Selected-forgets id sel h.1
  Selected-forgets {d} id (taken {op = op} {p = p} source found dis sel) h = ground (
    arith,
    eq_ℤ_iff p.id id,
    Discloses-id dis,
    find_in-id (pos op.sensor_id) d.sensors found,
    Selected-forgets id sel h.1,
  )

module _ {F S : Type 0} ⦃f : Float64 F⦄ (avg : MovingAverager F S) (json : Json F) where
  replace_sensors-ok :
      (d : Device F) (a : Result (List (Sensor F)) × S) {b : Text} {d' : Device F} {s' : S}
      → replace_sensors avg json d a ≡ (ok b, d', s')
      → (ps : List (Sensor F)) × (a ≡ (ok ps, s')) × (d'.sensors ≡ ps)
  unfolding replace_sensors
  replace_sensors-ok d (ok ps, s) e = (ps, ground arith, ground arith)
  replace_sensors-ok d (err x, s) e = ground arith
  replace_sensors-ok d (panic, s) e = ground arith

  -- Once a stream with operations has been served, a sensor that none of its operations names
  -- is found no more, so a later stream of the same payload does not get it.
  pub process_device_forgets :
      (d : Device F) (op : Operation F) (ops : List (Operation F)) (s : S) (id : ℤ) {b : Text}
      {d' : Device F} {s' : S}
      → process_device avg json d (op ∷ ops) s ≡ (ok b, d', s')
      → NotNamed id (op ∷ ops)
      → find_sensor d' id ≡ none
  unfolding process_device find_sensor
  process_device_forgets d op ops s id e h =
      let (ps, ended, same) =
        replace_sensors-ok d (process_operations avg json d (op ∷ ops) [] s) e in
      ap (find_in id) same
      ∙ Selected-forgets id (process_operations_select avg json d (op ∷ ops) s _ ended) h

  abbrev pub bin_operation : ℕ → List F → ℕ → Operation F
  bin_operation i bins interval = record {
    sensor_id = i;
    action = bin;
    bins = bins;
    interval = interval;
  }

  bin_of_found :
      (d : Device F) (i : ℕ) (bins : List F) (k : ℕ) (s : S) (x : Sensor F)
      → find_sensor d (pos i) ≡ some x
      → process_operation avg json d (bin_operation i bins k) s
        ≡ (bin_sensor avg json (bin_operation i bins k) x x.value, s)
  unfolding process_operation process_found process_sensor text_eq
  bin_of_found d i bins k s x found = rw found

  first_bin :
      (d : Device F) (i : ℕ) (bins : List F) (k : ℕ) (s : S) (x : Sensor F) (v : F)
      → find_sensor d (pos i) ≡ some x
      → x.value ≡ some v
      → let d' : Device F = record d {
        sensors = binned x (bin_operation i bins k) (bin_value v bins) ∷ [];
      } in
        process_device avg json d (bin_operation i bins k ∷ []) s
        ≡ (wrap_err "failed to marshal processed device" (json.print_device d'), d', s)
  unfolding process_device replace_sensors process_operations continue_with bin_sensor
  first_bin d i bins k s x v found e = rw (bin_of_found d i bins k s x found, e)

  found_again :
      (d : Device F) (i : ℕ) (x kept : Sensor F)
      → find_sensor d (pos i) ≡ some x
      → kept.id ≡ x.id
      → find_sensor (record d { sensors = kept ∷ [] }) (pos i) ≡ some kept
  unfolding find_sensor find_in
  found_again d i x kept found same =
      ground (arith, find_in-id (pos i) d.sensors found, eq_ℤ_iff kept.id (pos i))

  -- Binning a sensor that has no value panics.
  bin_panics :
      (d : Device F) (i : ℕ) (bins : List F) (k : ℕ) (ops : List (Operation F)) (s : S)
      (x : Sensor F)
      → find_sensor d (pos i) ≡ some x
      → x.value ≡ none
      → (process_device avg json d (bin_operation i bins k ∷ ops) s).0 ≡ panic
  unfolding process_device replace_sensors process_operations continue_with bin_sensor
  bin_panics d i bins k ops s x found e = rw (bin_of_found d i bins k s x found, e)

  -- If a device has a sensor with a value and a stream with one operation bins it, then serving a
  -- later stream of the same payload whose first operation bins the same sensor panics, by a read
  -- through a nil pointer.
  pub process_device_bins_once :
      (d : Device F) (i : ℕ) (bins bins' : List F) (k k' : ℕ) (ops : List (Operation F)) (s : S)
      (x : Sensor F) (v : F)
      → find_sensor d (pos i) ≡ some x
      → x.value ≡ some v
      → let (_, d', s') = process_device avg json d (bin_operation i bins k ∷ []) s in
        (process_device avg json d' (bin_operation i bins' k' ∷ ops) s').0 ≡ panic
  process_device_bins_once d i bins bins' k k' ops s x v found e =
      let kept : Sensor F = binned x (bin_operation i bins k) (bin_value v bins) in
      let d' : Device F = record d { sensors = kept ∷ [] } in
      subst (λ r. (process_device avg json r.1 (bin_operation i bins' k' ∷ ops) r.2).0 ≡ panic)
        (sym (first_bin d i bins k s x v found e))
        (bin_panics d' i bins' k' ops s kept (found_again d i x kept found refl) refl)
