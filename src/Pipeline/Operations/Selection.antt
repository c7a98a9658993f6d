-- ===== src/Pipeline/Operations/Selection.antt =====
-- What `processDevice` (pkg/pipeline/pipeline.go) discloses to a stream with operations: for each
-- operation at most one sensor, derived from the device's own as the operation says.
use iotencoder.Common.{
  pos, text_eq, text_eq→eq, List, [], ◌∷◌, ◌++◌, Option, none, some, Result, ok, err, panic, ◌≡◌,
  refl, false, ◌⊎◌, inl, inr, Bool-cases, sym, ◌∙◌, subst,
}
use mathlib.Core.List.{append_assoc, append-nil}
use iotencoder.Common.Float.{Float64}
use iotencoder.Postgres.Types.{Operation, share, bin, moving_average_action}
use iotencoder.Smartcitizen.Types.{Sensor, Device, Json, find_sensor}
use iotencoder.Pipeline.Binning.{bin_value}
use iotencoder.Pipeline.Operations.{
  MovingAverager, bin_sensor, average_answer, average_sensor, process_sensor, process_found,
  process_operation, continue_with, process_operations,
}

module _ {F : Type 0} ⦃f : Float64 F⦄ where
  -- A processed sensor is described as its source and has the operation's action.
  abbrev Describes : Operation F → Sensor F → Sensor F → Type 0
  Describes op source p =
      (p.id ≡ source.id)
      × (p.name ≡ source.name)
      × (p.description ≡ source.description)
      × (p.unit ≡ source.unit)
      × (p.action ≡ op.action)

  -- What an operation lets a stream see of a sensor: its value; the bins of its value and no value; or
  -- some average, with its interval, and no value of its own.
  pub data Discloses (op : Operation F) (source p : Sensor F) : Type 0 where
    sharing :
        op.action ≡ share
        → Describes op source p
        → (p.value ≡ source.value) × (p.interval ≡ none) × (p.bins ≡ []) × (p.values ≡ [])
        → Discloses op source p
    binning :
        (v : F)
        → op.action ≡ bin
        → source.value ≡ some v
        → Describes op source p
        → (p.value ≡ none)
          × (p.interval ≡ none)
          × (p.bins ≡ op.bins)
          × (p.values ≡ bin_value v op.bins)
        → Discloses op source p
    averaging :
        (avg : F)
        → op.action ≡ moving_average_action
        → Describes op source p
        → (p.value ≡ some avg) × (p.interval ≡ some op.interval) × (p.bins ≡ []) × (p.values ≡ [])
        → Discloses op source p

  -- The processed sensors of a list of operations, in their order; an operation is passed over
  -- only if the device has no sensor with its id, or its action is unknown.
  pub data Selected (d : Device F) : List (Operation F) → List (Sensor F) → Type 0 where
    done : Selected d [] []
    missing :
        {op : Operation F} {ops : List (Operation F)} {ps : List (Sensor F)}
        → find_sensor d (pos op.sensor_id) ≡ none
        → Selected d ops ps
        → Selected d (op ∷ ops) ps
    unknown :
        {op : Operation F} {ops : List (Operation F)} {ps : List (Sensor F)}
        → (text_eq op.action share ≡ false)
          × (text_eq op.action bin ≡ false)
          × (text_eq op.action moving_average_action ≡ false)
        → Selected d ops ps
        → Selected d (op ∷ ops) ps
    taken :
        {op : Operation F} {ops : List (Operation F)} {p : Sensor F} {ps : List (Sensor F)}
        → (source : Sensor F) → find_sensor d (pos op.sensor_id) ≡ some source
        → Discloses op source p
        → Selected d ops ps
        → Selected d (op ∷ ops) (p ∷ ps)

  -- How one operation ends.
  abbrev Outcome : Device F → Operation F → Result (Option (Sensor F)) → Type 0
  Outcome d op (ok none) =
      (find_sensor d (pos op.sensor_id) ≡ none)
      ⊎ ((text_eq op.action share ≡ false)
          × (text_eq op.action bin ≡ false)
          × (text_eq op.action moving_average_action ≡ false))
  Outcome d op (ok (some p)) =
      (source : Sensor F) × (find_sensor d (pos op.sensor_id) ≡ some source) × Discloses op source p
  Outcome d op (err e) = Unit {0}
  Outcome d op panic = Unit {0}

module _ {F S : Type 0} ⦃f : Float64 F⦄ (avg : MovingAverager F S) (json : Json F) where
  bin_sensor-Outcome :
      (d : Device F) (op : Operation F) (sensor : Sensor F) (o : Option F)
      → find_sensor d (pos op.sensor_id) ≡ some sensor
      → op.action ≡ bin
      → sensor.value ≡ o
      → Outcome d op (bin_sensor avg json op sensor o)
  unfolding bin_sensor
  bin_sensor-Outcome d op sensor none found a e = tt
  bin_sensor-Outcome d op sensor (some v) found a e =
      (sensor, found, binning v a e (refl, refl, refl, refl, refl) (refl, refl, refl, refl))

  average_answer-Outcome :
      (d : Device F) (op : Operation F) (sensor : Sensor F) (r : Result F × S)
      → find_sensor d (pos op.sensor_id) ≡ some sensor
      → op.action ≡ moving_average_action
      → Outcome d op (average_answer avg json op sensor r).0
  unfolding average_answer
  average_answer-Outcome d op sensor (ok a, s) found act =
      (sensor, found, averaging a act (refl, refl, refl, refl, refl) (refl, refl, refl, refl))
  average_answer-Outcome d op sensor (err e, s) found act = tt
  average_answer-Outcome d op sensor (panic, s) found act = tt

  average_sensor-Outcome :
      (d : Device F) (op : Operation F) (sensor : Sensor F) (o : Option F) (s : S)
      → find_sensor d (pos op.sensor_id) ≡ some sensor
      → op.action ≡ moving_average_action
      → Outcome d op (average_sensor avg json d.token op sensor o s).0
  unfolding average_sensor
  average_sensor-Outcome d op sensor none s found act = tt
  average_sensor-Outcome d op sensor (some v) s found act =
      average_answer-Outcome d op sensor (avg.average v d.token sensor.id op.interval s) found act

  process_sensor-Outcome :
      (d : Device F) (op : Operation F) (sensor : Sensor F) (s : S)
      → find_sensor d (pos op.sensor_id) ≡ some sensor
      → Outcome d op (process_sensor avg json d.token op sensor s).0
  unfolding process_sensor
  process_sensor-Outcome d op sensor s found = elim (Bool-cases (text_eq op.action share)) [
    | inl is_share ↦ rw is_share (
      sensor,
      found,
      sharing (text_eq→eq op.action share is_share) (refl, refl, refl, refl, refl)
          (refl, refl, refl, refl),
    )
    | inr not_share ↦ rw not_share (elim (Bool-cases (text_eq op.action bin)) [
      | inl is_bin ↦
          rw is_bin (
            bin_sensor-Outcome d op sensor sensor.value found (text_eq→eq op.action bin is_bin)
              refl)
      | inr not_bin ↦ rw not_bin (elim (Bool-cases (text_eq op.action moving_average_action)) [
        | inl is_avg ↦
            rw is_avg
              (average_sensor-Outcome d op sensor sensor.value s found (text_eq→eq _ _ is_avg))
        | inr not_avg ↦ rw not_avg (inr (not_share, not_bin, not_avg))
      ])
    ])
  ]

  process_found-Outcome :
      (d : Device F) (op : Operation F) (s : S) (o : Option (Sensor F))
      → find_sensor d (pos op.sensor_id) ≡ o
      → Outcome d op (process_found avg json d.token op s o).0
  unfolding process_found
  process_found-Outcome d op s none e = inl e
  process_found-Outcome d op s (some sensor) e = process_sensor-Outcome d op sensor s e

  process_operation-Outcome :
      (d : Device F) (op : Operation F) (s : S) → Outcome d op (process_operation avg json d op s).0
  unfolding process_operation
  process_operation-Outcome d op s =
      process_found-Outcome d op s (find_sensor d (pos op.sensor_id)) refl

  -- How the loop ends, from the sensors `processed` so far.
  abbrev Ending :
      Device F → List (Operation F) → List (Sensor F) → Result (List (Sensor F)) → Type 0
  Ending d ops processed (ok ps) =
      (more : List (Sensor F)) × (ps ≡ processed ++ more) × Selected d ops more
  Ending d ops processed (err e) = Unit {0}
  Ending d ops processed panic = Unit {0}

  Ending-missing :
      (d : Device F) (op : Operation F) (ops : List (Operation F)) (processed : List (Sensor F))
      (r : Result (List (Sensor F)))
      → Outcome d op (ok none)
      → Ending d ops processed r
      → Ending d (op ∷ ops) processed r
  Ending-missing d op ops processed (ok ps) (inl gone) (more, e, sel) = (more, e, missing gone sel)
  Ending-missing d op ops processed (ok ps) (inr other) (more, e, sel) =
      (more, e, unknown other sel)
  Ending-missing d op ops processed (err e) o h = tt
  Ending-missing d op ops processed panic o h = tt

  Ending-taken :
      (d : Device F) (op : Operation F) (ops : List (Operation F)) (processed : List (Sensor F))
      (p : Sensor F) (r : Result (List (Sensor F)))
      → Outcome d op (ok (some p))
      → Ending d ops (processed ++ (p ∷ [])) r
      → Ending d (op ∷ ops) processed r
  Ending-taken d op ops processed p (ok ps) (source, found, dis) (more, e, sel) =
      (p ∷ more, e ∙ append_assoc processed (p ∷ []) more, taken source found dis sel)
  Ending-taken d op ops processed p (err e) o h = tt
  Ending-taken d op ops processed p panic o h = tt

  process_operations-Ending :
      (d : Device F) (ops : List (Operation F)) (processed : List (Sensor F)) (s : S)
      → Ending d ops processed (process_operations avg json d ops processed s).0
  unfolding process_operations
  process_operations-Ending d [] processed s = ([], sym (append-nil processed), done)
  process_operations-Ending d (op ∷ ops) processed s =
      by_answer (process_operation avg json d op s) (process_operation-Outcome d op s)
        (process_operations-Ending d ops)
    where
      by_answer :
          (a : Result (Option (Sensor F)) × S)
          → Outcome d op a.0
          → ((ps : List (Sensor F)) (t : S)
              → Ending d ops ps (process_operations avg json d ops ps t).0)
          → Ending d
              (op ∷ ops)
              processed
              (continue_with avg json (process_operations avg json d ops) processed a).0
      by_answer (ok none, t) o ih = Ending-missing d op ops processed _ o (ih processed t)
      by_answer (ok (some p), t) o ih =
          Ending-taken d op ops processed p _ o (ih (processed ++ (p ∷ [])) t)
      by_answer (err e, t) o ih = tt
      by_answer (panic, t) o ih = tt

  pub process_operations_select :
      (d : Device F) (ops : List (Operation F)) (s s' : S) {ps : List (Sensor F)}
      → process_operations avg json d ops [] s ≡ (ok ps, s')
      → Selected d ops ps
  process_operations_select d ops s s' {ps} e =
      let (more, same, sel) =
        subst (λ r. Ending d ops [] r.0) e (process_operations-Ending d ops [] s) in
      subst (Selected d ops) (sym same) sel
