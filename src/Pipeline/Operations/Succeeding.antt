-- ===== src/Pipeline/Operations/Succeeding.antt =====
-- When `processDevice` (pkg/pipeline/pipeline.go) succeeds: every sensor has a value, as in a payload, and the
-- moving averager and the printer answer.
use iotencoder.Common.{
  ℕ, ℤ, pos, Text, text_eq, List, [], ◌∷◌, ◌++◌, Option, none, some, Result, ok, err, panic, false,
  Bool-cases, eq_ℤ, inl, inr, arith, ◌≡◌, refl,
}
use iotencoder.Common.Float.{Float64}
use iotencoder.Postgres.Types.{Operation, share, bin, moving_average_action}
use iotencoder.Smartcitizen.Types.{Sensor, Device, Json, find_in, find_sensor}
use iotencoder.Pipeline.Operations.{
  MovingAverager, bin_sensor, average_answer, average_sensor, process_sensor, process_found,
  process_operation, continue_with, process_operations, replace_sensors, process_device,
}

module _ {F : Type 0} where
  abbrev pub Valued : Sensor F → Type 0
  Valued sensor = (v : F) × (sensor.value ≡ some v)

  abbrev pub AllValued : List (Sensor F) → Type 0
  AllValued [] = Unit {0}
  AllValued (s ∷ ss) = Valued s × AllValued ss

  -- No operation puts its sensor in bins.
  abbrev pub NoBin : List (Operation F) → Type 0
  NoBin [] = Unit {0}
  NoBin (op ∷ ops) = (text_eq op.action bin ≡ false) × NoBin ops

  abbrev KeepsValue : Option (Sensor F) → Type 0
  KeepsValue none = Unit {0}
  KeepsValue (some s) = Valued s

  find_in-Valued :
      (id : ℤ) (sensors : List (Sensor F)) → AllValued sensors → KeepsValue (find_in id sensors)
  unfolding find_in
  find_in-Valued id [] h = tt
  find_in-Valued id (x ∷ sensors) (v, h) = elim (Bool-cases (eq_ℤ x.id id)) [
    | inl e ↦ rw e v
    | inr e ↦ rw e (find_in-Valued id sensors h)
  ]

  AllValued-append :
      (xs : List (Sensor F)) (x : Sensor F) → AllValued xs → Valued x → AllValued (xs ++ (x ∷ []))
  AllValued-append [] x h v = (v, tt)
  AllValued-append (y ∷ xs) x (u, h) v = (u, AllValued-append xs x h v)

-- The averager answers a value, and the printer a text.
pub record Answering {F S : Type 0} ⦃f : Float64 F⦄ (avg : MovingAverager F S) (json : Json F)
    : Type 0 where
  pub averages :
      (v : F) (token : Text) (id : ℤ) (interval : ℕ) (s : S)
      → (a : F) × ((avg.average v token id interval s).0 ≡ ok a)
  pub prints : (d : Device F) → (t : Text) × (json.print_device d ≡ ok t)

module _ {F S : Type 0} ⦃f : Float64 F⦄ (avg : MovingAverager F S) (json : Json F)
    (answering : Answering avg json) where
  -- An operation succeeds, and leaves its sensor with a value if it does not put it in bins.
  abbrev Applies : Operation F → Result (Option (Sensor F)) × S → Type 0
  Applies op (ok r, s) = text_eq op.action bin ≡ false → KeepsValue r
  Applies op (err e, s) = ⊥
  Applies op (panic, s) = ⊥

  average_answer-Applies :
      (op : Operation F) (sensor : Sensor F) (a : F) (r : Result F × S)
      → r.0 ≡ ok a
      → Applies op (average_answer avg json op sensor r)
  unfolding average_answer
  average_answer-Applies op sensor a (ok b, s) e = λ h. (b, refl)
  average_answer-Applies op sensor a (err x, s) e = ground (arith, e)
  average_answer-Applies op sensor a (panic, s) e = ground (arith, e)

  process_sensor-Applies :
      (token : Text) (op : Operation F) (sensor : Sensor F) (s : S)
      → Valued sensor
      → Applies op (process_sensor avg json token op sensor s)
  unfolding process_sensor bin_sensor average_sensor
  process_sensor-Applies token op sensor s (v, e) = elim (Bool-cases (text_eq op.action share)) [
    | inl a ↦ rw a (λ h. (v, e))
    | inr a ↦ elim (Bool-cases (text_eq op.action bin)) [
      | inl b ↦ rw a (rw b (rw e (λ h. absurd (ground (arith, h)))))
      | inr b ↦ elim (Bool-cases (text_eq op.action moving_average_action)) [
        | inl c ↦ rw a (
            rw b (
              rw c (
                rw e (
                  average_answer-Applies op sensor _ (avg.average v token sensor.id op.interval s)
                    (answering.averages v token sensor.id op.interval s).1))))
        | inr c ↦ rw a (rw b (rw c (λ h. tt)))
      ]
    ]
  ]

  process_found-Applies :
      (token : Text) (op : Operation F) (s : S) (o : Option (Sensor F))
      → KeepsValue o
      → Applies op (process_found avg json token op s o)
  unfolding process_found
  process_found-Applies token op s none v = λ h. tt
  process_found-Applies token op s (some sensor) v = process_sensor-Applies token op sensor s v

  -- The operations succeed, and leave values if none puts its sensor in bins.
  abbrev AllApply : List (Operation F) → List (Sensor F) → Result (List (Sensor F)) × S → Type 0
  AllApply ops processed (ok ps, s) = NoBin ops → AllValued processed → AllValued ps
  AllApply ops processed (err e, s) = ⊥
  AllApply ops processed (panic, s) = ⊥

  AllApply-next :
      (op : Operation F) (ops : List (Operation F)) (before processed : List (Sensor F))
      (a : Result (List (Sensor F)) × S)
      → (text_eq op.action bin ≡ false → AllValued before → AllValued processed)
      → AllApply ops processed a
      → AllApply (op ∷ ops) before a
  AllApply-next op ops before processed (ok ps, s) k h = λ n v. h n.1 (k n.0 v)
  AllApply-next op ops before processed (err e, s) k h = h
  AllApply-next op ops before processed (panic, s) k h = h

  continue_with-AllApply :
      (op : Operation F) (ops : List (Operation F)) (processed : List (Sensor F))
      (rest : List (Sensor F) → S → Result (List (Sensor F)) × S)
      (a : Result (Option (Sensor F)) × S)
      → Applies op a
      → ((ps : List (Sensor F)) (s : S) → AllApply ops ps (rest ps s))
      → AllApply (op ∷ ops) processed (continue_with avg json rest processed a)
  unfolding continue_with
  continue_with-AllApply op ops processed rest (ok none, s) h k =
      AllApply-next op ops processed processed _ (λ n v. v) (k processed s)
  continue_with-AllApply op ops processed rest (ok (some p), s) h k =
      AllApply-next op ops processed (processed ++ (p ∷ [])) _
        (λ n v. AllValued-append processed p v (h n)) (k (processed ++ (p ∷ [])) s)
  continue_with-AllApply op ops processed rest (err e, s) h k = h
  continue_with-AllApply op ops processed rest (panic, s) h k = h

  process_operations-AllApply :
      (d : Device F) (ops : List (Operation F)) (processed : List (Sensor F)) (s : S)
      → AllValued d.sensors
      → AllApply ops processed (process_operations avg json d ops processed s)
  unfolding process_operations process_operation find_sensor
  process_operations-AllApply d [] processed s v = λ n h. h
  process_operations-AllApply d (op ∷ ops) processed s v =
      continue_with-AllApply op ops processed (process_operations avg json d ops) _
        (process_found-Applies d.token op s _ (find_in-Valued (pos op.sensor_id) d.sensors v))
        (λ ps s'. process_operations-AllApply d ops ps s' v)

  -- A stream's turn succeeds, and leaves a device whose sensors have values if it puts none in bins.
  abbrev pub Serves : List (Operation F) → Result Text × Device F × S → Type 0
  Serves ops (ok t, d, s) = NoBin ops → AllValued d.sensors
  Serves ops (err e, d, s) = ⊥
  Serves ops (panic, d, s) = ⊥

  replace_sensors-Serves :
      (d : Device F) (ops : List (Operation F)) (a : Result (List (Sensor F)) × S)
      → AllApply ops [] a
      → Serves ops (replace_sensors avg json d a)
  unfolding replace_sensors
  replace_sensors-Serves d ops (ok ps, s) h =
      let (t, e) = answering.prints (record d { sensors = ps }) in rw e (λ n. h n tt)
  replace_sensors-Serves d ops (err e, s) h = h
  replace_sensors-Serves d ops (panic, s) h = h

  pub process_device-Serves :
      (d : Device F) (ops : List (Operation F)) (s : S)
      → AllValued d.sensors
      → Serves ops (process_device avg json d ops s)
  unfolding process_device
  process_device-Serves d [] s v = let (t, e) = answering.prints d in rw e (λ n. v)
  process_device-Serves d (op ∷ ops) s v =
      replace_sensors-Serves d (op ∷ ops) _ (process_operations-AllApply d (op ∷ ops) [] s v)
