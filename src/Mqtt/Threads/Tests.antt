-- ===== src/Mqtt/Threads/Tests.antt =====
-- The theorems on interleaved calls at two calls for one broker.
use iotencoder.Common.{
  ℕ, ◌+◌, arith, ◌*◌, ◌<◌, ◌≤◌, ◌≡◌, Text, codes, [], ◌∷◌, none, some, Result, ok, true,
}
use iotencoder.Common.Dict.{lookup}
use iotencoder.Mqtt.{new_client, stop}
use iotencoder.Mqtt.Connections.{connections, disconnections}
use iotencoder.Mqtt.Threads.{returned, System, move}
use iotencoder.Mqtt.Threads.Ending.{Run, here, step, all_waiting, left, steps_of, Run-Ends}
use iotencoder.Mqtt.Threads.Running.{made, Run-Fits}
use iotencoder.Mqtt.Threads.Race.{raced, raced-Run, raced_first, race_lem}

abbrev key : Text
key = codes "tcp://broker:1883:"

race_lem_example :
    (t : System) × Run
      (λ _. none)
      (λ _. key)
      2
      (record { client = new_client; phase = all_waiting })
      6
      t
    × (t.phase 0 ≡ returned (ok 0))
    × (t.phase 1 ≡ returned (ok 1))
    × (connections (stop t.client).log ≡ (key, 0) ∷ (key, 1) ∷ [])
    × (disconnections (stop t.client).log ≡ 1 ∷ [])
race_lem_example = race_lem key

abbrev before : System
before = record { client = new_client; phase = all_waiting }

abbrev stepped : System
stepped = move (λ _. none) (λ _. key) 0 before

first_step : Run (λ _. none) (λ _. key) 2 before 1 stepped
unfolding left
first_step = step 0 here (omega arith) (omega arith)

Run-Ends_example :
    ((i : ℕ) → steps_of (λ _. none) (λ _. key) i first_step ≤ 3)
    × ((m : ℕ) × (t' : System) × Run (λ _. none) (λ _. key) 2 stepped m t'
        × (1 + m ≤ 3 * 2)
        × ((i : ℕ) → i < 2 → (a : Result ℕ) × (t'.phase i ≡ returned a)))
Run-Ends_example = Run-Ends (λ _. none) (λ _. key) 2 1 new_client stepped first_step

Run-Fits_example :
    (made key 0 (raced key).client.log ≡ true)
    × ((j : ℕ) × (lookup key (raced key).client.clients ≡ some j)
        × (made key j (raced key).client.log ≡ true))
Run-Fits_example =
    Run-Fits (λ _. none) (λ _. key) 2 6 (raced key) 0 0 (raced-Run key) (raced_first key)
