-- ===== src/Mqtt/Threads/Race.antt =====
-- Two calls of `getClient` of pkg/mqtt/mqtt.go that both read the map before either writes it.
use iotencoder.Common.{◌≡◌, refl, Text, [], ◌∷◌, none, ok, arith, text_eq_refl}
use iotencoder.Common.Dict.{lookup, insert}
use iotencoder.Mqtt.{new_client, stop}
use iotencoder.Mqtt.Connections.{connections, disconnections}
use iotencoder.Mqtt.Threads.{returned, System, advance, looked, dialled, put, move}
use iotencoder.Mqtt.Threads.Ending.{Run, here, step, all_waiting, left}

-- Both calls in turn: both read, both connect, both write.
abbrev pub turn : Text → System → System
turn key s = move (λ _. none) (λ _. key) 1 (move (λ _. none) (λ _. key) 0 s)

abbrev pub raced : Text → System
raced key = turn key (turn key (turn key (record { client = new_client; phase = all_waiting })))

pub raced-Run :
    (key : Text)
    → Run
        (λ _. none)
        (λ _. key)
        2
        (record { client = new_client; phase = all_waiting })
        6
        (raced key)
unfolding move advance looked dialled put left lookup
raced-Run key =
    step 1
      (step 0
        (step 1
          (step 0 (step 1 (step 0 here (ground arith) (ground arith)) (ground arith) (ground arith))
            (ground arith) (ground arith))
          (ground arith) (ground arith))
        (ground arith) (ground arith))
      (ground arith) (ground arith)

pub raced_first : (key : Text) → (raced key).phase 0 ≡ returned (ok 0)
unfolding move advance looked dialled put lookup
raced_first key = refl

-- Two calls for one key, when no call of paho fails, can end with two connections made for the key,
-- one returned to each call; `stop` then ends only the second of them.
pub race_lem :
    (key : Text)
    → (t : System) × Run
        (λ _. none)
        (λ _. key)
        2
        (record { client = new_client; phase = all_waiting })
        6
        t
      × (t.phase 0 ≡ returned (ok 0))
      × (t.phase 1 ≡ returned (ok 1))
      × (connections (stop t.client).log ≡ (key, 0) ∷ (key, 1) ∷ [])
      × (disconnections (stop t.client).log ≡ 1 ∷ [])
unfolding move advance looked dialled put lookup insert stop
race_lem key =
    (raced key, raced-Run key, refl, refl, rw (text_eq_refl key) refl, rw (text_eq_refl key) refl)
