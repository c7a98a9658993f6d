-- ===== src/Mocks.antt =====
-- pkg/mocks/mqtt.go and pkg/mocks/processor.go: the doubles by which the tests of pkg/rpc replace the
-- MQTT client and the processor. The lock is left out, a method is one step.
pub mod Sets
pub mod Agreement
mod Tests
use iotencoder.Common.{
  Text, Bool, true, false, List, [], ◌∷◌, Option, none, some, Error, Result, ok, err, if◌then◌else◌,
}
use iotencoder.Common.Dict.{Dict, lookup, insert, remove}
use iotencoder.Mqtt.{client_key}
use iotencoder.Rpc.Encoder.{MqttClient, Processor}

-- `MQTTClient`: the error that it was told to answer, and for each key the device tokens.
pub record MockClient : Type 0 where
  pub error : Option Error
  pub subscriptions : Dict (Dict Bool)

-- `NewMQTTClient`
abbrev pub new_mock : Option Error → MockClient
new_mock e = record { error = e; subscriptions = [] }

-- The inner map is made where the key has none.
unfoldable pub with_inner : Text → Dict (Dict Bool) → Option (Dict Bool) → Dict (Dict Bool)
with_inner key m none = insert key [] m
with_inner key m (some _) = m

unfoldable pub mark_in : Text → Text → Dict (Dict Bool) → Option (Dict Bool) → Dict (Dict Bool)
mark_in key token m none = m
mark_in key token m (some inner) = insert key (insert token true inner) m

unfoldable pub mark : Text → Text → Dict (Dict Bool) → Dict (Dict Bool)
unfolding with_inner mark_in
mark key token m =
    let made = with_inner key m (lookup key m) in mark_in key token made (lookup key made)

unfoldable pub no_tokens : Dict Bool → Bool
no_tokens [] = true
no_tokens (_ ∷ _) = false

-- The token leaves the inner map, and an inner map that is empty then leaves the outer one.
unfoldable pub drop_found :
    Text → Text → Dict (Dict Bool) → Dict Bool → Option Bool → Dict (Dict Bool)
unfolding no_tokens
drop_found key token m inner none = m
drop_found key token m inner (some _) =
    let rest = remove token inner in if no_tokens rest then remove key m else insert key rest m

unfoldable pub drop_in : Text → Text → Dict (Dict Bool) → Option (Dict Bool) → Dict (Dict Bool)
unfolding drop_found
drop_in key token m none = m
drop_in key token m (some inner) = drop_found key token m inner (lookup token inner)

unfoldable pub answer :
    (Dict (Dict Bool) → Dict (Dict Bool))
    → MockClient
    → Option Error
    → Result (Unit {0}) × MockClient
answer change c (some e) = (err e, c)
answer change c none = (ok tt, record c { subscriptions = change c.subscriptions })

-- `Subscribe`
unfoldable pub mock_subscribe : Text → Text → Text → MockClient → Result (Unit {0}) × MockClient
unfolding answer mark
mock_subscribe broker username token c = answer (mark (client_key broker username) token) c c.error

-- `Unsubscribe`
unfoldable pub mock_unsubscribe : Text → Text → Text → MockClient → Result (Unit {0}) × MockClient
unfolding answer drop_in
mock_unsubscribe broker username token c =
    let key = client_key broker username in
    answer (λ m. drop_in key token m (lookup key m)) c c.error

-- The double as the interface that the encoder uses.
abbrev pub mock_client : MqttClient MockClient
mock_client = record { subscribe = mock_subscribe; unsubscribe = mock_unsubscribe }

-- `Processor` of the mocks: every payload is taken.
abbrev pub mock_processor : {F P : Type 0} → Processor F P
mock_processor = record { process = λ device payload p. (ok tt, p) }
