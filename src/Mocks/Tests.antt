-- ===== src/Mocks/Tests.antt =====
-- The double of the MQTT client on a few calls.
use iotencoder.Common.{◌≡◌, codes, List, [], ◌∷◌, none}
use iotencoder.Mqtt.Connections.{Command, subscribing, unsubscribing}
use iotencoder.Mqtt.{new_client}
use iotencoder.Mqtt.Connections.{run}
use iotencoder.Mocks.Agreement.{mock_agrees}
use iotencoder.Mqtt.Topics.{live}
use iotencoder.Mocks.{new_mock}
use iotencoder.Mocks.Sets.{mock_run, holds}

abbrev calls : List Command
calls =
    subscribing (codes "broker") (codes "user") (codes "abc")
    ∷ subscribing (codes "broker") (codes "user") (codes "xyz")
    ∷ unsubscribing (codes "broker") (codes "user") (codes "abc")
    ∷ []

mock_agrees_example :
    holds (codes "broker:user") (codes "xyz") (mock_run calls (new_mock none)).subscriptions
    ≡ live (codes "broker:user") (codes "xyz") (run (λ _. none) calls new_client)
mock_agrees_example = mock_agrees calls (codes "broker:user") (codes "xyz")
