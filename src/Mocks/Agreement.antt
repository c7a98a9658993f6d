-- ===== src/Mocks/Agreement.antt =====
-- pkg/mocks/mqtt.go beside pkg/mqtt/mqtt.go, over the same calls when no call of paho fails.
use iotencoder.Common.{◌≡◌, refl, Text, List, [], ◌∷◌, none, ◌∙◌, sym, ap}
use iotencoder.Common.Dict.{lookup}
use iotencoder.Mqtt.{Client, new_client}
use iotencoder.Mqtt.Connections.{Command, subscribing, unsubscribing, run, command}
use iotencoder.Mocks.{new_mock}
use iotencoder.Mocks.Sets.{mock_run, holds, wanted, mock_run-Set}
use iotencoder.Mqtt.Topics.{current, live_on, live, Tracks}
use iotencoder.Mqtt.Topics.Calls.{subscribe-live, unsubscribe-live, new_client-Tracks}

run-Agrees :
    (xs : List Command) (c : Client)
    → Tracks c
    → (key token : Text)
    → live key token (run (λ _. none) xs c) ≡ wanted key token (live key token c) xs
unfolding run command wanted
run-Agrees [] c h key token = refl
run-Agrees (subscribing b u t ∷ xs) c h key token =
    let (answers, h', now) = subscribe-live b u t c h in
    run-Agrees xs _ h' key token ∙ ap (λ w. wanted key token w xs) (now key token)
run-Agrees (unsubscribing b u t ∷ xs) c h key token =
    let (answers, h', now) = unsubscribe-live b u t c h in
    run-Agrees xs _ h' key token ∙ ap (λ w. wanted key token w xs) (now key token)

-- Over any calls of the methods, from a new client with which no call of paho fails and from a new
-- double that answers no error: the double has a token under a key exactly when the client has a
-- connection for the key on which the topic of the token is subscribed to.
pub mock_agrees :
    (xs : List Command) (key token : Text)
    → holds key token (mock_run xs (new_mock none)).subscriptions
      ≡ live key token (run (λ _. none) xs new_client)
unfolding live live_on lookup current
mock_agrees xs key token =
    (mock_run-Set xs).0 key token ∙ sym (run-Agrees xs new_client new_client-Tracks key token)
