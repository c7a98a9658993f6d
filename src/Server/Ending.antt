-- ===== src/Server/Ending.antt =====
-- How `Start` of pkg/server/server.go ends, and what is left then of the connections that were made.
use iotencoder.Common.{
  none, some, ℕ, Text, ◌≡◌, refl, sym, ap, ◌∙◌, List, [], ◌∷◌, ◌++◌, map, subst, Option, Error,
  Result, ok, err, panic,
}
use iotencoder.Common.Float.{Float64}
use iotencoder.Common.Dict.{Dict}
use iotencoder.Mqtt.{
  Event, connected, subscribed, unsubscribed, disconnected, Client, subscribe, unsubscribe, stop,
}
use iotencoder.Mqtt.Connections.{
  Consistent, subscribing, unsubscribing, command, command-Consistent, connections, disconnections,
  disconnections-map, conns,
}
use iotencoder.Rpc.Encoder.{Encoder, State}
use iotencoder.Rpc.Encoder.Parts.{mqtt_client}
use iotencoder.Rpc.Encoder.Subscribing.{
  handle_create-Good, handle_delete-Good, handle_callback-client,
}
use iotencoder.Server.{
  Request, creating, deleting, message, listener_returned, connection_lost, received, serve,
  after_request, serve_all,
}

module _ (faults : ℕ → Option Error) where
  pub subscribe-Consistent :
      (b u t : Text) (c : Client) → Consistent c → Consistent (subscribe faults b u t c).1
  subscribe-Consistent b u t c h =
      unfold command in command-Consistent faults (subscribing b u t) c h

  pub unsubscribe-Consistent :
      (b u t : Text) (c : Client) → Consistent c → Consistent (unsubscribe faults b u t c).1
  unsubscribe-Consistent b u t c h =
      unfold command in command-Consistent faults (unsubscribing b u t) c h

  -- The connections that were made were ended, each once, and the map has none.
  abbrev pub AllEnded : Client → Type 0
  AllEnded c = (disconnections c.log ≡ conns faults (connections c.log)) × (c.clients ≡ [])

  connections-map :
      (es : List Event) (m : Dict ℕ)
      → connections (es ++ map (λ (key, n). disconnected n) m) ≡ connections es
  connections-map [] [] = refl
  connections-map [] ((k, n) ∷ m) = connections-map [] m
  connections-map (connected k n ∷ es) m = ap (λ cs. (k, n) ∷ cs) (connections-map es m)
  connections-map (subscribed n t ∷ es) m = connections-map es m
  connections-map (unsubscribed n t ∷ es) m = connections-map es m
  connections-map (disconnected n ∷ es) m = connections-map es m

  pub stop-AllEnded : (c : Client) → Consistent c → AllEnded (stop c)
  unfolding stop
  stop-AllEnded c h = (
    disconnections-map c.log c.clients
        ∙ ap (λ ds. ds ++ conns faults c.clients) h.none_ended
        ∙ ap (conns faults) (h.clients_made ∙ sym (connections-map c.log c.clients)),
    refl,
  )

module _ {F P : Type 0} ⦃f : Float64 F⦄ (faults : ℕ → Option Error)
    (encoder : Encoder F Client P) where
  -- The encoder with the MQTT client of the program.
  abbrev pub over_mqtt : Encoder F Client P
  over_mqtt = record encoder { mqtt = mqtt_client faults }

  received-Consistent :
      (r : Result (Unit {0}) × State F Client P)
      → Consistent r.1.client
      → Consistent (received over_mqtt r).1.client
  unfolding received
  received-Consistent (ok _, w) h = h
  received-Consistent (err e, w) h = h
  received-Consistent (panic, w) h = h

  serve-Consistent :
      (x : Request F) (w : State F Client P)
      → Consistent w.client
      → Consistent (serve over_mqtt x w).1.client
  unfolding serve
  serve-Consistent (creating entropy req) w h =
      handle_create-Good over_mqtt Consistent (subscribe-Consistent faults)
        (unsubscribe-Consistent faults) entropy req w h
  serve-Consistent (deleting req) w h =
      handle_delete-Good over_mqtt Consistent (subscribe-Consistent faults)
        (unsubscribe-Consistent faults) req w h
  serve-Consistent (message topic payload) w h =
      received-Consistent _
        (subst Consistent (sym (handle_callback-client over_mqtt topic payload w)) h)
  serve-Consistent (listener_returned none) w h = h
  serve-Consistent (listener_returned (some e)) w h = h
  serve-Consistent connection_lost w h = h

  after_request-Consistent :
      (rest : State F Client P → Result (Unit {0}) × State F Client P)
      (r : Result (Unit {0}) × State F Client P)
      → ((w : State F Client P) → Consistent w.client → Consistent (rest w).1.client)
      → Consistent r.1.client
      → Consistent (after_request over_mqtt rest r).1.client
  unfolding after_request
  after_request-Consistent rest (ok _, w) k h = k w h
  after_request-Consistent rest (err e, w) k h = k w h
  after_request-Consistent rest (panic, w) k h = h

  pub serve_all-Consistent :
      (xs : List (Request F)) (w : State F Client P)
      → Consistent w.client
      → Consistent (serve_all over_mqtt xs w).1.client
  unfolding serve_all
  serve_all-Consistent [] w h = h
  serve_all-Consistent (x ∷ xs) w h =
      after_request-Consistent (serve_all over_mqtt xs) _ (serve_all-Consistent xs)
        (serve-Consistent x w h)
