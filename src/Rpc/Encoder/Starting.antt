-- ===== src/Rpc/Encoder/Starting.antt =====
-- `Start` of pkg/rpc/encoder.go with the MQTT client of pkg/mqtt/mqtt.go, when no call of the driver or
-- of paho fails: every device of the database is subscribed to.
use iotencoder.Common.{
  ℕ, ◌+◌, ◌≡◌, refl, Text, List, [], ◌∷◌, ◌++◌, map, Option, none, some, Result, ok, err, panic,
  sym, ◌∙◌, ap, arith,
}
use mathlib.Core.List.{append_assoc, append-nil}
use iotencoder.Common.Float.{Float64}
use iotencoder.Common.Dict.{lookup, insert}
use iotencoder.Postgres.Transactor.{Session}
use iotencoder.Postgres.Streams.{get_devices}
use iotencoder.Postgres.Streams.RoundTrip.{quiet}
use iotencoder.Postgres.Streams.Reading.{listed, get_devices_lem}
use iotencoder.Mqtt.{
  Event, connected, subscribed, unsubscribed, disconnected, Client, client_key, build_topic,
  subscribe, get_client,
}
use iotencoder.Rpc.Encoder.{Encoder, State, next_device, subscribe_devices, started, start}
use iotencoder.Rpc.Encoder.Parts.{mqtt_client}

-- The topics that paho was told to subscribe to, in their order.
abbrev pub topics : List Event → List Text
topics [] = []
topics (subscribed n topic ∷ es) = topic ∷ topics es
topics (_ ∷ es) = topics es

topics-append : (es fs : List Event) → topics (es ++ fs) ≡ topics es ++ topics fs
topics-append [] fs = refl
topics-append (connected k n ∷ es) fs = topics-append es fs
topics-append (subscribed n t ∷ es) fs = ap (λ ts. t ∷ ts) (topics-append es fs)
topics-append (unsubscribed n t ∷ es) fs = topics-append es fs
topics-append (disconnected n ∷ es) fs = topics-append es fs

-- A subscription when no call of paho fails.
subscribe-quiet :
    (broker username token : Text) (c : Client)
    → (c' : Client) × (subscribe (λ _. none) broker username token c ≡ (ok tt, c'))
      × (topics c'.log ≡ topics c.log ++ (build_topic token ∷ []))
unfolding subscribe get_client
subscribe-quiet broker username token c =
    by_key (lookup (client_key broker username) c.clients) refl
  where
    by_key :
        (o : Option ℕ)
        → lookup (client_key broker username) c.clients ≡ o
        → (c' : Client) × (subscribe (λ _. none) broker username token c ≡ (ok tt, c'))
          × (topics c'.log ≡ topics c.log ++ (build_topic token ∷ []))
    by_key (some n) e = (
      record c { calls = c.calls + 1; log = c.log ++ (subscribed n (build_topic token) ∷ []) },
      rw e refl,
      topics-append c.log (subscribed n (build_topic token) ∷ []),
    )
    by_key none e =
        let made : List Event = c.log ++ (connected (client_key broker username) c.calls ∷ []) in
        (
          record {
            clients = insert (client_key broker username) c.calls c.clients;
            calls = c.calls + 1 + 1;
            log = made ++ (subscribed c.calls (build_topic token) ∷ []);
          },
          rw e refl,
          topics-append made (subscribed c.calls (build_topic token) ∷ [])
              ∙ ap (λ ts. ts ++ (build_topic token ∷ []))
                  (topics-append c.log (connected (client_key broker username) c.calls ∷ [])
                    ∙ append-nil (topics c.log)),
        )

abbrev pub topics_of : List (ℕ × Text) → List Text
topics_of ds = map (λ d. build_topic d.1) ds

module _ {F P : Type 0} ⦃f : Float64 F⦄ (encoder : Encoder F Client P) where
  -- The encoder with an MQTT client and a database on which no call fails.
  abbrev pub undisturbed : Encoder F Client P
  undisturbed = record encoder { server = quiet encoder.server; mqtt = mqtt_client (λ _. none) }

  subscribe_devices-topics :
      (ds : List (ℕ × Text)) (c : Client)
      → (c' : Client) × (subscribe_devices undisturbed ds c ≡ (ok tt, c'))
        × (topics c'.log ≡ topics c.log ++ topics_of ds)
  unfolding subscribe_devices next_device
  subscribe_devices-topics [] c = (c, refl, sym (append-nil (topics c.log)))
  subscribe_devices-topics ((id, token) ∷ ds) c =
      let (c1, e1, t1) = subscribe-quiet encoder.broker_addr encoder.broker_username token c in
      let (c2, e2, t2) = subscribe_devices-topics ds c1 in
      (
        c2,
        rw e1 e2,
        t2
            ∙ ap (λ ts. ts ++ topics_of ds) t1
            ∙ append_assoc (topics c.log) (build_topic token ∷ []) (topics_of ds),
      )

  started-topics :
      (w : State F Client P) (r : Result (List (ℕ × Text)) × Session F)
      → r.0 ≡ ok (listed encoder.server w.session)
      → let a = started undisturbed w r in
        (a.0 ≡ ok tt)
        × (topics a.1.client.log
            ≡ topics w.client.log ++ topics_of (listed encoder.server w.session))
  unfolding started
  started-topics w (ok ds, s) e =
      let (c, sub, ts) = subscribe_devices-topics ds w.client in
      rw sub (refl, ts ∙ ap (λ xs. topics w.client.log ++ topics_of xs) (ok-injective e))
    where
      ok-injective :
          ok ds ≡ ok (listed encoder.server w.session) → ds ≡ listed encoder.server w.session
      ok-injective h = ground arith
  started-topics w (err x, s) e = ground arith
  started-topics w (panic, s) e = ground arith

  -- With no failing call of the driver or of paho, `start` succeeds and subscribes to the topic of every
  -- device of the database, in the order of the answer, once each, and to no other.
  pub start_lem :
      (w : State F Client P)
      → let a = start undisturbed w in
        (a.0 ≡ ok tt)
        × (topics a.1.client.log
            ≡ topics w.client.log ++ topics_of (listed encoder.server w.session))
  unfolding start
  start_lem w =
      started-topics w (get_devices (quiet encoder.server) w.session)
        (get_devices_lem encoder.server w.session).0
