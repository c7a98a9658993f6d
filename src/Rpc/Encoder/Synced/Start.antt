-- ===== src/Rpc/Encoder/Synced/Start.antt =====
-- `Start` of pkg/rpc/encoder.go with a new client of pkg/mqtt/mqtt.go subscribes to the devices of the database.
use iotencoder.Common.{
  ℕ, ◌≡◌, refl, sym, ap, ◌∙◌, subst, Text, text_eq, Bool, false, ◌||◌, List, [], ◌∷◌, map, none,
  Result, ok, err, panic, arith, text_eq_refl,
}
use mathlib.Core.List.{Permᴰ}
use iotencoder.Common.Float.{Float64}
use iotencoder.Common.Dict.{lookup}
use iotencoder.Postgres.Types.{DeviceRow}
use iotencoder.Postgres.Transactor.{Session}
use iotencoder.Postgres.Streams.{get_devices}
use iotencoder.Postgres.Streams.RoundTrip.{quiet}
use iotencoder.Postgres.Streams.Reading.{listed, get_devices_lem}
use iotencoder.Postgres.Streams.Schema.{IsConsistent}
use iotencoder.Postgres.Streams.Histories.{after, after-IsConsistent, listing}
use iotencoder.Postgres.Streams.Tokens.{has_token}
use iotencoder.Mqtt.{Client, new_client, subscribe}
use iotencoder.Mqtt.Topics.{live, live_on, Tracks}
use iotencoder.Mqtt.Topics.Calls.{subscribe-live, new_client-Tracks}
use iotencoder.Rpc.Encoder.{Encoder, State, next_device, subscribe_devices, started, start}
use iotencoder.Rpc.Encoder.Starting.{undisturbed}
use iotencoder.Rpc.Encoder.Storing.{start-Stored}
use iotencoder.Rpc.Encoder.Synced.{broker_key, InStep}

module _ {F P : Type 0} ⦃f : Float64 F⦄ (encoder : Encoder F Client P) where
  open encoder use {server, broker_addr, broker_username}

  -- Whether a token is among the devices that are listed.
  lists : Text → List (ℕ × Text) → Bool
  lists token [] = false
  lists token ((id, t) ∷ ds) = text_eq t token || lists token ds

  lists-devices :
      (token : Text) (ds : List (DeviceRow F))
      → lists token (map (λ d. (d.id, d.device_token)) ds) ≡ has_token token ds
  unfolding lists has_token
  lists-devices token [] = refl
  lists-devices token (d ∷ ds) =
      ap (λ b. text_eq d.device_token token || b) (lists-devices token ds)

  lists-Permᴰ :
      (token : Text) (ds es : List (ℕ × Text)) → Permᴰ ds es → lists token ds ≡ lists token es
  unfolding lists
  lists-Permᴰ token _ _ Permᴰ.nil = refl
  lists-Permᴰ token _ _ (Permᴰ.cons {l₁ = ds} {l₂ = es} e p) =
      rw e (ground (arith, lists-Permᴰ token ds es p))
  lists-Permᴰ token _ _ (Permᴰ.swap e1 e2) = rw (e1, e2) (ground arith)
  lists-Permᴰ token _ _ (Permᴰ.trans {l₁ = ds} {l₂ = es} {l₃ = gs} p q) =
      lists-Permᴰ token ds es p ∙ lists-Permᴰ token es gs q

  listed-lists :
      (w : State F Client P) (token : Text)
      → lists token (listed server w.session)
        ≡ lists token (map (λ d. (d.id, d.device_token)) w.session.db.tables.devices)
  listed-lists w token = sym (
      lists-Permᴰ token (map (λ d. (d.id, d.device_token)) w.session.db.tables.devices)
        (listed server w.session) (server.device_order.permutes w.session.db _))

  next_device-ok :
      (k : Client → Result (Unit {0}) × Client) (r : Result (Unit {0}) × Client)
      → r.0 ≡ ok tt
      → next_device (undisturbed encoder) k r ≡ k r.1
  unfolding next_device
  next_device-ok k (ok _, m) e = refl
  next_device-ok k (err x, m) e = ground arith
  next_device-ok k (panic, m) e = ground arith

  -- The subscriptions of a start.
  Subscribed : List (ℕ × Text) → Client → Client → Type 0
  Subscribed ds c c' =
      Tracks c'
      × ((token : Text)
          → live (broker_key encoder) token c'
            ≡ (lists token ds || live (broker_key encoder) token c))

  subscribe_devices-Subscribed :
      (ds : List (ℕ × Text)) (c : Client)
      → Tracks c
      → Subscribed ds c (subscribe_devices (undisturbed encoder) ds c).1
  unfolding subscribe_devices lists Subscribed
  subscribe_devices-Subscribed [] c h = (h, λ token. refl)
  subscribe_devices-Subscribed ((id, t) ∷ ds) c h =
      let (answers, tracks, now) = subscribe-live broker_addr broker_username t c h in
      let r = subscribe (λ _. none) broker_addr broker_username t c in
      let (tracks', now') = subscribe_devices-Subscribed ds r.1 tracks in
      subst (λ x. Subscribed ((id, t) ∷ ds) c x.1)
        (sym (next_device-ok (subscribe_devices (undisturbed encoder) ds) r answers))
        (
          tracks',
          λ token.
              now' token
              ∙ ground (arith, now (broker_key encoder) token, text_eq_refl (broker_key encoder)),
        )

  started-Subscribed :
      (w : State F Client P) (r : Result (List (ℕ × Text)) × Session F) (ds : List (ℕ × Text))
      → r.0 ≡ ok ds
      → Tracks w.client
      → Subscribed ds w.client (started (undisturbed encoder) w r).1.client
  unfolding started
  started-Subscribed w (ok ds', s) ds e h =
      subst (λ x. Subscribed x w.client (subscribe_devices (undisturbed encoder) ds' w.client).1)
        (ground arith) (subscribe_devices-Subscribed ds' w.client h)
  started-Subscribed w (err x, s) ds e h = ground arith
  started-Subscribed w (panic, s) ds e h = ground arith

  new_client-live : (token : Text) → live (broker_key encoder) token new_client ≡ false
  unfolding live live_on lookup
  new_client-live token = refl

  -- A start from a new client, with no failing call, subscribes to the devices of the table.
  pub start-InStep :
      (w : State F Client P)
      → w.client ≡ new_client
      → IsConsistent w.session.db
      → InStep encoder (start (undisturbed encoder) w).1
  unfolding start Subscribed after
  start-InStep w new c =
      let answers = get_devices_lem server w.session in
      let devices = w.session.db.tables.devices in
      let (tracks, now) =
        started-Subscribed w (get_devices (quiet server) w.session) (listed server w.session)
          answers.0 (rw new new_client-Tracks) in
      record {
        consistent =
            start-Stored (undisturbed encoder) (λ s. IsConsistent s.db) w
              (after-IsConsistent (quiet server) listing w.session c);
        tracks = tracks;
        synced = λ token.
            now token
            ∙ ground (
              arith,
              listed-lists w token,
              lists-devices token devices,
              new,
              new_client-live token,
            )
            ∙ sym (
                start-Stored (undisturbed encoder)
                  (λ s. has_token token s.db.tables.devices ≡ has_token token devices) w
                  (ap (λ db. has_token token db.tables.devices) answers.1));
      }
