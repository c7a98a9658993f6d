-- ===== src/Server/Quiet.antt =====
-- The start and the stop of pkg/server/server.go when no call of other code fails.
use iotencoder.Common.{◌≡◌, ◌≢◌, refl, arith, List, Text, none, Result, ok, err, panic}
use iotencoder.Common.Float.{Float64}
use iotencoder.Postgres.Streams.RoundTrip.{quiet}
use iotencoder.Postgres.Migrate.{Migrations, as_result, migrate_up}
use iotencoder.Mqtt.{Client, new_client}
use iotencoder.Rpc.Encoder.{Encoder, State, start}
use iotencoder.Rpc.Encoder.Starting.{undisturbed, start_lem}
use iotencoder.Server.{
  Request, serve_all, Platform, ServerState, pool_open, pool_closed, serving, shut, is_tls_enabled,
  new_server, shutdown, db_stopped, stop_db, stop_server, waited, encoder_started, migrated,
  db_started, start_server,
}
use iotencoder.Server.Ending.{AllEnded}
use iotencoder.Server.Outcome.{End-ok, start_server-End}

-- A platform on which nothing fails but what the migrations say.
abbrev pub quiet_platform : {V : Type 0} → Migrations V → List Text → Platform V
quiet_platform migrations asset_names = record {
  open_error = none;
  close_error = none;
  shutdown_error = none;
  migrations = migrations;
  asset_names = asset_names;
}

module _ {F P V : Type 0} ⦃f : Float64 F⦄ (migrations : Migrations V) (asset_names : List Text)
    (encoder : Encoder F Client P) (domains : List Text) (requests : List (Request F)) where
  abbrev platform : Platform V
  platform = quiet_platform migrations asset_names

  abbrev program : Encoder F Client P
  program = undisturbed encoder

  waited-ok :
      (s : ServerState F P V) (r : Result (Unit {0}) × State F Client P)
      → s.pool ≡ pool_open
      → r.0 ≢ panic
      → (waited platform program domains requests s r).0 ≡ ok tt
  unfolding waited stop_server stop_db db_stopped shutdown as_result
  waited-ok s (ok _, w) p n = rw p refl
  waited-ok s (err e, w) p n = rw p refl
  waited-ok s (panic, w) p n = absurd (n refl)

  encoder_started-ok :
      (s : ServerState F P V) (r : Result (Unit {0}) × State F Client P)
      → s.pool ≡ pool_open
      → r.0 ≡ ok tt
      → (serve_all program requests r.1).0 ≢ panic
      → (encoder_started platform program domains requests s r).0 ≡ ok tt
  unfolding encoder_started
  encoder_started-ok s (ok _, w) p e n =
      waited-ok (record s { listener = serving (is_tls_enabled domains) })
        (serve_all program requests w) p n
  encoder_started-ok s (err x, w) p e n = ground (arith, e)
  encoder_started-ok s (panic, w) p e n = ground (arith, e)

  migrated-ok :
      (s : ServerState F P V) (r : Result (Unit {0}) × V)
      → s.pool ≡ pool_open
      → r.0 ≡ ok tt
      → (serve_all program requests (start program s.state).1).0 ≢ panic
      → (migrated platform program domains requests s r).0 ≡ ok tt
  unfolding migrated
  migrated-ok s (ok _, v) p e n =
      encoder_started-ok (record s { schema = v }) (start program s.state) p
        (start_lem encoder s.state).0 n
  migrated-ok s (err x, v) p e n = ground (arith, e)
  migrated-ok s (panic, v) p e n = ground (arith, e)

  -- When no call of the driver, of paho and of the pool and the listener fails, the migrations succeed,
  -- and before the interrupt no message panics, the listener does not fail and no connection is lost,
  -- start_server answers no error: then the pool is closed, the listener is shut, and every MQTT
  -- connection that was made was ended, once. Requests and messages are served one after another.
  pub start_server-ok :
      (schema : V) (w : State F Client P)
      → (migrate_up migrations asset_names schema).0 ≡ ok tt
      → (serve_all program requests (start program (record w { client = new_client })).1).0 ≢ panic
      → let (r, s) =
          start_server platform program domains requests (new_server schema w.session w.work) in
        (r ≡ ok tt)
        × (s.pool ≡ pool_closed)
        × (s.listener ≡ shut)
        × AllEnded (λ _. none) s.state.client
  unfolding start_server db_started
  start_server-ok schema w m n =
      let e =
        migrated-ok (record (new_server schema w.session w.work) { pool = pool_open })
          (migrate_up migrations asset_names schema) refl m n in
      let whole = record encoder { server = quiet encoder.server } in
      let (p, l, h) =
        End-ok platform (λ _. none) whole domains requests w
          (start_server platform program domains requests (new_server schema w.session w.work))
          (start_server-End platform (λ _. none) whole domains requests w schema) e in
      (e, p, l, h)
