-- ===== src/Server/Consistent.antt =====
-- The database over a whole run of the server (pkg/server/server.go).
use iotencoder.Common.{
  ◌≡◌, refl, Text, List, [], ◌∷◌, Option, none, some, Error, Result, ok, err, panic,
}
use iotencoder.Common.Float.{Float64}
use iotencoder.Postgres.Transactor.{Session}
use iotencoder.Postgres.Migrate.{migrate_up}
use iotencoder.Postgres.Streams.Schema.{IsConsistent}
use iotencoder.Postgres.Streams.Histories.{after, after-IsConsistent, listing, reading}
use iotencoder.Postgres.Streams.Histories
use iotencoder.Mqtt.{Client, stop}
use iotencoder.Rpc.Encoder.{Encoder, State, handle_callback, start}
use iotencoder.Rpc.Encoder.Storing.{
  handle_create-Stored, handle_delete-Stored, handle_callback-Stored, start-Stored,
}
use iotencoder.Server.{
  Request, creating, deleting, message, listener_returned, connection_lost, Platform, ServerState,
  Pool, unset, pool_open, pool_closed, serving, is_tls_enabled, received, serve, after_request,
  serve_all, shutdown, db_stopped, stop_db, stop_server, waited, encoder_started, migrated,
  db_started, start_server,
}

module _ {F P : Type 0} ⦃f : Float64 F⦄ (encoder : Encoder F Client P) where
  open encoder use {server}

  abbrev Sound : Session F → Type 0
  Sound s = IsConsistent s.db

  received-Sound :
      (r : Result (Unit {0}) × State F Client P)
      → Sound r.1.session
      → Sound (received encoder r).1.session
  unfolding received
  received-Sound (ok _, w) h = h
  received-Sound (err e, w) h = h
  received-Sound (panic, w) h = h

  serve-Sound :
      (x : Request F) (w : State F Client P) → Sound w.session → Sound (serve encoder x w).1.session
  unfolding serve after
  serve-Sound (creating entropy req) w h =
      handle_create-Stored encoder Sound entropy req w
        (λ stream. after-IsConsistent server (Histories.creating entropy stream) w.session h) h
  serve-Sound (deleting req) w h =
      handle_delete-Stored encoder Sound req w
        (λ stream. after-IsConsistent server (Histories.deleting stream) w.session h) h
  serve-Sound (message topic payload) w h =
      received-Sound (handle_callback encoder topic payload w) (
        handle_callback-Stored encoder Sound topic payload w
          (λ token. after-IsConsistent server (reading token) w.session h) h)
  serve-Sound (listener_returned none) w h = h
  serve-Sound (listener_returned (some e)) w h = h
  serve-Sound connection_lost w h = h

  after_request-Sound :
      (rest : State F Client P → Result (Unit {0}) × State F Client P)
      (r : Result (Unit {0}) × State F Client P)
      → ((w : State F Client P) → Sound w.session → Sound (rest w).1.session)
      → Sound r.1.session
      → Sound (after_request encoder rest r).1.session
  unfolding after_request
  after_request-Sound rest (ok _, w) k h = k w h
  after_request-Sound rest (err e, w) k h = k w h
  after_request-Sound rest (panic, w) k h = h

  serve_all-Sound :
      (xs : List (Request F)) (w : State F Client P)
      → Sound w.session
      → Sound (serve_all encoder xs w).1.session
  unfolding serve_all
  serve_all-Sound [] w h = h
  serve_all-Sound (x ∷ xs) w h =
      after_request-Sound (serve_all encoder xs) (serve encoder x w) (serve_all-Sound xs)
        (serve-Sound x w h)

  module _ {V : Type 0} (platform : Platform V) where
    open platform use {open_error, close_error, migrations, asset_names}

    db_stopped-session :
        (s : ServerState F P V) (o : Option Error)
        → (db_stopped platform s o).1.state.session ≡ s.state.session
    unfolding db_stopped shutdown
    db_stopped-session s none = refl
    db_stopped-session s (some e) = refl

    stop_db-session :
        (s : ServerState F P V) (p : Pool)
        → (stop_db platform s p).1.state.session ≡ s.state.session
    unfolding stop_db
    stop_db-session s unset = refl
    stop_db-session s pool_open = db_stopped-session (record s { pool = pool_closed }) close_error
    stop_db-session s pool_closed = db_stopped-session (record s { pool = pool_closed }) close_error

    stop_server-session :
        (s : ServerState F P V) → (stop_server platform s).1.state.session ≡ s.state.session
    unfolding stop_server
    stop_server-session s =
        stop_db-session (record s { state = record s.state { client = stop s.state.client } })
          s.pool

    module _ (domains : List Text) (requests : List (Request F)) where
      waited-Sound :
          (s : ServerState F P V) (r : Result (Unit {0}) × State F Client P)
          → Sound r.1.session
          → Sound (waited platform encoder domains requests s r).1.state.session
      unfolding waited
      waited-Sound s (ok _, w) h = rw (stop_server-session (record s { state = w })) h
      waited-Sound s (err e, w) h = rw (stop_server-session (record s { state = w })) h
      waited-Sound s (panic, w) h = h

      encoder_started-Sound :
          (s : ServerState F P V) (r : Result (Unit {0}) × State F Client P)
          → Sound r.1.session
          → Sound (encoder_started platform encoder domains requests s r).1.state.session
      unfolding encoder_started
      encoder_started-Sound s (ok _, w) h =
          waited-Sound (record s { listener = serving (is_tls_enabled domains) })
            (serve_all encoder requests w) (serve_all-Sound requests w h)
      encoder_started-Sound s (err e, w) h = h
      encoder_started-Sound s (panic, w) h = h

      migrated-Sound :
          (s : ServerState F P V) (r : Result (Unit {0}) × V)
          → Sound s.state.session
          → Sound (migrated platform encoder domains requests s r).1.state.session
      unfolding migrated after
      migrated-Sound s (ok _, v) h =
          encoder_started-Sound (record s { schema = v }) (start encoder s.state)
            (start-Stored encoder Sound s.state
              (after-IsConsistent server listing s.state.session h))
      migrated-Sound s (err e, v) h = h
      migrated-Sound s (panic, v) h = h

      db_started-Sound :
          (s : ServerState F P V) (o : Option Error)
          → Sound s.state.session
          → Sound (db_started platform encoder domains requests s o).1.state.session
      unfolding db_started
      db_started-Sound s (some e) h = h
      db_started-Sound s none h =
          migrated-Sound (record s { pool = pool_open })
            (migrate_up migrations asset_names s.schema) h

      -- However a run of the server ends, whatever requests and messages arrive in it and whatever calls
      -- of other code fail, randomness and panics of messages included: a database that was consistent
      -- before the run is consistent after it.
      pub start_server-IsConsistent :
          (s : ServerState F P V)
          → IsConsistent s.state.session.db
          → IsConsistent (start_server platform encoder domains requests s).1.state.session.db
      unfolding start_server
      start_server-IsConsistent s h = db_started-Sound s open_error h
