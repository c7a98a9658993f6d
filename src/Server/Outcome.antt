-- ===== src/Server/Outcome.antt =====
-- The three ways in which `Start` of pkg/server/server.go ends.
use iotencoder.Common.{
  ℕ, ◌≡◌, ◌≢◌, ◌⊎◌, inl, inr, refl, arith, sym, ap, ◌∙◌, List, [], Text, Option, none, some, Error,
  Result, ok, err, panic,
}
use iotencoder.Common.Float.{Float64}
use iotencoder.Postgres.Migrate.{as_result}
use iotencoder.Mqtt.{Client, new_client}
use iotencoder.Mqtt.Connections.{Consistent, new_client-Consistent}
use iotencoder.Rpc.Encoder.{Encoder, State, start}
use iotencoder.Rpc.Encoder.Subscribing.{start-Good, start-refused}
use iotencoder.Postgres.Migrate.Answering.{migrate_up-no_panic}
use iotencoder.Server.{
  Request, serve_all, Platform, ServerState, new_server, pool_open, pool_closed, idle, serving,
  shut, is_tls_enabled, shutdown, db_stopped, stop_db, stop_server, waited, encoder_started,
  migrated, db_started, start_server,
}
use iotencoder.Server.Ending.{
  AllEnded, stop-AllEnded, over_mqtt, serve_all-Consistent, subscribe-Consistent,
  unsubscribe-Consistent,
}

module _ {F P V : Type 0} ⦃f : Float64 F⦄ (platform : Platform V) (faults : ℕ → Option Error)
    (encoder : Encoder F Client P) (domains : List Text) (requests : List (Request F))
    (w : State F Client P) where
  -- The encoder of the program, and its state before it starts.
  abbrev program : Encoder F Client P
  program = over_mqtt faults encoder

  abbrev fresh : State F Client P
  fresh = record w { client = new_client }

  -- The server stopped: the pool is closed and every connection ended.
  abbrev Stopped : Result (Unit {0}) × ServerState F P V → Type 0
  Stopped (r, s) =
      (s.pool ≡ pool_closed)
      × AllEnded faults s.state.client
      × (((r ≡ ok tt) × (s.listener ≡ shut)) ⊎ ((e : Error) × (r ≡ err e)))

  -- The start failed: it does not serve, no connection was made, and the pool is not closed.
  abbrev Failed : Result (Unit {0}) × ServerState F P V → Type 0
  Failed (r, s) =
      ((e : Error) × (r ≡ err e))
      × (s.pool ≢ pool_closed)
      × (s.listener ≡ idle)
      × (s.state.client.log ≡ [])

  -- The encoder's start panicked, or a message panicked, the listener failed or a connection was lost.
  abbrev Panicked : Result (Unit {0}) × ServerState F P V → Type 0
  Panicked (r, s) =
      (r ≡ panic)
      × (((start program fresh).0 ≡ panic)
          ⊎ ((serve_all program requests (start program fresh).1).0 ≡ panic))

  abbrev pub End : Result (Unit {0}) × ServerState F P V → Type 0
  End a = Stopped a ⊎ (Failed a ⊎ Panicked a)

  pub End-ok :
      (a : Result (Unit {0}) × ServerState F P V)
      → End a
      → a.0 ≡ ok tt
      → (a.1.pool ≡ pool_closed) × (a.1.listener ≡ shut) × AllEnded faults a.1.state.client
  End-ok (r, s) (inl (p, h, inl (o, l))) e = (p, l, h)
  End-ok (r, s) (inl (p, h, inr (x, o))) e = ground (arith, o, e)
  End-ok (r, s) (inr (inl ((x, o), n, l, c))) e = ground (arith, o, e)
  End-ok (r, s) (inr (inr (o, _))) e = ground (arith, o, e)

  db_stopped-Stopped :
      (s : ServerState F P V) (o : Option Error)
      → s.pool ≡ pool_closed
      → AllEnded faults s.state.client
      → Stopped (db_stopped platform s o)
  unfolding db_stopped shutdown
  db_stopped-Stopped s (some e) p h = (p, h, inr (e, refl))
  db_stopped-Stopped s none p h = (p, h, answer platform.shutdown_error)
    where
      answer :
          (o : Option Error)
          → ((as_result o ≡ ok tt) × (shut ≡ shut)) ⊎ ((e : Error) × (as_result o ≡ err e))
      answer none = unfold as_result in inl (refl, refl)
      answer (some e) = unfold as_result in inr (e, refl)

  stop_server-Stopped :
      (s : ServerState F P V)
      → s.pool ≡ pool_open
      → Consistent s.state.client
      → Stopped (stop_server platform s)
  unfolding stop_server stop_db
  stop_server-Stopped s p h =
      rw p (db_stopped-Stopped _ platform.close_error refl (stop-AllEnded faults s.state.client h))

  waited-End :
      (s : ServerState F P V) (r : Result (Unit {0}) × State F Client P)
      → s.pool ≡ pool_open
      → r ≡ serve_all program requests (start program fresh).1
      → Consistent r.1.client
      → End (waited platform program domains requests s r)
  unfolding waited
  waited-End s (ok _, u) p e h = inl (stop_server-Stopped (record s { state = u }) p h)
  waited-End s (err x, u) p e h = inl (stop_server-Stopped (record s { state = u }) p h)
  waited-End s (panic, u) p e h = inr (inr (refl, inr (ap (λ a. a.0) (sym e))))

  encoder_started-End :
      (s : ServerState F P V) (r : Result (Unit {0}) × State F Client P)
      → s.pool ≡ pool_open
      → s.listener ≡ idle
      → start program fresh ≡ r
      → Consistent r.1.client
      → End (encoder_started platform program domains requests s r)
  unfolding encoder_started
  encoder_started-End s (ok _, u) p l e h =
      waited-End (record s { listener = serving (is_tls_enabled domains) })
        (serve_all program requests u) p (ap (λ a. serve_all program requests a.1) (sym e))
        (serve_all-Consistent faults encoder requests u h)
  encoder_started-End s (err x, u) p l e h = inr (
      inl (
        (_, refl),
        (λ q. ground (arith, p, q)),
        l,
        ap (λ c. c.log)
            (sym (ap (λ a. a.1.client) e) ∙ start-refused program fresh x (ap (λ a. a.0) e)),
      ))
  encoder_started-End s (panic, u) p l e h = inr (inr (refl, inl (ap (λ a. a.0) e)))

  migrated-End :
      (s : ServerState F P V) (r : Result (Unit {0}) × V)
      → r.0 ≢ panic
      → s.pool ≡ pool_open
      → s.listener ≡ idle
      → s.state ≡ fresh
      → End (migrated platform program domains requests s r)
  unfolding migrated
  migrated-End s (ok _, v) n p l q = rw q (
      encoder_started-End (record s { schema = v; state = fresh }) (start program fresh) p l refl
        (start-Good program Consistent (subscribe-Consistent faults) (unsubscribe-Consistent faults)
          fresh (new_client-Consistent faults)))
  migrated-End s (err e, v) n p l q =
      inr (inl ((_, refl), (λ c. ground (arith, p, c)), l, ap (λ u. u.client.log) q))
  migrated-End s (panic, v) n p l q = absurd (n refl)

  db_started-End :
      (schema : V) (o : Option Error)
      → End (db_started platform program domains requests (new_server schema w.session w.work) o)
  unfolding db_started
  db_started-End schema none =
      migrated-End (record (new_server schema w.session w.work) { pool = pool_open }) _
        (migrate_up-no_panic platform.migrations platform.asset_names schema) refl refl refl
  db_started-End schema (some e) = inr (inl ((_, refl), (λ c. ground (arith, c)), refl, refl))

  -- Whatever calls of other code answer an error, and whatever happens while the server waits for the
  -- interrupt, with requests and messages served one after another, a run of start_server ends in one
  -- of three ways. It has stopped: the pool is closed, every MQTT connection that was made was ended,
  -- once, and on success the listener is shut. Or it answers an error without having served: no
  -- connection was made, and the pool is not closed. Or the process ended without a return: the
  -- encoder's start panicked, or, while the server waited, the serving of a message panicked, the
  -- listener failed or a connection was lost.
  pub start_server-End :
      (schema : V)
      → End (start_server platform program domains requests (new_server schema w.session w.work))
  unfolding start_server
  start_server-End schema = db_started-End schema platform.open_error
