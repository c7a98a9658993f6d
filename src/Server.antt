-- ===== src/Server.antt =====
-- pkg/server/server.go: the parts of the program put together, and their start and stop. The HTTP server
-- and its routes, the certificates manager and the metrics are left out: of the listener the state has
-- whether it serves. While `Start` waits for the interrupt, requests and messages are served one after
-- the other, where net/http and paho serve them concurrently; a listener that fails and a connection
-- that is lost end the process. The loss of a connection before the server waits is left out.
pub mod Ending
pub mod Outcome
pub mod Quiet
pub mod Consistent
mod Tests
use iotencoder.Common.{
  ℕ, Text, String, Bool, true, false, List, [], ◌∷◌, Option, none, some, Error, Result, ok, err,
  panic, wrap, ltb, length,
}
use iotencoder.Common.Float.{Float64}
use iotencoder.Smartcitizen.Types.{Json}
use iotencoder.Postgres.Statements.{Pgp, RowOrder}
use iotencoder.Postgres.Tables.{StreamRow}
use iotencoder.Postgres.Streams.{OperationsJson, Entropy}
use iotencoder.Postgres.Transactor.{Session}
use iotencoder.Postgres.Migrate.{Migrations, as_result, migrate_up}
use iotencoder.Mqtt.{Client, new_client, stop}
use iotencoder.Pipeline.Operations.{MovingAverager}
use iotencoder.Pipeline.Processor.{Services, World}
use iotencoder.Rpc.Requests.{CreateRequest, DeleteRequest, EnumNames}
use iotencoder.Rpc.Encoder.{Encoder, State, start, handle_create, handle_delete, handle_callback}
use iotencoder.Rpc.Encoder.Parts.{mqtt_client, pipeline_processor}

-- `Config`
pub record Config : Type 0 where
  pub listen_addr : Text
  pub conn_str : Text
  pub encryption_password : Text
  pub datastore_addr : Text
  pub verbose : Bool
  pub broker_addr : Text
  pub broker_username : Text
  pub domains : List Text

-- What the parts take from other code.
pub record Libraries (F S : Type 0) : Type 0 where
  pub pgp : Pgp
  pub operations_json : OperationsJson F
  pub driver_faults : ℕ → Option Error
  pub device_order : RowOrder F (ℕ × Text)
  pub stream_order : RowOrder F StreamRow
  pub paho_faults : ℕ → Option Error
  pub averager : MovingAverager F S
  pub json : Json F
  pub services : Services
  pub names : EnumNames

-- The encoder of `NewServer`, with its database, MQTT client and processor.
unfoldable pub new_encoder :
    {F S : Type 0} ⦃f : Float64 F⦄ → Libraries F S → Config → Encoder F Client (World S)
new_encoder libraries config = record {
  server = record {
    password = config.encryption_password;
    pgp = libraries.pgp;
    json = libraries.operations_json;
    faults = libraries.driver_faults;
    device_order = libraries.device_order;
    stream_order = libraries.stream_order;
  };
  names = libraries.names;
  mqtt = mqtt_client libraries.paho_faults;
  processor = pipeline_processor libraries.averager libraries.json libraries.services;
  broker_addr = config.broker_addr;
  broker_username = config.broker_username;
}

-- `isTLSEnabled`
unfoldable pub is_tls_enabled : List Text → Bool
is_tls_enabled domains = ltb 0 (length domains)

-- The answer of `PulseHandler` by that of the database: a text, or `http.Error` with its status.
pub data Response : Type 0 where
  replied : String → Response
  http_error : String → ℕ → Response

unfoldable pub pulse_handler : Option Error → Response
pulse_handler none = replied "ok"
pulse_handler (some e) = http_error "failed to connect to DB" 500

-- The pool of database connections, which is unset until the database is started, and the listener,
-- which serves with or without TLS.
pub data Pool : Type 0 where
  unset : Pool
  pool_open : Pool
  pool_closed : Pool

pub data Listener : Type 0 where
  idle : Listener
  serving : Bool → Listener
  shut : Listener

-- The state of `Server`; `schema` is what the migrations work on.
pub record ServerState (F P V : Type 0) : Type 0 where
  pub pool : Pool
  pub schema : V
  pub state : State F Client P
  pub listener : Listener

-- What happens while the server runs: a request, a message, the return of the listener with its error,
-- if any, and the loss of a connection to the broker.
pub data Request (F : Type 0) : Type 0 where
  creating : Entropy → CreateRequest F → Request F
  deleting : DeleteRequest → Request F
  message : Text → Text → Request F
  listener_returned : Option Error → Request F
  connection_lost : Request F

-- The answers of the calls of other code: `sqlx.Open`, the pool's `Close`, the listener's `Shutdown`.
pub record Platform (V : Type 0) : Type 0 where
  pub open_error : Option Error
  pub close_error : Option Error
  pub shutdown_error : Option Error
  pub migrations : Migrations V
  pub asset_names : List Text

module _ {F P : Type 0} ⦃f : Float64 F⦄ (encoder : Encoder F Client P) where
  -- A panic in a handler of a request ends that request, one in the callback of a message the process;
  -- that the process ends without a return of `Start` is `panic` here, also for an exit.
  unfoldable pub received :
      Result (Unit {0}) × State F Client P → Result (Unit {0}) × State F Client P
  received (ok _, w) = (ok tt, w)
  received (err e, w) = (ok tt, w)
  received (panic, w) = (panic, w)

  -- The goroutine of the listener: an error is `log.Fatalf`. `http.ErrServerClosed`, which it lets pass,
  -- comes only with the shutdown.
  unfoldable pub listener_goroutine :
      Option Error → State F Client P → Result (Unit {0}) × State F Client P
  listener_goroutine none w = (ok tt, w)
  listener_goroutine (some e) w = (panic, w)

  -- `onConnectionLostHandler` of `createClientOptions` in pkg/mqtt/mqtt.go: `os.Exit`.
  abbrev pub connection_lost_handler : State F Client P → Result (Unit {0}) × State F Client P
  connection_lost_handler w = (panic, w)

  unfoldable pub serve : Request F → State F Client P → Result (Unit {0}) × State F Client P
  unfolding received listener_goroutine
  serve (creating entropy req) w = (ok tt, (handle_create encoder entropy req w).1)
  serve (deleting req) w = (ok tt, (handle_delete encoder req w).1)
  serve (message topic payload) w = received (handle_callback encoder topic payload w)
  serve (listener_returned e) w = listener_goroutine e w
  serve connection_lost w = connection_lost_handler w

  unfoldable pub after_request :
      (State F Client P → Result (Unit {0}) × State F Client P)
      → Result (Unit {0}) × State F Client P
      → Result (Unit {0}) × State F Client P
  after_request rest (ok _, w) = rest w
  after_request rest (err e, w) = rest w
  after_request rest (panic, w) = (panic, w)

  unfoldable pub serve_all :
      List (Request F) → State F Client P → Result (Unit {0}) × State F Client P
  unfolding serve after_request
  serve_all [] w = (ok tt, w)
  serve_all (x ∷ xs) w = after_request (serve_all xs) (serve x w)

module _ {F P V : Type 0} (platform : Platform V) where
  open platform use {open_error, close_error, shutdown_error, migrations, asset_names}

  -- `Shutdown`, and the pool's `Close` before it, whose receiver is nil where the pool is unset.
  unfoldable pub shutdown : ServerState F P V → Result (Unit {0}) × ServerState F P V
  shutdown s = (as_result shutdown_error, record s { listener = shut })

  unfoldable pub db_stopped :
      ServerState F P V → Option Error → Result (Unit {0}) × ServerState F P V
  unfolding shutdown
  db_stopped s none = shutdown s
  db_stopped s (some e) = (err e, s)

  unfoldable pub stop_db : ServerState F P V → Pool → Result (Unit {0}) × ServerState F P V
  unfolding db_stopped
  stop_db s unset = (panic, s)
  stop_db s _ = db_stopped (record s { pool = pool_closed }) close_error

  -- `Server.Stop`; the encoder and the MQTT client have no error.
  unfoldable pub stop_server : ServerState F P V → Result (Unit {0}) × ServerState F P V
  unfolding stop_db
  stop_server s =
      stop_db (record s { state = record s.state { client = stop s.state.client } }) s.pool

  module _ ⦃f : Float64 F⦄ (encoder : Encoder F Client P) (domains : List Text)
      (requests : List (Request F)) where
    -- The stages of `Start`, from the last one on: the requests until the interrupt, the encoder's
    -- start, the migrations.
    unfoldable pub waited :
        ServerState F P V
        → Result (Unit {0}) × State F Client P
        → Result (Unit {0}) × ServerState F P V
    unfolding stop_server
    waited s (ok _, w) = stop_server (record s { state = w })
    waited s (err e, w) = stop_server (record s { state = w })
    waited s (panic, w) = (panic, record s { state = w })

    unfoldable pub encoder_started :
        ServerState F P V
        → Result (Unit {0}) × State F Client P
        → Result (Unit {0}) × ServerState F P V
    unfolding waited
    encoder_started s (ok _, w) =
        waited (record s { listener = serving (is_tls_enabled domains) })
          (serve_all encoder requests w)
    encoder_started s (err e, w) = (err (wrap e "failed to start encoder"), record s { state = w })
    encoder_started s (panic, w) = (panic, record s { state = w })

    unfoldable pub migrated :
        ServerState F P V → Result (Unit {0}) × V → Result (Unit {0}) × ServerState F P V
    unfolding encoder_started
    migrated s (ok _, v) = encoder_started (record s { schema = v }) (start encoder s.state)
    migrated s (err e, v) = (err (wrap e "failed to migrate the database"), record s { schema = v })
    migrated s (panic, v) = (panic, record s { schema = v })

    -- `DB.Start`
    unfoldable pub db_started :
        ServerState F P V → Option Error → Result (Unit {0}) × ServerState F P V
    unfolding migrated
    db_started s (some e) =
        (err (wrap (wrap e "opening db connection failed") "failed to start db"), s)
    db_started s none =
        migrated (record s { pool = pool_open }) (migrate_up migrations asset_names s.schema)

    -- `Server.Start`, with the requests that arrive before the interrupt.
    unfoldable pub start_server : ServerState F P V → Result (Unit {0}) × ServerState F P V
    unfolding db_started
    start_server s = db_started s open_error

-- The server that `NewServer` makes, with a new MQTT client and a new processor, whose state is `work`,
-- over the database that there is.
abbrev pub new_server : {F P V : Type 0} → V → Session F → P → ServerState F P V
new_server schema session work = record {
  pool = unset;
  schema = schema;
  state = record { session = session; client = new_client; work = work };
  listener = idle;
}
