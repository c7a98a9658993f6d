-- ===== src/Tasks.antt =====
-- pkg/tasks: what the commands check before they call the other parts, and the attempts of the server
-- command. Of cobra and viper the values of the flags are parameters, of the library backoff how many
-- attempts its policy grants.
pub mod Settings
pub mod Attempts
mod Tests
use iotencoder.Common.{
  ℕ, zero, suc, ◌+◌, ℤ, Text, String, is_empty, Bool, true, false, List, [], ◌∷◌, Option, none,
  some, Error, new, external, Result, ok, err, panic, if◌then◌else◌,
}
use iotencoder.Common.Float.{Float64}
use iotencoder.Postgres.Migrate.{
  Migrations, migrate_up, migrate_down, migrate_down_all, Fs, Outside, new_migration,
}
use iotencoder.Postgres.Transactor.{Session}
use iotencoder.Mqtt.{Client}
use iotencoder.Rpc.Encoder.{Encoder, State}
use iotencoder.Server.{Config, Request, Platform, ServerState, new_server, start_server}

-- What viper answers for the flags of the server command.
pub record Flags : Type 0 where
  pub addr : Text
  pub datastore : Text
  pub database_url : Text
  pub encryption_password : Text
  pub verbose : Bool
  pub broker_addr : Text
  pub broker_username : Text
  pub domains : List Text

-- `if value == "" { return errors.New(message) }`
unfoldable pub required : {A : Type 0} → Text → String → Result A → Result A
required value message rest = if is_empty value then err (new message) else rest

-- The configuration that the server command makes of its flags.
unfoldable pub server_config : Flags → Result Config
unfolding required
server_config flags = required flags.addr "Must provide a bind address" (
    required flags.datastore "Must provide datastore address" (
      required flags.database_url "Must provide postgres database url" (
        required flags.encryption_password "Must provide postgres encryption password" (
          required flags.broker_addr
            "Must provide MQTT broker address to which updates are published"
            (required flags.broker_username
              "Must provide MQTT broker username to authenticate access to the broker"
              (ok (record {
                listen_addr = flags.addr;
                conn_str = flags.database_url;
                encryption_password = flags.encryption_password;
                datastore_addr = flags.datastore;
                verbose = flags.verbose;
                broker_addr = flags.broker_addr;
                broker_username = flags.broker_username;
                domains = flags.domains;
              })))))))

-- `GetFromEnv`, whose error has the name of the variable.
unfoldable pub get_from_env : (String → Text) → String → Result Text
get_from_env getenv key =
    if is_empty (getenv key)
    then err (new "Missing required environment variable")
    else ok (getenv key)

abbrev database_url_key : String
database_url_key = "IOTENCODER_DATABASE_URL"

module _ {V : Type 0} (getenv : String → Text) (open_db : Text → Option Error)
    (migrations : Migrations V) (asset_names : List Text) where
  -- What a command does once the variable is read and the database opened.
  unfoldable pub with_db : (V → Result (Unit {0}) × V) → V → Option Error → Result (Unit {0}) × V
  with_db command v none = command v
  with_db command v (some e) = (err e, v)

  unfoldable pub with_url : (V → Result (Unit {0}) × V) → V → Result Text → Result (Unit {0}) × V
  unfolding with_db
  with_url command v (ok url) = with_db command v (open_db url)
  with_url command v (err e) = (err e, v)
  with_url command v panic = (panic, v)

  -- The command `migrate up`
  unfoldable pub migrate_up_command : V → Result (Unit {0}) × V
  unfolding with_url get_from_env
  migrate_up_command v =
      with_url (migrate_up migrations asset_names) v (get_from_env getenv database_url_key)

  -- The command `migrate down`, with its flags `steps` and `all`
  unfoldable pub migrate_down_command : ℤ → Bool → V → Result (Unit {0}) × V
  unfolding with_url get_from_env
  migrate_down_command steps all v =
      with_url
        (λ u.
          if all
          then migrate_down_all migrations asset_names u
          else migrate_down migrations asset_names steps u)
        v (get_from_env getenv database_url_key)

-- The attempts of the server command: each makes a new server, with a new MQTT client and processor,
-- and a failed one is followed by another as long as the policy of `backoff.Retry` grants one, which
-- then answers its own error. The database and its schema stay from one to the next; the servers that
-- were made are listed.
module _ {F P V : Type 0} ⦃f : Float64 F⦄ (platforms : ℕ → Platform V)
    (encoders : ℕ → Encoder F Client P) (domains : List Text) (requests : ℕ → List (Request F))
    (work : P) (exhausted : Error) where
  unfoldable pub attempted :
      (V → Session F → Result (Unit {0}) × List (ServerState F P V))
      → Result (Unit {0}) × ServerState F P V
      → Result (Unit {0}) × List (ServerState F P V)
  attempted again (ok _, s) = (ok tt, s ∷ [])
  attempted again (err e, s) = let (r, ss) = again s.schema s.state.session in (r, s ∷ ss)
  attempted again (panic, s) = (panic, s ∷ [])

  -- `grants` attempts, of which this one is the `k`-th.
  unfoldable pub retry : ℕ → ℕ → V → Session F → Result (Unit {0}) × List (ServerState F P V)
  unfolding attempted
  retry zero k schema session = (err exhausted, [])
  retry (suc grants) k schema session = attempted (retry grants (k + 1)) (
      start_server (platforms k) (encoders k) domains (requests k) (new_server schema session work))
