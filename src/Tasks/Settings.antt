-- ===== src/Tasks/Settings.antt =====
-- Which flags of the server command of pkg/tasks/server.go are taken.
use iotencoder.Common.{
  ◌≡◌, refl, Text, String, is_empty, List, [], ◌∷◌, Option, none, some, new, Result, ok, err,
  if◌then◌else◌,
}
use iotencoder.Server.{Config}
use iotencoder.Tasks.{Flags, required, server_config}

-- The flags that must not be empty, in the order in which they are asked for.
abbrev pub asked : Flags → List (Text × String)
asked flags =
    (flags.addr, "Must provide a bind address")
    ∷ (flags.datastore, "Must provide datastore address")
    ∷ (flags.database_url, "Must provide postgres database url")
    ∷ (flags.encryption_password, "Must provide postgres encryption password")
    ∷ (flags.broker_addr, "Must provide MQTT broker address to which updates are published")
    ∷ (
      flags.broker_username,
      "Must provide MQTT broker username to authenticate access to the broker",
    )
    ∷ []

-- The message of the first that is empty.
unfoldable pub first_empty : List (Text × String) → Option String
first_empty [] = none
first_empty ((value, message) ∷ rest) = if is_empty value then some message else first_empty rest

abbrev pub config_of : Flags → Config
config_of flags = record {
  listen_addr = flags.addr;
  conn_str = flags.database_url;
  encryption_password = flags.encryption_password;
  datastore_addr = flags.datastore;
  verbose = flags.verbose;
  broker_addr = flags.broker_addr;
  broker_username = flags.broker_username;
  domains = flags.domains;
}

unfoldable pub answer_for : {A : Type 0} → A → Option String → Result A
answer_for a none = ok a
answer_for a (some message) = err (new message)

required-first :
    {A : Type 0} (a : A) (value : Text) (message : String) (rest : Result A)
    (others : List (Text × String))
    → rest ≡ answer_for a (first_empty others)
    → required value message rest ≡ answer_for a (first_empty ((value, message) ∷ others))
unfolding required first_empty answer_for
required-first a [] message rest others h = refl
required-first a (c ∷ value) message rest others h = h

-- The server command takes its flags exactly when no required one is empty, and then makes the
-- configuration of them; otherwise it answers the error of the first that is empty, in their order.
pub server_config_lem :
    (flags : Flags) → server_config flags ≡ answer_for (config_of flags) (first_empty (asked flags))
unfolding server_config
server_config_lem flags =
    let c = config_of flags in
    required-first c flags.addr _ _ _ (
      required-first c flags.datastore _ _ _ (
        required-first c flags.database_url _ _ _ (
          required-first c flags.encryption_password _ _ _ (
            required-first c flags.broker_addr _ _ _
              (required-first c flags.broker_username _ (ok c) [] done)))))
  where
    done : ok (config_of flags) ≡ answer_for (config_of flags) (first_empty [])
    done = unfold answer_for in unfold first_empty in refl
