-- ===== src/Postgres/Types.antt =====
-- The data types of pkg/postgres/postgres.go. An `Action` is its string. A `Stream` points to a device
-- only on its way into the database, and such a device lists no streams, so the columns of a device
-- are a record of their own.
use iotencoder.Common.{ℕ, Text, codes, List, Option}

abbrev pub Action : Type 0
Action = Text

abbrev pub share : Action
share = codes "SHARE"

abbrev pub bin : Action
bin = codes "BIN"

abbrev pub moving_average_action : Action
moving_average_action = codes "MOVING_AVG"

-- `TokenLength`
abbrev pub token_length : ℕ
token_length = 24

pub record Operation (F : Type 0) : Type 0 where
  pub sensor_id : ℕ
  pub action : Action
  pub bins : List F
  pub interval : ℕ

pub record DeviceRow (F : Type 0) : Type 0 where
  pub id : ℕ
  pub device_token : Text
  pub label : Text
  pub longitude : F
  pub latitude : F
  pub exposure : Text

pub record Stream (F : Type 0) : Type 0 where
  pub community_id : Text
  pub public_key : Text
  pub operations : List (Operation F)
  pub stream_id : Text
  pub token : Text
  pub device : Option (DeviceRow F)

pub record Device (F : Type 0) : Type 0 where
  pub row : DeviceRow F
  pub streams : List (Stream F)
