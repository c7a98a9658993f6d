-- ===== src/Postgres/Tables.antt =====
-- The tables that the migrations in pkg/migrations/sql create. The serial key of a stream is never
-- read and is left out, and so are the time stamps. The sequence of device ids is no part of a
-- transaction and moves on every insert.
use iotencoder.Common.{ℕ, Text, List}
use iotencoder.Postgres.Types.{DeviceRow}

pub record StreamRow : Type 0 where
  pub device_id : ℕ
  pub community_id : Text
  pub public_key : Text
  pub token : Text
  pub operations : Text
  pub uuid : Text

pub record Tables (F : Type 0) : Type 0 where
  pub devices : List (DeviceRow F)
  pub streams : List StreamRow
  pub certificates : List (Text × Text)

pub record Db (F : Type 0) : Type 0 where
  pub tables : Tables F
  pub next_id : ℕ
