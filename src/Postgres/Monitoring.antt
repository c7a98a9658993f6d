-- ===== src/Postgres/Monitoring.antt =====
-- What pkg/postgres/postgres.go reads of the database to watch it: `Ping`, and a tick of `recordMetrics`, whose
-- errors are only logged; and `Scan`, by which the driver hands over the operations of a row.
use iotencoder.Common.{
  ℕ, ◌+◌, Text, List, length, Option, none, some, Error, new, wrap_err, Result, err,
}
use iotencoder.Postgres.Types.{Operation}
use iotencoder.Postgres.Transactor.{Session}
use iotencoder.Postgres.Migrate.{as_result}
use iotencoder.Postgres.Streams.{OperationsJson}

module _ {F : Type 0} (faults : ℕ → Option Error) where
  -- `Ping`
  unfoldable pub ping : Session F → Result (Unit {0}) × Session F
  unfolding as_result
  ping s = (as_result (faults s.calls), record s { calls = s.calls + 1 })

  -- The gauge after one tick: the number of streams, if it can be counted.
  unfoldable pub counted : ℕ → Session F → Option Error → ℕ
  counted gauge s none = length s.db.tables.streams
  counted gauge s (some e) = gauge

  -- The body of the loop of `recordMetrics`
  unfoldable pub record_metrics : ℕ → Session F → ℕ × Session F
  unfolding counted
  record_metrics gauge s = (counted gauge s (faults s.calls), record s { calls = s.calls + 1 })

-- What the driver hands to `Scan`: bytes, or a value of another type.
pub data Source : Type 0 where
  bytes : Text → Source
  other : Source

-- `Operations.Scan`, whose receiver is not nil
unfoldable pub scan : {F : Type 0} → OperationsJson F → Source → Result (List (Operation F))
scan json (bytes text) =
    wrap_err "failed to unmarshal bytes into Operations" (json.parse_operations text)
scan json other = err (new "Value read from database cannot be typecast to a byte slice")
