-- ===== src/Lib.antt =====
-- The IoT encoder: streams of a device's sensors are registered over RPC and kept in Postgres, and every
-- payload that the device publishes over MQTT is parsed, processed as each stream's operations say,
-- encrypted and written to the datastore.
--
-- Parts, and the files that model them:
--  * Pipeline/Processor: `Process` of pkg/pipeline/pipeline.go, from a payload to the datastore.
--  * Pipeline/Operations: `processDevice`, a stream's operations on the shared parsed device.
--  * Pipeline/Binning: `BinValue`.
--  * Pipeline/MovingAverage: pkg/pipeline/moving_averager.go.
--  * Smartcitizen: pkg/smartcitizen, the payload and the sensors' metadata.
--  * Postgres/Types, Tables, Statements: the data of pkg/postgres/postgres.go, the tables of
--    pkg/migrations/sql, and the SQL statements as functions on the tables.
--  * Postgres/Transactor, Rows: pkg/postgres/transactor.go, with the rollback on the first error and the
--    deferred commit.
--  * Postgres/Streams: `CreateStream`, `DeleteStream`, `GetDevices` and `GetDevice`; Streams/Schema has what
--    the keys and the unique indexes say of the tables.
--  * Postgres/Certificates: `Get`, `Put` and `Delete`, the cache of certificates.
--  * Postgres/Migrate: pkg/postgres/migrate.go, the runs of the migrations and the files of a new one.
--  * Postgres/Monitoring: `Ping`, a tick of `recordMetrics`, and `Scan`.
--  * Postgres/Token: pkg/postgres/token.go.
--  * Mqtt: pkg/mqtt/mqtt.go, the connections to brokers, each method as one step; Mqtt/Threads has
--    `getClient` as the steps that other goroutines can come between, and their interleavings.
--  * Rpc/Requests, Rpc/Topic, Rpc/Encoder: pkg/rpc/encoder.go, the validation and conversion of
--    requests, the topics' device tokens, and the handlers on top of the database, the MQTT client and
--    the processor; Rpc/Encoder/Race has `DeleteStream` as the two steps that others can come between.
--  * Server: pkg/server/server.go, the parts put together, started, and stopped on the interrupt.
--  * Tasks: pkg/tasks, the configuration, the attempts of the server command and the migrate commands.
--  * Mocks: pkg/mocks/mqtt.go and pkg/mocks/processor.go, the doubles that tests use.
--  * Clock: pkg/clock/mock.go, and the version string.
--  * Common: texts as lists of character codes, results of fallible calls, association lists for maps,
--    integers, floats as an interface with the laws of IEEE 754, and decimal printing.
--
-- Function names are those of the code in snake case. Stateful code passes its state explicitly, and
-- a call ends with a value, an error value or a panic (Common/Outcome). A loop is structural
-- recursion over the list that it ranges over, so no fuel is needed; the attempts of the server
-- command are as many as the policy of the library grants. A `float64` is an abstract type with its
-- operations; an `int` that the code only counts with or compares is a natural number or an integer
-- without a bound, and no sum of such values in the code comes near 2 ^ 63.
--
-- Code outside the repository is a parameter: the driver (the error of its n-th call, if any),
-- pgcrypto, encoding/json at the types that are read and written, zenroom, the datastore client,
-- crypto/rand, golang-migrate, the calls of os, the values of flags, the paho library (the error of
-- its n-th call, if any) and the names of the generated enumerations.
--
-- A SELECT without ORDER BY answers its rows in an order that is a parameter, some permutation of them
-- for each state of the database. Taken of the driver and the server: a commit that answers an error
-- has committed nothing, and the sequence of ids answers a new one for every insertion. A uuid is
-- compared as the text that the code drew; Postgres also takes other spellings of it. The server serves
-- requests and messages one after another, where net/http and paho serve them at the same time; what
-- that adds is given apart for `DeleteStream` (Rpc/Encoder/Race), `getClient` (Mqtt/Threads) and the
-- averager (Pipeline/MovingAverage/Race). The ends of the process by `log.Fatalf` of the listener and by
-- `os.Exit` on a lost connection are events while the server waits for the interrupt; a connection lost
-- earlier, during the start, is left out.
--
-- Not modelled: locks other than those of `getClient` and `MovingAverage` (a transaction is one
-- step), logging, timers, Sentry, the HTTP server and its routes, autocert, the declarations of the
-- command line, the assets that go-bindata generates, and the tools under _tools, which are copies of
-- other projects.
pub mod Clock
pub mod Common
pub mod Mocks
pub mod Mqtt
pub mod Pipeline
pub mod Postgres
pub mod Rpc
pub mod Server
pub mod Smartcitizen
pub mod Tasks
