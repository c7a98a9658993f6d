-- ===== src/Pipeline/Processor.antt =====
-- `Process` of pkg/pipeline/pipeline.go: for every stream of a device, the parsed payload is processed,
-- encrypted and written to the datastore. The logger and the timers are left out; a histogram is
-- the number of its observations.
pub mod Requests
pub mod Serving
mod Tests
use iotencoder.Common.{
  ℕ, ◌+◌, Text, codes, List, [], ◌∷◌, ◌++◌, Option, none, some, Error, Result, ok, err, panic, new,
  wrap, length,
}
use iotencoder.Common.Float.{Float64}
use iotencoder.Postgres.Types.{DeviceRow, Stream, Device as StoredDevice}
use iotencoder.Smartcitizen.Types.{Device, Json}
use iotencoder.Smartcitizen.Metadata.{Table}
use iotencoder.Smartcitizen.Parse.{parse_data}
use iotencoder.Pipeline.Operations.{MovingAverager, process_device}

-- `datastore.WriteRequest`
pub record WriteRequest : Type 0 where
  pub community_id : Text
  pub device_token : Text
  pub payload : Text

-- zenroom, the encryption script that the build generates, and the datastore. An answer may depend on
-- how many calls went before.
pub record Services : Type 0 where
  pub script : Result Text
  pub exec : ℕ → Text → Text → Text → Result Text
  pub write_data : ℕ → WriteRequest → Option Error

-- What `Process` changes: the averager, the processor's metadata, the requests sent so far, and the
-- counters and histograms.
pub record World (S : Type 0) : Type 0 where
  pub averager : S
  pub metadata : Option Table
  pub execs : ℕ
  pub requests : List WriteRequest
  pub zenroom_errors : ℕ
  pub datastore_errors : ℕ
  pub zenroom_observed : ℕ
  pub datastore_observed : ℕ

module _ {F : Type 0} where
  -- `keyString`
  pub key_string : DeviceRow F → Stream F → Text
  key_string row stream =
      codes "{\"device_token\":\""
      ++ (row.device_token
          ++ (codes "\",\"community_id\":\""
              ++ (stream.community_id
                  ++ (codes "\",\"community_pubkey\":\"" ++ (stream.public_key ++ codes "\"}")))))

  abbrev pub request_of : DeviceRow F → Stream F → Text → WriteRequest
  request_of row stream encoded = record {
    community_id = stream.community_id;
    device_token = row.device_token;
    payload = encoded;
  }

module _ {F S : Type 0} ⦃f : Float64 F⦄ (avg : MovingAverager F S) (json : Json F)
    (services : Services) where
  open services use {script, exec, write_data}

  -- The answer of `WriteData`, a nil error being `none`.
  written : World S → WriteRequest → Option Error → Result (Unit {0}) × World S
  written w req none = (
    ok tt,
    record w { requests = w.requests ++ (req ∷ []); datastore_observed = w.datastore_observed + 1 },
  )
  written w req (some e) = (
    err e,
    record w { requests = w.requests ++ (req ∷ []); datastore_errors = w.datastore_errors + 1 },
  )

  send : World S → WriteRequest → Result (Unit {0}) × World S
  unfolding written
  send w req = written w req (write_data (length w.requests) req)

  -- The answer of `zenroom.Exec`.
  encrypted : DeviceRow F → Stream F → World S → Result Text → Result (Unit {0}) × World S
  unfolding send
  encrypted row stream w (ok encoded) =
      send (record w { execs = w.execs + 1; zenroom_observed = w.zenroom_observed + 1 })
        (request_of row stream encoded)
  encrypted row stream w (err e) =
      (err e, record w { execs = w.execs + 1; zenroom_errors = w.zenroom_errors + 1 })
  encrypted row stream w panic = (panic, record w { execs = w.execs + 1 })

  -- The rest of the loop's body, after `processDevice`.
  seal : Text → DeviceRow F → Stream F → World S → Result Text → Result (Unit {0}) × World S
  unfolding encrypted key_string
  seal code row stream w (ok payload) =
      encrypted row stream w (exec w.execs code (key_string row stream) payload)
  seal code row stream w (err e) = (err e, w)
  seal code row stream w panic = (panic, w)

  process_stream :
      Text → DeviceRow F → Stream F → Device F → World S → Result (Unit {0}) × Device F × World S
  unfolding seal
  process_stream code row stream d w =
      let (payload, d', s') = process_device avg json d stream.operations w.averager in
      let (r, w') = seal code row stream (record w { averager = s' }) payload in (r, d', w')

  -- What the loop does with the outcome of its body; `rest` is the rest of the loop.
  next_stream :
      (Device F → World S → Result (Unit {0}) × World S)
      → Result (Unit {0}) × Device F × World S
      → Result (Unit {0}) × World S
  next_stream rest (ok _, d, w) = rest d w
  next_stream rest (err e, d, w) = (err e, w)
  next_stream rest (panic, d, w) = (panic, w)

  -- The loop over the streams. All of them share the parsed device.
  pub process_streams :
      Text → DeviceRow F → List (Stream F) → Device F → World S → Result (Unit {0}) × World S
  unfolding process_stream next_stream
  process_streams code row [] d w = (ok tt, w)
  process_streams code row (stream ∷ streams) d w =
      next_stream (process_streams code row streams) (process_stream code row stream d w)

  -- `Process` from the parsed device on.
  with_device :
      StoredDevice F → World S → Result (Device F) → Result Text → Result (Unit {0}) × World S
  with_device device w (ok d) (ok code) = process_streams code device.row device.streams d w
  with_device device w (ok d) (err e) = (err (wrap e "failed to read zenroom script"), w)
  with_device device w (ok d) panic = (panic, w)
  with_device device w (err e) asset = (err (wrap e "failed to parse SmartCitizen data"), w)
  with_device device w panic asset = (panic, w)

  -- `Process`; a nil payload is `none`.
  pub process : StoredDevice F → Option Text → World S → Result (Unit {0}) × World S
  unfolding with_device
  process device none w = (err (new "empty payload received"), w)
  process device (some payload) w =
      let (parsed, table) = parse_data json device.row payload w.metadata in
      with_device device (record w { metadata = table }) parsed script
