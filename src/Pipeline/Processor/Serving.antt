-- ===== src/Pipeline/Processor/Serving.antt =====
-- When `Process` (pkg/pipeline/pipeline.go) serves every stream of a device.
use iotencoder.Common.{
  ℕ, Text, List, [], ◌∷◌, length, Option, none, some, Result, ok, err, panic, arith, ◌≡◌, refl, sym,
  subst,
}
use iotencoder.Common.Float.{Float64}
use iotencoder.Postgres.Types.{DeviceRow, Stream, Operation, Device as StoredDevice}
use iotencoder.Smartcitizen.Types.{RawSensor, SensorData, SensorMetadata, Device, Json}
use iotencoder.Smartcitizen.Metadata.{Table}
use iotencoder.Smartcitizen.Parse.{enriched, enrich, parse_data_sensors}
use iotencoder.Pipeline.Operations.{MovingAverager, process_device}
use iotencoder.Pipeline.Operations.Succeeding.{
  AllValued, NoBin, Answering, Serves, process_device-Serves,
}
use iotencoder.Pipeline.Processor.{
  WriteRequest, Services, World, request_of, key_string, written, send, encrypted, seal,
  process_stream, next_stream, process_streams, with_device, process,
}

module _ {F : Type 0} where
  -- Only the last stream may put a sensor in bins.
  abbrev pub BinsLast : List (Stream F) → Type 0
  BinsLast [] = Unit {0}
  BinsLast (s ∷ []) = Unit {0}
  BinsLast (s ∷ (t ∷ ss)) = NoBin s.operations × BinsLast (t ∷ ss)

  enrich-AllValued : (table : Table) (raws : List (RawSensor F)) → AllValued (enrich table raws)
  unfolding enrich
  enrich-AllValued table [] = tt
  enrich-AllValued table (raw ∷ raws) = by (table raw.id) (enrich-AllValued table raws)
    where
      by :
          (o : Option SensorMetadata)
          → AllValued (enrich table raws)
          → AllValued
              (elim o [ none ↦ enrich table raws | some m ↦ enriched raw m ∷ enrich table raws ])
      by none h = h
      by (some m) h = ((raw.value, refl), h)

-- The script is there, the encryption answers, and the datastore takes every request.
pub record Available (services : Services) : Type 0 where
  pub scripted : (code : Text) × (services.script ≡ ok code)
  pub encrypts :
      (n : ℕ) (code keys payload : Text) → (t : Text) × (services.exec n code keys payload ≡ ok t)
  pub takes : (n : ℕ) (req : WriteRequest) → services.write_data n req ≡ none

module _ {F S : Type 0} ⦃f : Float64 F⦄ (avg : MovingAverager F S) (json : Json F)
    (services : Services) (answering : Answering avg json) (available : Available services) where
  -- A sealed payload is sent, and one more request is.
  seal-ok :
      (code : Text) (row : DeviceRow F) (stream : Stream F) (w : World S) (payload : Text)
      → (seal avg json services code row stream w (ok payload)).0 ≡ ok tt
  unfolding seal encrypted send written
  seal-ok code row stream w payload =
      let (t, e) = available.encrypts w.execs code (key_string row stream) payload in
      rw e (rw (available.takes (length w.requests) (request_of row stream t)) refl)

  abbrev Turn : List (Operation F) → Result (Unit {0}) × Device F × World S → Type 0
  Turn ops (r, d, w) = (r ≡ ok tt) × (NoBin ops → AllValued d.sensors)

  sealed-Turn :
      (code : Text) (row : DeviceRow F) (stream : Stream F) (w : World S)
      (a : Result Text × Device F × S)
      → Serves avg json answering stream.operations a
      → Turn stream.operations (
        (seal avg json services code row stream (record w { averager = a.2 }) a.0).0,
        a.1,
        (seal avg json services code row stream (record w { averager = a.2 }) a.0).1,
      )
  sealed-Turn code row stream w (ok t, d, s) h =
      (seal-ok code row stream (record w { averager = s }) t, h)
  sealed-Turn code row stream w (err e, d, s) h = elim h [ ]
  sealed-Turn code row stream w (panic, d, s) h = elim h [ ]

  process_stream-Turn :
      (code : Text) (row : DeviceRow F) (stream : Stream F) (d : Device F) (w : World S)
      → AllValued d.sensors
      → Turn stream.operations (process_stream avg json services code row stream d w)
  unfolding process_stream
  process_stream-Turn code row stream d w v =
      sealed-Turn code row stream w (process_device avg json d stream.operations w.averager)
        (process_device-Serves avg json answering d stream.operations w.averager v)

  next_stream-ok :
      (rest : Device F → World S → Result (Unit {0}) × World S)
      (a : Result (Unit {0}) × Device F × World S)
      → a.0 ≡ ok tt
      → (rest a.1 a.2).0 ≡ ok tt
      → (next_stream avg json services rest a).0 ≡ ok tt
  unfolding next_stream
  next_stream-ok rest (ok _, d, w) e h = h
  next_stream-ok rest (err x, d, w) e h = ground (arith, e)
  next_stream-ok rest (panic, d, w) e h = ground (arith, e)

  process_streams-ok :
      (code : Text) (row : DeviceRow F) (streams : List (Stream F)) (d : Device F) (w : World S)
      → BinsLast streams
      → AllValued d.sensors
      → (process_streams avg json services code row streams d w).0 ≡ ok tt
  unfolding process_streams
  process_streams-ok code row [] d w b v = refl
  process_streams-ok code row (s ∷ []) d w b v =
      let (served, values) = process_stream-Turn code row s d w v in
      next_stream-ok _ (process_stream avg json services code row s d w) served refl
  process_streams-ok code row (s ∷ (t ∷ ss)) d w (n, b) v =
      let (served, values) = process_stream-Turn code row s d w v in
      next_stream-ok _ (process_stream avg json services code row s d w) served
        (process_streams-ok code row (t ∷ ss) _ _ b (values n))

  with_device-ok :
      (device : StoredDevice F) (w : World S) (d : Device F) (asset : Result Text) (code : Text)
      → asset ≡ ok code
      → BinsLast device.streams
      → AllValued d.sensors
      → (with_device avg json services device w (ok d) asset).0 ≡ ok tt
  unfolding with_device
  with_device-ok device w d (ok c) code e b v =
      process_streams-ok c device.row device.streams d w b v
  with_device-ok device w d (err x) code e b v = ground (arith, e)
  with_device-ok device w d panic code e b v = ground (arith, e)

  -- With the metadata at hand, an averager, an encryption and a datastore that answer, and a payload
  -- with a data point, process succeeds for a device of whose streams none but the last puts a sensor
  -- in bins.
  pub process-ok :
      (device : StoredDevice F) (payload : Text) (table : Table) (point : SensorData F)
      (points : List (SensorData F)) (w : World S)
      → json.parse_payload payload ≡ ok (point ∷ points)
      → w.metadata ≡ some table
      → BinsLast device.streams
      → (process avg json services device (some payload) w).0 ≡ ok tt
  unfolding process
  process-ok device payload table point points w e m b =
      let (d, parsed, same) = parse_data_sensors json device.row payload table point points e in
      let (code, script) = available.scripted in
      rw m (
        rw parsed (
          with_device-ok device (record w { metadata = some table }) d services.script code script b
            (subst AllValued (sym same) (enrich-AllValued table point.sensors))))
