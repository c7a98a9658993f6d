-- ===== src/Rpc/Encoder/Delivery/Written.antt =====
-- From `CreateStream` of pkg/rpc/encoder.go to the datastore: a message of the device is written for the new stream,
-- by `Process` of pkg/pipeline/pipeline.go.
use iotencoder.Common.{
  ◌≡◌, ◌+◌, sym, length-append, refl, ap, ◌∙◌, subst, Text, is_empty, false, List, [], ◌∷◌, ◌++◌,
  length, some, Result, ok,
}
use mathlib.Core.List.{Permᴰ, Memᴰ}
use mathlib.Core.List.Memᴰ
use iotencoder.Common.Float.{Float64, IsIeee}
use iotencoder.Postgres.Types.{DeviceRow, Stream, Device, token_length}
use iotencoder.Postgres.Statements.{find_device}
use iotencoder.Postgres.Rows.Quiet.{AllScan}
use iotencoder.Postgres.Token.{generate_token}
use iotencoder.Postgres.Streams.{Entropy, scan_stream}
use iotencoder.Postgres.Streams.Effects.{IsFresh}
use iotencoder.Postgres.Streams.Created.{rows_of, Parses, read_of}
use iotencoder.Mqtt.{build_topic}
use iotencoder.Smartcitizen.Types.{SensorData, Json}
use iotencoder.Smartcitizen.Metadata.{Table}
use iotencoder.Pipeline.Operations.{MovingAverager}
use iotencoder.Pipeline.Operations.Succeeding.{NoBin, Answering}
use iotencoder.Pipeline.Processor.{WriteRequest, Services, World}
use iotencoder.Pipeline.Processor.Requests.{Progress, Report, process-Report}
use iotencoder.Pipeline.Processor.Serving.{Available, process-ok}
use iotencoder.Rpc.Requests.{CreateRequest}
use iotencoder.Rpc.Requests.Translation.{Generated, requested_stream-located}
use iotencoder.Rpc.Topic.Matches.{AllWord}
use iotencoder.Rpc.Encoder.{Encoder, State, handle_create, handle_callback}
use iotencoder.Rpc.Encoder.Messages.{with_quiet}
use iotencoder.Rpc.Encoder.Parts.{pipeline_processor}
use iotencoder.Rpc.Encoder.Delivery.Sent.{
  SentFor, NoneBin, NoneBin-BinsLast, NoneBin-append, NoneBin-Permᴰ, Unbinned, AllTranslate-NoBin,
  Served-SentFor, length-Permᴰ, Memᴰ-Permᴰ,
}
use iotencoder.Rpc.Encoder.Delivery.{create_then_message}

module _ {F M S : Type 0} ⦃f : Float64 F⦄ (encoder : Encoder F M (World S))
    (avg : MovingAverager F S) (json : Json F) (services : Services) where
  -- The encoder with the processor of the pipeline.
  abbrev pub with_pipeline : Encoder F M (World S)
  with_pipeline = record encoder { processor = pipeline_processor avg json services }

  -- The requests for streams in another order than `ss`, when all were served.
  Report-sent :
      (row : DeviceRow F) (ss ts : List (Stream F)) (w w' : World S) (r : Result (Unit {0}))
      → Permᴰ ss ts
      → r ≡ ok tt
      → Report services row ts w r w'
      → (sent : List WriteRequest) × (w'.requests ≡ w.requests ++ sent)
        × (length sent ≡ length ss)
        × ((s : Stream F) → Memᴰ s ss → SentFor s.community_id row.device_token sent)
  Report-sent row ss ts w w' r p e report =
      let done : Progress (ok tt) (length ts) (length report.sent) report.served =
        subst (λ x. Progress x (length ts) (length report.sent) report.served) e report.progress in
      (
        report.sent,
        report.appended,
        done.0 ∙ sym (length-Permᴰ ss ts p),
        λ s m. Served-SentFor row ts report.sent s report.in_order done.0 (Memᴰ-Permᴰ s ss ts p m),
      )

  module _ (answering : Answering avg json) (available : Available services)
      (law : Parses encoder.server.json) (uuid token : Text) (req : CreateRequest F)
      (olds : List (Stream F)) where
    open encoder use {server, names}

    -- When handle_create has answered a uuid and a token, on a database whose ids stay below its
    -- sequence, for a device whose token is a word that is not empty and whose streams so far can be
    -- read, where neither these nor the request puts a sensor in bins, then a message of the device that
    -- has a data point, with the metadata at hand and with no failing call of the driver, the averager,
    -- the printer, the encryption and the datastore, makes the processor write as many requests as the
    -- device had streams and one more; in whatever order the rows are answered, one of them has the
    -- community and the device token of the creation's request, and for each stream that the device had
    -- one has its community and that device token.
    pub create_then_written :
        (entropy : Entropy) (b : Text × Text) (w : State F M (World S)) (payload : Text)
        (table : Table) (point : SensorData F) (points : List (SensorData F))
        → entropy.new_uuid ≡ ok uuid
        → generate_token entropy.random_bytes token_length ≡ ok token
        → Generated names
        → IsIeee F
        → AllWord req.device_token
        → is_empty req.device_token ≡ false
        → IsFresh w.session.db
        → AllScan
            (scan_stream server)
            (rows_of w.session.db (find_device req.device_token w.session.db.tables.devices))
            olds
        → NoneBin olds
        → Unbinned req.operations
        → (handle_create with_pipeline entropy req w).0 ≡ ok b
        → json.parse_payload payload ≡ ok (point ∷ points)
        → (handle_create with_pipeline entropy req w).1.work.metadata ≡ some table
        → let w' = (handle_create with_pipeline entropy req w).1 in
          (sent : List WriteRequest) × ((handle_callback
              (with_quiet with_pipeline)
              (build_topic req.device_token)
              payload
              w').1.work.requests
            ≡ w'.work.requests ++ sent)
          × (length sent ≡ length olds + 1)
          × SentFor req.community_id req.device_token sent
          × ((s : Stream F) → Memᴰ s olds → SentFor s.community_id req.device_token sent)
    create_then_written entropy b w payload table point points drawn token_drawn generated ieee word
          full fresh scans unbinned request_unbinned e parsed known =
        let w' = (handle_create with_pipeline entropy req w).1 in
        let (stream, row, asked, columns, same, (streams, permuted, hands)) =
          create_then_message with_pipeline law uuid token req payload olds entropy b w drawn
            token_drawn generated ieee word full fresh scans e in
        let (l, os, is, located, all) = requested_stream-located names generated req stream asked in
        let new = read_of server law stream in
        let none_bin = NoneBin-append olds new unbinned (
          subst NoBin (sym (ap (λ (x : Stream F). x.operations) is))
            (AllTranslate-NoBin req.operations os all request_unbinned)) in
        let device : Device F = record { row = row; streams = streams } in
        let succeeds =
          process-ok avg json services answering available device payload table point points w'.work
            parsed known
            (NoneBin-BinsLast streams
              (NoneBin-Permᴰ (olds ++ (new ∷ [])) streams permuted none_bin)) in
        let (sent, wrote, n, each) =
          Report-sent row (olds ++ (new ∷ [])) streams w'.work _ _ permuted succeeds
            (process-Report avg json services device (some payload) w'.work) in
        let to : (s : Stream F)
            → Memᴰ s (olds ++ (new ∷ []))
            → SentFor s.community_id req.device_token sent =
          λ s m. subst (λ t. SentFor s.community_id t sent) same (each s m) in
        (
          sent,
          ap (λ (x : World S). x.requests) hands ∙ wrote,
          n ∙ length-append olds (new ∷ []),
          subst (λ c. SentFor c req.device_token sent) (ap (λ (x : Stream F). x.community_id) is)
              (to new (Memᴰ.append_right olds (Memᴰ.head refl))),
          λ s m. to s (Memᴰ.append_left (new ∷ []) m),
        )
