-- ===== src/Pipeline/Processor/Requests.antt =====
-- The requests that `Process` (pkg/pipeline/pipeline.go) sends to the datastore: one for each stream in
-- their order, up to the first failure.
use iotencoder.Common.{
  ℕ, zero, suc, subst, length-append, ◌+◌, ◌≤◌, ◌≡◌, refl, Text, List, [], ◌∷◌, ◌++◌, length,
  Option, none, some, Result, ok, err, panic, Error, ◌⊎◌, inl, inr, arith, ap, sym, ◌∙◌,
}
use mathlib.Core.List.{append_assoc, append-nil}
use iotencoder.Common.Float.{Float64}
use iotencoder.Postgres.Types.{DeviceRow, Stream, Device as StoredDevice}
use iotencoder.Smartcitizen.Types.{Device, Json}
use iotencoder.Smartcitizen.Parse.{parse_data}
use iotencoder.Pipeline.Operations.{MovingAverager, process_device}
use iotencoder.Pipeline.Processor.{
  WriteRequest, Services, World, request_of, key_string, written, send, encrypted, seal,
  process_stream, next_stream, process_streams, with_device, process,
}

module _ {F : Type 0} where
  -- The requests are for the first streams, in their order.
  abbrev pub Served : DeviceRow F → List (Stream F) → List WriteRequest → Type 0
  Served row [] [] = Unit {0}
  Served row [] (q ∷ qs) = ⊥
  Served row (s ∷ ss) [] = Unit {0}
  Served row (s ∷ ss) (q ∷ qs) =
      (q.community_id ≡ s.community_id) × (q.device_token ≡ row.device_token) × Served row ss qs

module _ {F : Type 0} where
  Served-nil : (row : DeviceRow F) (streams : List (Stream F)) → Served row streams []
  Served-nil row [] = tt
  Served-nil row (s ∷ ss) = tt

-- `k` streams are served: all of them, or those before the one that failed.
abbrev pub Progress : Result (Unit {0}) → ℕ → ℕ → ℕ → Type 0
Progress (ok _) streams requests k = (requests ≡ streams) × (k ≡ streams)
Progress _ streams requests k = (k ≤ streams) × (k ≤ requests) × (requests ≤ k + 1)

-- What the datastore answered to the requests, from its `n`th call on: it took the first `k`; one more,
-- if it was sent, was refused with the error that the outcome is.
abbrev pub Answers : Services → Result (Unit {0}) → ℕ → List WriteRequest → ℕ → Type 0
Answers services r n [] zero = Unit {0}
Answers services r n [] (suc k) = ⊥
Answers services r n (q ∷ qs) zero =
    (qs ≡ []) × (e : Error) × (services.write_data n q ≡ some e) × (r ≡ err e)
Answers services r n (q ∷ qs) (suc k) =
    (services.write_data n q ≡ none) × Answers services r (n + 1) qs k

module _ {F S : Type 0} (services : Services) where
  open services use {write_data}

  -- What a stream's turn does to the world: on success one more request, for the stream, which the
  -- datastore took; on failure at most that request, whose error is the outcome.
  abbrev Failed : DeviceRow F → Stream F → World S → Result (Unit {0}) → World S → Type 0
  Failed row stream w r w' =
      ((w'.requests ≡ w.requests)
        ⊎ ((p : Text) × (w'.requests ≡ w.requests ++ (request_of row stream p ∷ []))
            × ((e : Error) × (write_data (length w.requests) (request_of row stream p) ≡ some e)
                × (r ≡ err e))))
      × (w'.datastore_observed ≡ w.datastore_observed)

  abbrev Turn : DeviceRow F → Stream F → World S → Result (Unit {0}) → World S → Type 0
  Turn row stream w (ok _) w' =
      (p : Text) × (w'.requests ≡ w.requests ++ (request_of row stream p ∷ []))
      × (write_data (length w.requests) (request_of row stream p) ≡ none)
      × (w'.datastore_observed ≡ w.datastore_observed + 1)
  Turn row stream w (err e) w' = Failed row stream w (err e) w'
  Turn row stream w panic w' = Failed row stream w panic w'

  pub record Report (row : DeviceRow F) (streams : List (Stream F)) (w : World S)
      (r : Result (Unit {0})) (w' : World S) : Type 0 where
    pub sent : List WriteRequest
    pub served : ℕ
    pub appended : w'.requests ≡ w.requests ++ sent
    pub in_order : Served row streams sent
    pub answers : Answers services r (length w.requests) sent served
    pub observed : w'.datastore_observed ≡ w.datastore_observed + served
    pub progress : Progress r (length streams) (length sent) served

module _ {F S : Type 0} ⦃f : Float64 F⦄ (avg : MovingAverager F S) (json : Json F)
    (services : Services) where
  open services use {script, exec, write_data}

  written-Turn :
      (row : DeviceRow F) (stream : Stream F) (w : World S) (p : Text) (o : Option Error)
      → write_data (length w.requests) (request_of row stream p) ≡ o
      → let a = written avg json services w (request_of row stream p) o in
        Turn services row stream w a.0 a.1
  unfolding written
  written-Turn row stream w p none h = (p, refl, h, refl)
  written-Turn row stream w p (some e) h = (inr (p, refl, (e, h, refl)), refl)

  encrypted-Turn :
      (row : DeviceRow F) (stream : Stream F) (w : World S) (r : Result Text)
      → let a = encrypted avg json services row stream w r in Turn services row stream w a.0 a.1
  unfolding encrypted send
  encrypted-Turn row stream w (ok p) =
      written-Turn row stream
        (record w { execs = w.execs + 1; zenroom_observed = w.zenroom_observed + 1 }) p
        (write_data (length w.requests) (request_of row stream p)) refl
  encrypted-Turn row stream w (err e) = (inl refl, refl)
  encrypted-Turn row stream w panic = (inl refl, refl)

  seal-Turn :
      (code : Text) (row : DeviceRow F) (stream : Stream F) (w : World S) (r : Result Text)
      → let a = seal avg json services code row stream w r in Turn services row stream w a.0 a.1
  unfolding seal
  seal-Turn code row stream w (ok p) =
      encrypted-Turn row stream w (exec w.execs code (key_string row stream) p)
  seal-Turn code row stream w (err e) = (inl refl, refl)
  seal-Turn code row stream w panic = (inl refl, refl)

  process_stream-Turn :
      (code : Text) (row : DeviceRow F) (stream : Stream F) (d : Device F) (w : World S)
      → let (r, d', w') = process_stream avg json services code row stream d w in
        Turn services row stream w r w'
  unfolding process_stream
  process_stream-Turn code row stream d w =
      let (payload, d', s') = process_device avg json d stream.operations w.averager in
      seal-Turn code row stream (record w { averager = s' }) payload

  Report-next :
      (row : DeviceRow F) (stream : Stream F) (streams : List (Stream F)) (w w1 w2 : World S)
      (r : Result (Unit {0}))
      → Turn services row stream w (ok tt) w1
      → Report services row streams w1 r w2
      → Report services row (stream ∷ streams) w r w2
  Report-next row stream streams w w1 w2 r (p, e, took, o) rep = record {
    sent = request_of row stream p ∷ rep.sent;
    served = suc rep.served;
    appended =
        rep.appended
        ∙ ap (λ qs. qs ++ rep.sent) e
        ∙ append_assoc w.requests (request_of row stream p ∷ []) rep.sent;
    in_order = (refl, refl, rep.in_order);
    answers = (
      took,
      subst (λ n. Answers services r n rep.sent rep.served)
          (ap length e ∙ length-append w.requests (request_of row stream p ∷ [])) rep.answers,
    );
    observed = omega (arith, rep.observed, o);
    progress = Progress-next r rep.progress;
  }
    where
      Progress-next :
          (a : Result (Unit {0}))
          → Progress a (length streams) (length rep.sent) rep.served
          → Progress a (suc (length streams)) (suc (length rep.sent)) (suc rep.served)
      Progress-next (ok _) h = omega arith
      Progress-next (err e) h = omega arith
      Progress-next panic h = omega arith

  Report-stop :
      (row : DeviceRow F) (stream : Stream F) (streams : List (Stream F)) (w w1 : World S)
      (r : Result (Unit {0}))
      → ((n : ℕ) → n ≤ 1 → Progress r (suc (length streams)) n 0)
      → Failed services row stream w r w1
      → Report services row (stream ∷ streams) w r w1
  Report-stop row stream streams w w1 r stops (inl same, o) = record {
    sent = [];
    served = 0;
    appended = same ∙ sym (append-nil w.requests);
    in_order = tt;
    answers = tt;
    observed = omega arith;
    progress = stops 0 (omega arith);
  }
  Report-stop row stream streams w w1 r stops (inr (p, e, refused), o) = record {
    sent = request_of row stream p ∷ [];
    served = 0;
    appended = e;
    in_order = (refl, refl, Served-nil row streams);
    answers = (refl, refused.0, refused.1, refused.2);
    observed = omega arith;
    progress = stops 1 (omega arith);
  }

  next_stream-Report :
      (row : DeviceRow F) (stream : Stream F) (streams : List (Stream F)) (w : World S)
      (rest : Device F → World S → Result (Unit {0}) × World S)
      (a : Result (Unit {0}) × Device F × World S)
      → ((d : Device F) (v : World S) → Report services row streams v (rest d v).0 (rest d v).1)
      → Turn services row stream w a.0 a.2
      → let b = next_stream avg json services rest a in
        Report services row (stream ∷ streams) w b.0 b.1
  unfolding next_stream
  next_stream-Report row stream streams w rest (ok _, d, v) reports t =
      Report-next row stream streams w v (rest d v).1 (rest d v).0 t (reports d v)
  next_stream-Report row stream streams w rest (err e, d, v) reports t =
      Report-stop row stream streams w v (err e) (λ n h. omega arith) t
  next_stream-Report row stream streams w rest (panic, d, v) reports t =
      Report-stop row stream streams w v panic (λ n h. omega arith) t

  process_streams-Report :
      (code : Text) (row : DeviceRow F) (streams : List (Stream F)) (d : Device F) (w : World S)
      → let a = process_streams avg json services code row streams d w in
        Report services row streams w a.0 a.1
  unfolding process_streams
  process_streams-Report code row [] d w = record {
    sent = [];
    served = 0;
    appended = sym (append-nil w.requests);
    in_order = tt;
    answers = tt;
    observed = omega arith;
    progress = omega arith;
  }
  process_streams-Report code row (stream ∷ streams) d w =
      next_stream-Report row stream streams w (process_streams avg json services code row streams)
        (process_stream avg json services code row stream d w)
        (process_streams-Report code row streams) (process_stream-Turn code row stream d w)

  -- Nothing is sent, and the outcome is no success.
  Report-refused :
      (row : DeviceRow F) (streams : List (Stream F)) (w : World S) (r : Result (Unit {0}))
      → Progress r (length streams) 0 0
      → Report services row streams w r w
  Report-refused row streams w r h = record {
    sent = [];
    served = 0;
    appended = sym (append-nil w.requests);
    in_order = Served-nil row streams;
    answers = tt;
    observed = omega arith;
    progress = h;
  }

  with_device-Report :
      (device : StoredDevice F) (w : World S) (parsed : Result (Device F)) (code : Result Text)
      → let a = with_device avg json services device w parsed code in
        Report services device.row device.streams w a.0 a.1
  unfolding with_device
  with_device-Report device w (ok d) (ok code) =
      process_streams-Report code device.row device.streams d w
  with_device-Report device w (ok d) (err e) = Report-refused _ _ w _ (omega arith)
  with_device-Report device w (ok d) panic = Report-refused _ _ w _ (omega arith)
  with_device-Report device w (err e) code = Report-refused _ _ w _ (omega arith)
  with_device-Report device w panic code = Report-refused _ _ w _ (omega arith)

  -- However `process` ends, it has sent requests for the first streams of the device, in their
  -- order, each under the stream's community and the device's token. On success there is one for
  -- every stream and the datastore answered no error to any; otherwise it answered none to those of the
  -- streams before the one that failed, and at most one more was sent, whose error is the outcome.
  pub process-Report :
      (device : StoredDevice F) (payload : Option Text) (w : World S)
      → let a = process avg json services device payload w in
        Report services device.row device.streams w a.0 a.1
  unfolding process
  process-Report device none w = Report-refused _ _ w _ (omega arith)
  process-Report device (some payload) w =
      let (parsed, table) = parse_data json device.row payload w.metadata in
      let rep = with_device-Report device (record w { metadata = table }) parsed script in
      record {
        sent = rep.sent;
        served = rep.served;
        appended = rep.appended;
        in_order = rep.in_order;
        answers = rep.answers;
        observed = rep.observed;
        progress = rep.progress;
      }
