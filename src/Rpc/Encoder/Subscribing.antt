-- ===== src/Rpc/Encoder/Subscribing.antt =====
-- That the methods of pkg/rpc/encoder.go reach the MQTT client through its two methods only.
use iotencoder.Common.{
  ℕ, Text, List, [], ◌∷◌, Option, none, some, Error, Result, ok, err, panic, ◌≡◌, ◌≢◌, refl, arith,
}
use iotencoder.Common.Float.{Float64}
use iotencoder.Postgres.Types.{Stream, Device}
use iotencoder.Postgres.Transactor.{Session}
use iotencoder.Postgres.Streams.{Entropy}
use iotencoder.Rpc.Requests.{CreateRequest, DeleteRequest}
use iotencoder.Rpc.Encoder.{
  Encoder, State, next_device, subscribe_devices, started, start, create_answer, create_stored,
  create_requested, create_validated, handle_create, delete_answer, delete_stored, delete_validated,
  handle_delete, processed, with_stored, with_token, handle_callback,
}

module _ {F M P : Type 0} ⦃f : Float64 F⦄ (encoder : Encoder F M P) where
  open encoder use {mqtt, broker_addr, broker_username}

  -- What holds of the MQTT client and is kept by its methods is kept by those of the encoder.
  module _ (Good : M → Type 0)
      (subscribe_keeps : (b u t : Text) (m : M) → Good m → Good (mqtt.subscribe b u t m).1)
      (unsubscribe_keeps : (b u t : Text) (m : M)
        → Good m
        → Good (mqtt.unsubscribe b u t m).1) where
    next_device-Good :
        (rest : M → Result (Unit {0}) × M) (r : Result (Unit {0}) × M)
        → ((m : M) → Good m → Good (rest m).1)
        → Good r.1
        → Good (next_device encoder rest r).1
    unfolding next_device
    next_device-Good rest (ok _, m) k h = k m h
    next_device-Good rest (err _, m) k h = k m h
    next_device-Good rest (panic, m) k h = h

    subscribe_devices-Good :
        (ds : List (ℕ × Text)) (m : M) → Good m → Good (subscribe_devices encoder ds m).1
    unfolding subscribe_devices
    subscribe_devices-Good [] m h = h
    subscribe_devices-Good ((id, token) ∷ ds) m h =
        next_device-Good (subscribe_devices encoder ds) _ (subscribe_devices-Good ds)
          (subscribe_keeps broker_addr broker_username token m h)

    started-Good :
        (w : State F M P) (r : Result (List (ℕ × Text)) × Session F)
        → Good w.client
        → Good (started encoder w r).1.client
    unfolding started
    started-Good w (ok ds, s) h = subscribe_devices-Good ds w.client h
    started-Good w (err e, s) h = h
    started-Good w (panic, s) h = h

    pub start-Good : (w : State F M P) → Good w.client → Good (start encoder w).1.client
    unfolding start
    start-Good w h = started-Good w _ h

    create_answer-Good :
        (stream : Stream F) (w : State F M P) (r : Result (Unit {0}) × M)
        → Good r.1
        → Good (create_answer encoder stream w r).1.client
    unfolding create_answer
    create_answer-Good stream w (ok _, m) h = h
    create_answer-Good stream w (err e, m) h = h
    create_answer-Good stream w (panic, m) h = h

    create_stored-Good :
        (req : CreateRequest F) (w : State F M P) (r : Result (Stream F) × Session F)
        → Good w.client
        → Good (create_stored encoder req w r).1.client
    unfolding create_stored
    create_stored-Good req w (ok stream, s) h =
        create_answer-Good stream (record w { session = s }) _
          (subscribe_keeps broker_addr broker_username req.device_token w.client h)
    create_stored-Good req w (err e, s) h = h
    create_stored-Good req w (panic, s) h = h

    create_requested-Good :
        (entropy : Entropy) (req : CreateRequest F) (w : State F M P) (r : Result (Stream F))
        → Good w.client
        → Good (create_requested encoder entropy req w r).1.client
    unfolding create_requested
    create_requested-Good entropy req w (ok stream) h = create_stored-Good req w _ h
    create_requested-Good entropy req w (err e) h = h
    create_requested-Good entropy req w panic h = h

    create_validated-Good :
        (entropy : Entropy) (req : CreateRequest F) (w : State F M P) (o : Option Error)
        → Good w.client
        → Good (create_validated encoder entropy req w o).1.client
    unfolding create_validated
    create_validated-Good entropy req w (some e) h = h
    create_validated-Good entropy req w none h = create_requested-Good entropy req w _ h

    pub handle_create-Good :
        (entropy : Entropy) (req : CreateRequest F) (w : State F M P)
        → Good w.client
        → Good (handle_create encoder entropy req w).1.client
    unfolding handle_create
    handle_create-Good entropy req w h = create_validated-Good entropy req w _ h

    delete_answer-Good :
        (w : State F M P) (r : Result (Unit {0}) × M)
        → Good r.1
        → Good (delete_answer encoder w r).1.client
    unfolding delete_answer
    delete_answer-Good w (ok _, m) h = h
    delete_answer-Good w (err e, m) h = h
    delete_answer-Good w (panic, m) h = h

    delete_stored-Good :
        (w : State F M P) (r : Result (Option Text) × Session F)
        → Good w.client
        → Good (delete_stored encoder w r).1.client
    unfolding delete_stored
    delete_stored-Good w (ok none, s) h = h
    delete_stored-Good w (ok (some token), s) h =
        delete_answer-Good (record w { session = s }) _
          (unsubscribe_keeps broker_addr broker_username token w.client h)
    delete_stored-Good w (err e, s) h = h
    delete_stored-Good w (panic, s) h = h

    delete_validated-Good :
        (req : DeleteRequest) (w : State F M P) (o : Option Error)
        → Good w.client
        → Good (delete_validated encoder req w o).1.client
    unfolding delete_validated
    delete_validated-Good req w (some e) h = h
    delete_validated-Good req w none h = delete_stored-Good w _ h

    pub handle_delete-Good :
        (req : DeleteRequest) (w : State F M P)
        → Good w.client
        → Good (handle_delete encoder req w).1.client
    unfolding handle_delete
    handle_delete-Good req w h = delete_validated-Good req w _ h

  processed-client :
      (w : State F M P) (r : Result (Unit {0}) × P) → (processed encoder w r).1.client ≡ w.client
  unfolding processed
  processed-client w (ok _, p) = refl
  processed-client w (err e, p) = refl
  processed-client w (panic, p) = refl

  with_stored-client :
      (payload : Text) (w : State F M P) (r : Result (Device F) × Session F)
      → (with_stored encoder payload w r).1.client ≡ w.client
  unfolding with_stored
  with_stored-client payload w (ok device, s) = processed-client (record w { session = s }) _
  with_stored-client payload w (err e, s) = refl
  with_stored-client payload w (panic, s) = refl

  with_token-client :
      (payload : Text) (w : State F M P) (r : Result Text)
      → (with_token encoder payload w r).1.client ≡ w.client
  unfolding with_token
  with_token-client payload w (ok token) = with_stored-client payload w _
  with_token-client payload w (err e) = refl
  with_token-client payload w panic = refl

  -- A message changes nothing in the MQTT client.
  pub handle_callback-client :
      (topic payload : Text) (w : State F M P)
      → (handle_callback encoder topic payload w).1.client ≡ w.client
  unfolding handle_callback
  handle_callback-client topic payload w = with_token-client payload w _

  next_device-answer :
      (rest : M → Result (Unit {0}) × M) (r : Result (Unit {0}) × M) (e : Error)
      → ((m : M) → (rest m).0 ≢ err e)
      → (next_device encoder rest r).0 ≢ err e
  unfolding next_device
  next_device-answer rest (ok _, m) e k = k m
  next_device-answer rest (err _, m) e k = k m
  next_device-answer rest (panic, m) e k = λ h. ground (arith, h)

  subscribe_devices-answer :
      (ds : List (ℕ × Text)) (m : M) (e : Error) → (subscribe_devices encoder ds m).0 ≢ err e
  unfolding subscribe_devices
  subscribe_devices-answer [] m e = λ h. ground (arith, h)
  subscribe_devices-answer ((id, token) ∷ ds) m e =
      next_device-answer (subscribe_devices encoder ds) _ e (λ k. subscribe_devices-answer ds k e)

  started-refused :
      (w : State F M P) (r : Result (List (ℕ × Text)) × Session F) (e : Error)
      → (started encoder w r).0 ≡ err e
      → (started encoder w r).1.client ≡ w.client
  unfolding started
  started-refused w (ok ds, s) e h = absurd (subscribe_devices-answer ds w.client e h)
  started-refused w (err x, s) e h = refl
  started-refused w (panic, s) e h = refl

  -- A start that answers an error has subscribed to nothing.
  pub start-refused :
      (w : State F M P) (e : Error)
      → (start encoder w).0 ≡ err e
      → (start encoder w).1.client ≡ w.client
  unfolding start
  start-refused w e h = started-refused w _ e h
