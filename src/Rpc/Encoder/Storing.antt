-- ===== src/Rpc/Encoder/Storing.antt =====
-- That the handlers of pkg/rpc/encoder.go reach the database through the methods of the store only.
use iotencoder.Common.{ℕ, Text, Option, none, some, Error, Result, ok, err, panic, List, ◌≡◌, refl}
use iotencoder.Common.Float.{Float64}
use iotencoder.Postgres.Types.{Stream, Device}
use iotencoder.Postgres.Transactor.{Session}
use iotencoder.Postgres.Streams.{Entropy, create_stream, delete_stream, get_device, get_devices}
use iotencoder.Rpc.Requests.{CreateRequest, DeleteRequest}
use iotencoder.Rpc.Encoder.{
  Encoder, State, create_answer, create_stored, create_requested, create_validated, handle_create,
  delete_answer, delete_stored, delete_validated, handle_delete, processed, with_stored, with_token,
  handle_callback, started, start, deleted_stream,
}

module _ {F M P : Type 0} ⦃f : Float64 F⦄ (encoder : Encoder F M P) where
  open encoder use {server}

  create_answer-session :
      (stream : Stream F) (w : State F M P) (r : Result (Unit {0}) × M)
      → (create_answer encoder stream w r).1.session ≡ w.session
  unfolding create_answer
  create_answer-session stream w (ok _, m) = refl
  create_answer-session stream w (err e, m) = refl
  create_answer-session stream w (panic, m) = refl

  create_stored-session :
      (req : CreateRequest F) (w : State F M P) (r : Result (Stream F) × Session F)
      → (create_stored encoder req w r).1.session ≡ r.1
  unfolding create_stored
  create_stored-session req w (ok stream, s) =
      create_answer-session stream (record w { session = s }) _
  create_stored-session req w (err e, s) = refl
  create_stored-session req w (panic, s) = refl

  delete_answer-session :
      (w : State F M P) (r : Result (Unit {0}) × M)
      → (delete_answer encoder w r).1.session ≡ w.session
  unfolding delete_answer
  delete_answer-session w (ok _, m) = refl
  delete_answer-session w (err e, m) = refl
  delete_answer-session w (panic, m) = refl

  delete_stored-session :
      (w : State F M P) (r : Result (Option Text) × Session F)
      → (delete_stored encoder w r).1.session ≡ r.1
  unfolding delete_stored
  delete_stored-session w (ok none, s) = refl
  delete_stored-session w (ok (some token), s) = delete_answer-session (record w { session = s }) _
  delete_stored-session w (err e, s) = refl
  delete_stored-session w (panic, s) = refl

  processed-session :
      (w : State F M P) (r : Result (Unit {0}) × P) → (processed encoder w r).1.session ≡ w.session
  unfolding processed
  processed-session w (ok _, p) = refl
  processed-session w (err e, p) = refl
  processed-session w (panic, p) = refl

  with_stored-session :
      (payload : Text) (w : State F M P) (r : Result (Device F) × Session F)
      → (with_stored encoder payload w r).1.session ≡ r.1
  unfolding with_stored
  with_stored-session payload w (ok device, s) = processed-session (record w { session = s }) _
  with_stored-session payload w (err e, s) = refl
  with_stored-session payload w (panic, s) = refl

  started-session :
      (w : State F M P) (r : Result (List (ℕ × Text)) × Session F)
      → (started encoder w r).1.session ≡ r.1
  unfolding started
  started-session w (ok ds, s) = refl
  started-session w (err e, s) = refl
  started-session w (panic, s) = refl

  -- What holds of the database's session and is kept by a method of the store is kept by its handler.
  module _ (Good : Session F → Type 0) where
    create_requested-Stored :
        (entropy : Entropy) (req : CreateRequest F) (w : State F M P) (r : Result (Stream F))
        → ((stream : Stream F) → Good (create_stream server entropy stream w.session).1)
        → Good w.session
        → Good (create_requested encoder entropy req w r).1.session
    unfolding create_requested
    create_requested-Stored entropy req w (ok stream) k h =
        rw (create_stored-session req w (create_stream server entropy stream w.session)) (k stream)
    create_requested-Stored entropy req w (err e) k h = h
    create_requested-Stored entropy req w panic k h = h

    create_validated-Stored :
        (entropy : Entropy) (req : CreateRequest F) (w : State F M P) (o : Option Error)
        → ((stream : Stream F) → Good (create_stream server entropy stream w.session).1)
        → Good w.session
        → Good (create_validated encoder entropy req w o).1.session
    unfolding create_validated
    create_validated-Stored entropy req w (some e) k h = h
    create_validated-Stored entropy req w none k h = create_requested-Stored entropy req w _ k h

    pub handle_create-Stored :
        (entropy : Entropy) (req : CreateRequest F) (w : State F M P)
        → ((stream : Stream F) → Good (create_stream server entropy stream w.session).1)
        → Good w.session
        → Good (handle_create encoder entropy req w).1.session
    unfolding handle_create
    handle_create-Stored entropy req w k h = create_validated-Stored entropy req w _ k h

    delete_validated-Stored :
        (req : DeleteRequest) (w : State F M P) (o : Option Error)
        → ((stream : Stream F) → Good (delete_stream server stream w.session).1)
        → Good w.session
        → Good (delete_validated encoder req w o).1.session
    unfolding delete_validated
    delete_validated-Stored req w (some e) k h = h
    delete_validated-Stored req w none k h =
        rw (delete_stored-session w (delete_stream server (deleted_stream encoder req) w.session))
          (k (deleted_stream encoder req))

    pub handle_delete-Stored :
        (req : DeleteRequest) (w : State F M P)
        → ((stream : Stream F) → Good (delete_stream server stream w.session).1)
        → Good w.session
        → Good (handle_delete encoder req w).1.session
    unfolding handle_delete
    handle_delete-Stored req w k h = delete_validated-Stored req w _ k h

    with_token-Stored :
        (payload : Text) (w : State F M P) (r : Result Text)
        → ((token : Text) → Good (get_device server token w.session).1)
        → Good w.session
        → Good (with_token encoder payload w r).1.session
    unfolding with_token
    with_token-Stored payload w (ok token) k h =
        rw (with_stored-session payload w (get_device server token w.session)) (k token)
    with_token-Stored payload w (err e) k h = h
    with_token-Stored payload w panic k h = h

    pub handle_callback-Stored :
        (topic payload : Text) (w : State F M P)
        → ((token : Text) → Good (get_device server token w.session).1)
        → Good w.session
        → Good (handle_callback encoder topic payload w).1.session
    unfolding handle_callback
    handle_callback-Stored topic payload w k h = with_token-Stored payload w _ k h

    pub start-Stored :
        (w : State F M P) → Good (get_devices server w.session).1 → Good (start encoder w).1.session
    unfolding start
    start-Stored w k = rw (started-session w (get_devices server w.session)) k
