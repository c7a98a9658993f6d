-- ===== src/Rpc/Encoder/Refusals.antt =====
-- Which creations and deletions pkg/rpc/encoder.go refuses, by what the database has.
use iotencoder.Common.{
  ◌≡◌, ◌≢◌, refl, sym, ap, subst, Text, none, some, Error, Result, ok, err, panic, inl, inr,
}
use iotencoder.Common.Float.{Float64, IsIeee}
use iotencoder.Postgres.Types.{Stream, token_length}
use iotencoder.Postgres.Tables.{StreamRow}
use iotencoder.Postgres.Statements.{stream_with, delete_uuid}
use iotencoder.Postgres.Token.{generate_token}
use iotencoder.Postgres.Streams.{Entropy}
use iotencoder.Postgres.Streams.Effects.{IsFresh}
use iotencoder.Postgres.Streams.Unique.{
  Occupied, Creates-Occupied, Occupied-refuses, Deletes-checked,
}
use iotencoder.Rpc.Requests.{CreateRequest, DeleteRequest, requested_stream}
use iotencoder.Rpc.Requests.Translation.{Generated, requested_stream-located}
use iotencoder.Rpc.Encoder.{Encoder, State, deleted_stream, handle_create, handle_delete}
use iotencoder.Rpc.Encoder.Effects.{
  Registered, CreateOutcome, DeleteOutcome, handle_create-Outcome, handle_delete-Outcome,
}

module _ {F M P : Type 0} ⦃f : Float64 F⦄ (encoder : Encoder F M P) where
  open encoder use {server, names}

  module _ (generated : Generated names) (laws : IsIeee F) where
    asked_community :
        (req : CreateRequest F) (stream : Stream F)
        → requested_stream names req ≡ ok stream
        → stream.community_id ≡ req.community_id
    asked_community req stream q =
        let (l, os, is, located, all) = requested_stream-located names generated req stream q in
        ap (λ (x : Stream F). x.community_id) is

    Registered-Occupied :
        (uuid token : Text) (req : CreateRequest F) (w w' : State F M P)
        → IsFresh w.session.db
        → Registered encoder uuid token req w w'
        → Occupied server req.device_token req.community_id w'.session.db
    Registered-Occupied uuid token req w w' fresh (stream, row, asked, dev, same, creates) =
        subst (λ t. Occupied server t req.community_id w'.session.db) same
          (subst (λ c. Occupied server row.device_token c w'.session.db)
            (asked_community req stream asked)
            (Creates-Occupied server stream _ row uuid token w.session.db w'.session.db fresh
              creates))

    Registered-refused :
        (uuid token : Text) (req : CreateRequest F) (w w' : State F M P)
        → Occupied server req.device_token req.community_id w.session.db
        → Registered encoder uuid token req w w'
        → ⊥
    Registered-refused uuid token req w w' has (stream, row, asked, dev, same, creates) =
        Occupied-refuses server stream _ row uuid token w.session.db w'.session.db
          (subst (λ t. Occupied server t stream.community_id w.session.db) (sym same)
            (subst (λ c. Occupied server req.device_token c w.session.db)
              (sym (asked_community req stream asked)) has))
          creates

    changed-Registered :
        (uuid token : Text) (req : CreateRequest F) (w : State F M P)
        (a : Result (Text × Text) × State F M P)
        → CreateOutcome encoder uuid token req w a
        → a.1.session.db.tables ≢ w.session.db.tables
        → Registered encoder uuid token req w a.1
    changed-Registered uuid token req w (ok (u, t), w') (eu, et, registered, sub) n = registered
    changed-Registered uuid token req w (err e, w') (inl (tables, client)) n = absurd (n tables)
    changed-Registered uuid token req w (err e, w') (inr (x, registered, sub)) n = registered
    changed-Registered uuid token req w (panic, w') (registered, sub) n = registered

    -- The creation is refused, and nothing is changed.
    Refuses : State F M P → Result (Text × Text) × State F M P → Type 0
    Refuses w a =
        (e : Error) × (a.0 ≡ err e)
        × (a.1.session.db.tables ≡ w.session.db.tables)
        × (a.1.client ≡ w.client)

    Occupied-Refuses :
        (uuid token : Text) (req : CreateRequest F) (w : State F M P)
        (a : Result (Text × Text) × State F M P)
        → Occupied server req.device_token req.community_id w.session.db
        → CreateOutcome encoder uuid token req w a
        → Refuses w a
    unfolding Refuses
    Occupied-Refuses uuid token req w (ok (u, t), w') has (eu, et, registered, sub) =
        absurd (Registered-refused uuid token req w w' has registered)
    Occupied-Refuses uuid token req w (err e, w') has (inl (tables, client)) =
        (e, refl, tables, client)
    Occupied-Refuses uuid token req w (err e, w') has (inr (x, registered, sub)) =
        absurd (Registered-refused uuid token req w w' has registered)
    Occupied-Refuses uuid token req w (panic, w') has (registered, sub) =
        absurd (Registered-refused uuid token req w w' has registered)

    -- On a database whose ids stay below its sequence: once handle_create has changed the tables,
    -- however it ended, another handle_create for the same device token and community answers an error
    -- and leaves the tables and the subscriptions as they are, also where the first one answered only
    -- an error because the subscription failed. A uuid and a token are drawn for both.
    pub create_again_refused :
        (entropy again : Entropy) (uuid token uuid' token' : Text) (req req' : CreateRequest F)
        (w : State F M P)
        → entropy.new_uuid ≡ ok uuid
        → generate_token entropy.random_bytes token_length ≡ ok token
        → again.new_uuid ≡ ok uuid'
        → generate_token again.random_bytes token_length ≡ ok token'
        → IsFresh w.session.db
        → req'.device_token ≡ req.device_token
        → req'.community_id ≡ req.community_id
        → (handle_create encoder entropy req w).1.session.db.tables ≢ w.session.db.tables
        → let w' = (handle_create encoder entropy req w).1 in
          let a = handle_create encoder again req' w' in
          (e : Error) × (a.0 ≡ err e)
          × (a.1.session.db.tables ≡ w'.session.db.tables)
          × (a.1.client ≡ w'.client)
    unfolding Refuses
    create_again_refused entropy again uuid token uuid' token' req req' w d1 t1 d2 t2 fresh device
          community changed =
        let w' = (handle_create encoder entropy req w).1 in
        let has = Registered-Occupied uuid token req w w' fresh (
          changed-Registered uuid token req w (handle_create encoder entropy req w)
            (handle_create-Outcome encoder uuid token entropy d1 t1 generated laws req w)
            changed) in
        Occupied-Refuses uuid' token' req' w' (handle_create encoder again req' w')
          (subst (λ t. Occupied server t req'.community_id w'.session.db) (sym device)
            (subst (λ c. Occupied server req.device_token c w'.session.db) (sym community) has))
          (handle_create-Outcome encoder uuid' token' again d2 t2 generated laws req' w')

  -- The stream was there, its token is the one of the request, and it is the one that is gone.
  Authorised : DeleteRequest → State F M P → State F M P → Type 0
  Authorised req w w' =
      (s : StreamRow) × (stream_with req.stream_uid w.session.db.tables.streams ≡ some s)
      × (server.pgp.decrypt server.password s.token ≡ some req.token)
      × (w'.session.db.tables.streams ≡ delete_uuid req.stream_uid w.session.db.tables.streams)

  DeleteOutcome-Authorised :
      (req : DeleteRequest) (w : State F M P) (a : Result (Unit {0}) × State F M P)
      → DeleteOutcome encoder req w a
      → a.1.session.db.tables ≢ w.session.db.tables
      → Authorised req w a.1
  unfolding Authorised
  DeleteOutcome-Authorised req w (ok _, w') (inl (removed, client)) n =
      Deletes-checked server (deleted_stream encoder req) none w.session.db w'.session.db removed
  DeleteOutcome-Authorised req w (ok _, w') (inr (token, removed, sub)) n =
      Deletes-checked server (deleted_stream encoder req) (some token) w.session.db w'.session.db
        removed
  DeleteOutcome-Authorised req w (err e, w') (inl (tables, client)) n = absurd (n tables)
  DeleteOutcome-Authorised req w (err e, w') (inr (token, x, removed, sub)) n =
      Deletes-checked server (deleted_stream encoder req) (some token) w.session.db w'.session.db
        removed
  DeleteOutcome-Authorised req w (panic, w') (token, removed, sub) n =
      Deletes-checked server (deleted_stream encoder req) (some token) w.session.db w'.session.db
        removed

  -- When handle_delete changes the tables, however it ends, then a stream had the uid of the request,
  -- the token that is stored with it decrypts to the token of the request, and the streams without
  -- that uid are all left, in their order, with no other.
  pub delete_authorised :
      (req : DeleteRequest) (w : State F M P)
      → (handle_delete encoder req w).1.session.db.tables ≢ w.session.db.tables
      → let w' = (handle_delete encoder req w).1 in
        (s : StreamRow) × (stream_with req.stream_uid w.session.db.tables.streams ≡ some s)
        × (server.pgp.decrypt server.password s.token ≡ some req.token)
        × (w'.session.db.tables.streams ≡ delete_uuid req.stream_uid w.session.db.tables.streams)
  unfolding Authorised
  delete_authorised req w changed =
      DeleteOutcome-Authorised req w (handle_delete encoder req w)
        (handle_delete-Outcome encoder req w) changed
