-- ===== src/Rpc/Encoder/Race.antt =====
-- `DeleteStream` of pkg/rpc/encoder.go as the two steps that other requests can come between: the transaction, and
-- the call of the MQTT client that follows it.
mod Tests
use iotencoder.Common.{
  ◌≡◌, refl, sym, ap, ◌∙◌, subst, Text, text_eq_refl, true, false, Option, none, some, Error,
  Result, ok, err, panic, internal, arith,
}
use iotencoder.Common.Float.{Float64, IsIeee}
use iotencoder.Postgres.Types.{DeviceRow, Stream, token_length}
use iotencoder.Postgres.Transactor.{Session}
use iotencoder.Postgres.Transactor.Ending.{Ended}
use iotencoder.Postgres.Token.{generate_token}
use iotencoder.Postgres.Streams.{Entropy, create_stream, delete_stream}
use iotencoder.Postgres.Streams.Atomic.{Creates, create_stream_atomic}
use iotencoder.Postgres.Streams.Tokens.{has_token, Creates-tokens}
use iotencoder.Mqtt.{Client, client_key, subscribe, unsubscribe}
use iotencoder.Mqtt.Topics.{live, Tracks}
use iotencoder.Mqtt.Topics.Calls.{subscribe-live, unsubscribe-live}
use iotencoder.Rpc.Requests.{
  CreateRequest, DeleteRequest, device_of, validate_create_request, validate_delete_request,
  requested_stream,
}
use iotencoder.Rpc.Requests.Translation.{Generated, requested_stream-located}
use iotencoder.Rpc.Encoder.{
  Encoder, State, create_answer, create_stored, create_requested, create_validated, handle_create,
  delete_answer, delete_stored, deleted_stream, delete_validated, handle_delete,
}
use iotencoder.Rpc.Encoder.Effects.{CreateOutcome, handle_create-Outcome}
use iotencoder.Rpc.Encoder.Synced.{online, broker_key}

module _ {F M P : Type 0} ⦃f : Float64 F⦄ (encoder : Encoder F M P) where
  open encoder use {server, names, mqtt, broker_addr, broker_username}

  reported : {A : Type 0} → Result A × Session F → Result A × Session F
  reported (ok a, s) = (ok a, s)
  reported (err e, s) = (err (internal e), s)
  reported (panic, s) = (panic, s)

  delete_committed : DeleteRequest → Session F → Option Error → Result (Option Text) × Session F
  unfolding reported
  delete_committed req s (some e) = (err e, s)
  delete_committed req s none = reported (delete_stream server (deleted_stream encoder req) s)

  -- `DeleteStream` up to the answer of the database.
  unfoldable pub delete_commit : DeleteRequest → Session F → Result (Option Text) × Session F
  unfolding delete_committed
  delete_commit req s = delete_committed req s (validate_delete_request req)

  delete_told : Result (Unit {0}) × M → Result (Unit {0}) × M
  delete_told (ok _, m) = (ok tt, m)
  delete_told (err e, m) = (err (internal e), m)
  delete_told (panic, m) = (panic, m)

  -- The rest of it, with the client as it is then.
  unfoldable pub delete_unsubscribe : Result (Option Text) → M → Result (Unit {0}) × M
  unfolding delete_told
  delete_unsubscribe (ok none) m = (ok tt, m)
  delete_unsubscribe (ok (some token)) m =
      delete_told (mqtt.unsubscribe broker_addr broker_username token m)
  delete_unsubscribe (err e) m = (err e, m)
  delete_unsubscribe panic m = (panic, m)

  abbrev Deleted : State F M P → Result (Option Text) × Session F → Result (Unit {0}) × State F M P
  Deleted w (r, s) =
      let (a, m) = delete_unsubscribe r w.client in (a, record w { session = s; client = m })

  delete_answer-told :
      (w : State F M P) (r : Result (Unit {0}) × M)
      → delete_answer encoder w r ≡ ((delete_told r).0, record w { client = (delete_told r).1 })
  unfolding delete_answer delete_told
  delete_answer-told w (ok _, m) = refl
  delete_answer-told w (err e, m) = refl
  delete_answer-told w (panic, m) = refl

  delete_stored-Deleted :
      (w : State F M P) (r : Result (Option Text) × Session F)
      → delete_stored encoder w r ≡ Deleted w (reported r)
  unfolding delete_stored reported delete_unsubscribe
  delete_stored-Deleted w (ok none, s) = refl
  delete_stored-Deleted w (ok (some token), s) = delete_answer-told (record w { session = s }) _
  delete_stored-Deleted w (err e, s) = refl
  delete_stored-Deleted w (panic, s) = refl

  delete_validated-Deleted :
      (req : DeleteRequest) (w : State F M P) (o : Option Error)
      → delete_validated encoder req w o ≡ Deleted w (delete_committed req w.session o)
  unfolding delete_validated delete_committed delete_unsubscribe
  delete_validated-Deleted req w (some e) = refl
  delete_validated-Deleted req w none = delete_stored-Deleted w _

  -- With nothing in between, the two steps are `handle_delete`.
  pub delete_steps :
      (req : DeleteRequest) (w : State F M P)
      → let (r, s) = delete_commit req w.session in
        let (a, m) = delete_unsubscribe r w.client in
        handle_delete encoder req w ≡ (a, record w { session = s; client = m })
  unfolding handle_delete delete_commit
  delete_steps req w = delete_validated-Deleted req w _

module _ {F P : Type 0} ⦃f : Float64 F⦄ (encoder : Encoder F Client P)
    (generated : Generated encoder.names) (laws : IsIeee F) (entropy : Entropy) (uuid token : Text)
    (drawn : entropy.new_uuid ≡ ok uuid)
    (token_drawn : generate_token entropy.random_bytes token_length ≡ ok token) where
  open encoder use {broker_addr, broker_username}

  -- The device is in the table, and its topic is not subscribed to.
  Lost : Text → State F Client P → Result (Unit {0}) × Client → Type 0
  Lost device_token w (a, m) =
      (a ≡ ok tt)
      × (has_token device_token w.session.db.tables.devices ≡ true)
      × (live (broker_key encoder) device_token m ≡ false)

  unsubscribed-Lost :
      (device_token : Text) (w : State F Client P) (r : Result (Unit {0}) × Client)
      → has_token device_token w.session.db.tables.devices ≡ true
      → r.0 ≡ ok tt
      → live (broker_key encoder) device_token r.1 ≡ false
      → Lost device_token w (delete_told (online encoder) r)
  unfolding Lost delete_told
  unsubscribed-Lost device_token w (ok _, m) has e quiet = (refl, has, quiet)
  unsubscribed-Lost device_token w (err x, m) has e quiet = ground (arith, e)
  unsubscribed-Lost device_token w (panic, m) has e quiet = ground (arith, e)

  created-Lost :
      (req : CreateRequest F) (w : State F Client P) (a : Result (Text × Text) × State F Client P)
      (b : Text × Text)
      → Tracks w.client
      → CreateOutcome (online encoder) uuid token req w a
      → a.0 ≡ ok b
      → Lost req.device_token a.1
          (delete_unsubscribe (online encoder) (ok (some req.device_token)) a.1.client)
  unfolding delete_unsubscribe
  created-Lost req w (ok (u, t), w') b tracks (eu, et, (stream, row, asked, dev, same, made), sub)
        e =
      let (answers, tracks', now) =
        subscribe-live broker_addr broker_username req.device_token w.client tracks in
      let client = ap (λ r. r.1) sub in
      let (answers', tracks'', now') =
        unsubscribe-live broker_addr broker_username req.device_token w'.client
          (subst Tracks client tracks') in
      unsubscribed-Lost req.device_token w' _
        (Creates-tokens encoder.server stream _ row uuid token w.session.db w'.session.db
            req.device_token made
          ∙ ground (arith, same, text_eq_refl req.device_token))
        answers'
        (now' (broker_key encoder) req.device_token
          ∙ ground (arith, text_eq_refl req.device_token, text_eq_refl (broker_key encoder)))
  created-Lost req w (err x, w') b tracks h e = ground (arith, e)
  created-Lost req w (panic, w') b tracks h e = ground (arith, e)

  -- When the transaction of a handle_delete has deleted a device, a whole handle_create for the same
  -- device token succeeds, with a uuid and a token drawn, and then the handle_delete goes on, with no
  -- failing call of paho: the deletion succeeds as well, and the device is in the table, but its topic
  -- is not subscribed to.
  pub delete_race_loses :
      (dreq : DeleteRequest) (creq : CreateRequest F) (w : State F Client P) (b : Text × Text)
      → Tracks w.client
      → (delete_commit (online encoder) dreq w.session).0 ≡ ok (some creq.device_token)
      → let w1 = record w { session = (delete_commit (online encoder) dreq w.session).1 } in
        (handle_create (online encoder) entropy creq w1).0 ≡ ok b
        → let w2 = (handle_create (online encoder) entropy creq w1).1 in
          let (a, m) =
            delete_unsubscribe
              (online encoder)
              (delete_commit (online encoder) dreq w.session).0
              w2.client in
          (a ≡ ok tt)
          × (has_token creq.device_token w2.session.db.tables.devices ≡ true)
          × (live (client_key broker_addr broker_username) creq.device_token m ≡ false)
  unfolding Lost
  delete_race_loses dreq creq w b tracks gone e =
      let w1 = record w { session = (delete_commit (online encoder) dreq w.session).1 } in
      let a = handle_create (online encoder) entropy creq w1 in
      subst (λ r. Lost creq.device_token a.1 (delete_unsubscribe (online encoder) r a.1.client))
        (sym gone)
        (created-Lost creq w1 a b tracks
          (handle_create-Outcome (online encoder) uuid token entropy drawn token_drawn generated
            laws creq w1)
          e)
