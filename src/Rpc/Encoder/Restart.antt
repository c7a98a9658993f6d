-- ===== src/Rpc/Encoder/Restart.antt =====
-- A stream survives a restart: `Start` of pkg/rpc/encoder.go, with a new MQTT client, subscribes to the topic of
-- a device for which `CreateStream` had created a stream.
use iotencoder.Common.{
  ℕ, refl, sym, ◌≡◌, ap, ◌∙◌, subst, Text, text_eq, text_eq_iff, Bool, true, false, ◌||◌, List, [],
  ◌∷◌, map, some, Result, ok, err, panic, arith,
}
use mathlib.Core.List.{Permᴰ}
use iotencoder.Postgres.Streams.Reading.{listed}
use iotencoder.Common.Float.{Float64, IsIeee}
use iotencoder.Postgres.Types.{DeviceRow, token_length}
use iotencoder.Postgres.Statements.{find_device}
use iotencoder.Postgres.Token.{generate_token}
use iotencoder.Postgres.Streams.{Entropy}
use iotencoder.Postgres.Streams.Effects.{IsFresh}
use iotencoder.Postgres.Streams.Created.{Creates-Finds}
use iotencoder.Mqtt.{Client, new_client, build_topic}
use iotencoder.Rpc.Requests.{CreateRequest}
use iotencoder.Rpc.Requests.Translation.{Generated}
use iotencoder.Rpc.Encoder.{Encoder, State, start, handle_create}
use iotencoder.Rpc.Encoder.Effects.{CreateOutcome, handle_create-Outcome}
use iotencoder.Rpc.Encoder.Starting.{topics, topics_of, undisturbed, start_lem}

unfoldable pub has_topic : Text → List Text → Bool
has_topic topic [] = false
has_topic topic (t ∷ ts) = text_eq t topic || has_topic topic ts

has_topic-find_device :
    {F : Type 0} (token : Text) (row : DeviceRow F) (ds : List (DeviceRow F))
    → find_device token ds ≡ some row
    → has_topic (build_topic token) (topics_of (map (λ d. (d.id, d.device_token)) ds)) ≡ true
unfolding has_topic find_device
has_topic-find_device token row [] h = ground (arith, h)
has_topic-find_device token row (d ∷ ds) h = ground (
  arith,
  h,
  text_eq_iff d.device_token token,
  text_eq_iff (build_topic d.device_token) (build_topic token),
  has_topic-find_device token row ds,
  ap build_topic,
)

has_topic-Permᴰ :
    (topic : Text) (ds es : List (ℕ × Text))
    → Permᴰ ds es
    → has_topic topic (topics_of ds) ≡ has_topic topic (topics_of es)
unfolding has_topic
has_topic-Permᴰ topic _ _ Permᴰ.nil = refl
has_topic-Permᴰ topic _ _ (Permᴰ.cons {l₁ = ds} {l₂ = es} e p) =
    rw e (ground (arith, has_topic-Permᴰ topic ds es p))
has_topic-Permᴰ topic _ _ (Permᴰ.swap e1 e2) = rw (e1, e2) (ground arith)
has_topic-Permᴰ topic _ _ (Permᴰ.trans {l₁ = ds} {l₂ = es} {l₃ = gs} p q) =
    has_topic-Permᴰ topic ds es p ∙ has_topic-Permᴰ topic es gs q

module _ {F P : Type 0} ⦃f : Float64 F⦄ (encoder : Encoder F Client P) (uuid token : Text)
    (req : CreateRequest F) where
  -- The state after a restart, with the database as it is.
  abbrev pub restarted : State F Client P → State F Client P
  restarted w = record w { client = new_client }

  Subscribed : State F Client P → Type 0
  Subscribed w' =
      has_topic (build_topic req.device_token)
        (topics (start (undisturbed encoder) (restarted w')).1.client.log)
      ≡ true

  CreateOutcome-Subscribed :
      (w : State F Client P) (a : Result (Text × Text) × State F Client P) (b : Text × Text)
      → IsFresh w.session.db
      → CreateOutcome encoder uuid token req w a
      → a.0 ≡ ok b
      → Subscribed a.1
  unfolding Subscribed
  CreateOutcome-Subscribed w (ok (u, t), w') b fresh
        (eu, et, (stream, row, asked, dev, same, creates), sub) e =
      let (id, found) =
        Creates-Finds encoder.server stream _ row uuid token w.session.db w'.session.db fresh
          creates in
      ap (has_topic (build_topic req.device_token)) (start_lem encoder (restarted w')).1
      ∙ sym (
          has_topic-Permᴰ (build_topic req.device_token)
            (map (λ d. (d.id, d.device_token)) w'.session.db.tables.devices)
            (listed encoder.server (restarted w').session)
            (encoder.server.device_order.permutes w'.session.db _))
      ∙ has_topic-find_device req.device_token (record row { id = id }) w'.session.db.tables.devices
          (subst (λ x. find_device x w'.session.db.tables.devices ≡ some (record row { id = id }))
            same found)
  CreateOutcome-Subscribed w (err x, w') b fresh h e = ground (arith, e)
  CreateOutcome-Subscribed w (panic, w') b fresh h e = ground (arith, e)

  -- When handle_create has answered a uuid and a token, on a database whose ids stay below its
  -- sequence, then a start with a new MQTT client, with no failing call of the driver or of paho,
  -- subscribes to the topic of the device.
  pub create_then_restart :
      (entropy : Entropy) (b : Text × Text) (w : State F Client P)
      → entropy.new_uuid ≡ ok uuid
      → generate_token entropy.random_bytes token_length ≡ ok token
      → Generated encoder.names
      → IsIeee F
      → IsFresh w.session.db
      → (handle_create encoder entropy req w).0 ≡ ok b
      → has_topic (build_topic req.device_token) (
          topics
            (start
              (undisturbed encoder)
              (restarted (handle_create encoder entropy req w).1)).1.client.log)
        ≡ true
  unfolding Subscribed
  create_then_restart entropy b w drawn token_drawn generated ieee fresh e =
      CreateOutcome-Subscribed w (handle_create encoder entropy req w) b fresh
        (handle_create-Outcome encoder uuid token entropy drawn token_drawn generated ieee req w) e
