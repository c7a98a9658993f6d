-- ===== src/Rpc/Requests/Translation.antt =====
-- The stream that `createStream` (pkg/rpc/encoder.go) makes of a request: its operations are those of
-- the request, in their order, each one fit for the pipeline.
use iotencoder.Common.{
  ◌≡◌, ◌≢◌, refl, ◌==◌, ==_iff, ℤ, pos, codes, true, List, [], ◌∷◌, ◌++◌, Option, none, some,
  Result, ok, err, panic, arith, sym, ◌∙◌, ap, subst, Bool-cases, inl, inr, text_eq, ◌⊎◌,
}
use mathlib.Core.List.{append_assoc, append-nil}
use iotencoder.Postgres.Types.{DeviceRow, Operation, Stream, share, bin, moving_average_action}
use iotencoder.Postgres.Statements.{is_exposure}
use iotencoder.Rpc.Requests.{
  ActionCode, share_code, bin_code, moving_average_code, other_code, RequestOperation, Location,
  CreateRequest, EnumNames, to_lower, plain, bin_operation, operation_of, create_operation,
  next_operation, create_operations, located, device_of, stream_of, requested_stream,
}

-- The names in the generated code's tables.
pub record Generated (names : EnumNames) : Type 0 where
  pub share_name : names.action_name share_code ≡ share
  pub bin_name : names.action_name bin_code ≡ bin
  pub moving_average_name : names.action_name moving_average_code ≡ moving_average_action
  pub unknown_name : names.exposure_name (pos 0) ≡ codes "UNKNOWN"
  pub indoor_name : names.exposure_name (pos 1) ≡ codes "INDOOR"
  pub outdoor_name : names.exposure_name (pos 2) ≡ codes "OUTDOOR"

-- The operation of a stream for an operation of a request: its sensor is not 0, its action is one of
-- the three, and it has bins or an interval just for the action that needs them.
pub data Translates {F : Type 0} (op : RequestOperation F) : Operation F → Type 0 where
  sharing :
      op.sensor_id ≢ 0
      → op.action ≡ share_code
      → Translates op (record { sensor_id = op.sensor_id; action = share; bins = []; interval = 0 })
  binning :
      op.sensor_id ≢ 0
      → op.action ≡ bin_code
      → op.bins ≢ []
      → Translates op
          (record { sensor_id = op.sensor_id; action = bin; bins = op.bins; interval = 0 })
  averaging :
      op.sensor_id ≢ 0
      → op.action ≡ moving_average_code
      → op.interval ≢ 0
      → Translates op (record {
        sensor_id = op.sensor_id;
        action = moving_average_action;
        bins = [];
        interval = op.interval;
      })

module _ {F : Type 0} where
  -- The two lists have the same length, and each translates to the other's.
  abbrev pub AllTranslate : List (RequestOperation F) → List (Operation F) → Type 0
  AllTranslate [] [] = Unit {0}
  AllTranslate [] (o ∷ os) = ⊥
  AllTranslate (op ∷ ops) [] = ⊥
  AllTranslate (op ∷ ops) (o ∷ os) = Translates op o × AllTranslate ops os

module _ {F : Type 0} (names : EnumNames) (generated : Generated names) where
  open generated use {share_name, bin_name, moving_average_name}

  abbrev Made : RequestOperation F → Result (Operation F) → Type 0
  Made op (ok o) = Translates op o
  Made op (err e) = Unit {0}
  Made op panic = ⊥

  bin_operation-Made :
      (op : RequestOperation F) (bins : List F)
      → op.sensor_id ≢ 0
      → op.action ≡ bin_code
      → op.bins ≡ bins
      → Made op (bin_operation names op bins)
  unfolding bin_operation
  bin_operation-Made op [] nz e same = tt
  bin_operation-Made op (b ∷ bins) nz e same =
      subst
        (λ (xs : List F).
          Made op
            (ok (record (plain names op) { action = names.action_name op.action; bins = xs })))
        same (rw (ap names.action_name e ∙ bin_name) (binning nz e λ empty. ground arith))

  average-Made :
      (op : RequestOperation F)
      → op.sensor_id ≢ 0
      → op.action ≡ moving_average_code
      → op.interval ≢ 0
      → Made op (ok (record (plain names op) { interval = op.interval }))
  average-Made op nz e some_interval =
      rw (ap names.action_name e ∙ moving_average_name) (averaging nz e some_interval)

  operation_of-Made :
      (op : RequestOperation F) (c : ActionCode)
      → op.sensor_id ≢ 0
      → op.action ≡ c
      → Made op (operation_of names op c)
  unfolding operation_of
  operation_of-Made op share_code nz e = rw (ap names.action_name e ∙ share_name) (sharing nz e)
  operation_of-Made op bin_code nz e = bin_operation-Made op op.bins nz e refl
  operation_of-Made op moving_average_code nz e = elim (Bool-cases (op.interval == 0)) [
    | inl zero ↦ rw zero tt
    | inr positive ↦ rw positive (average-Made op nz e (ground (arith, ==_iff op.interval 0)))
  ]
  operation_of-Made op (other_code n) nz e = tt

  create_operation-Made : (op : RequestOperation F) → Made op (create_operation names op)
  unfolding create_operation
  create_operation-Made op = elim (Bool-cases (op.sensor_id == 0)) [
    | inl zero ↦ rw zero tt
    | inr positive ↦
        rw positive (operation_of-Made op op.action (ground (arith, ==_iff op.sensor_id 0)) refl)
  ]

  -- How the loop ends, from the operations made so far.
  abbrev Ends :
      List (RequestOperation F) → List (Operation F) → Result (List (Operation F)) → Type 0
  Ends ops made (ok os) = (more : List (Operation F)) × (os ≡ made ++ more) × AllTranslate ops more
  Ends ops made (err e) = Unit {0}
  Ends ops made panic = ⊥

  Ends-next :
      (op : RequestOperation F) (ops : List (RequestOperation F)) (made : List (Operation F))
      (o : Operation F) (r : Result (List (Operation F)))
      → Translates op o
      → Ends ops (made ++ (o ∷ [])) r
      → Ends (op ∷ ops) made r
  Ends-next op ops made o (ok os) t (more, e, all) =
      (o ∷ more, e ∙ append_assoc made (o ∷ []) more, (t, all))
  Ends-next op ops made o (err x) t h = tt
  Ends-next op ops made o panic t h = h

  next_operation-Ends :
      (op : RequestOperation F) (ops : List (RequestOperation F)) (made : List (Operation F))
      (r : Result (Operation F))
      → Made op r
      → ((os : List (Operation F)) → Ends ops os (create_operations names ops os))
      → Ends (op ∷ ops) made (next_operation names (create_operations names ops) made r)
  unfolding next_operation
  next_operation-Ends op ops made (ok o) t ih = Ends-next op ops made o _ t (ih (made ++ (o ∷ [])))
  next_operation-Ends op ops made (err e) t ih = tt
  next_operation-Ends op ops made panic t ih = t

  create_operations-Ends :
      (ops : List (RequestOperation F)) (made : List (Operation F))
      → Ends ops made (create_operations names ops made)
  unfolding create_operations
  create_operations-Ends [] made = ([], sym (append-nil made), tt)
  create_operations-Ends (op ∷ ops) made =
      next_operation-Ends op ops made (create_operation names op) (create_operation-Made op)
        (create_operations-Ends ops)

  located-stream :
      (req : CreateRequest F) (o : Option (Location F)) (r : Result (List (Operation F)))
      (stream : Stream F)
      → Ends req.operations [] r
      → located names req o r ≡ ok stream
      → (l : Location F) × (os : List (Operation F)) × (stream ≡ stream_of names req l os)
        × (o ≡ some l)
        × AllTranslate req.operations os
  unfolding located
  located-stream req (some l) (ok os) stream (more, same, all) e =
      (l, os, ground arith, refl, subst (AllTranslate req.operations) (sym same) all)
  located-stream req none (ok os) stream h e = ground arith
  located-stream req (some l) (err x) stream h e = ground arith
  located-stream req none (err x) stream h e = ground arith
  located-stream req (some l) panic stream h e = ground arith
  located-stream req none panic stream h e = ground arith

  -- A request with a location does not panic.
  located-no_panic :
      (req : CreateRequest F) (l : Location F) (r : Result (List (Operation F)))
      → Ends req.operations [] r
      → located names req (some l) r ≢ panic
  unfolding located
  located-no_panic req l (ok os) h e = ground arith
  located-no_panic req l (err x) h e = ground arith
  located-no_panic req l panic h e = h

  pub requested_stream-no_panic :
      (req : CreateRequest F) (l : Location F)
      → req.location ≡ some l
      → requested_stream names req ≢ panic
  unfolding requested_stream
  requested_stream-no_panic req l e p =
      located-no_panic req l (create_operations names req.operations [])
        (create_operations-Ends req.operations [])
        (ap (λ o. located names req o (create_operations names req.operations [])) (sym e) ∙ p)

  -- The stream that is made of a request, by its location and its operations.
  pub requested_stream-located :
      (req : CreateRequest F) (stream : Stream F)
      → requested_stream names req ≡ ok stream
      → (l : Location F) × (os : List (Operation F)) × (stream ≡ stream_of names req l os)
        × (req.location ≡ some l)
        × AllTranslate req.operations os
  unfolding requested_stream
  requested_stream-located req stream e =
      located-stream req req.location (create_operations names req.operations []) stream
        (create_operations-Ends req.operations []) e

  -- With the names of the generated code, the stream that is made of a request has the request's
  -- community, the recipient's public key and the device's token and label, the location of the request
  -- and the exposure's name in lower case; it has no uuid and no token yet; and it has one operation for
  -- each of the request, in their order, whose sensor is not 0, whose action the pipeline knows, and
  -- which has bins or an interval just where its action needs them.
  pub requested_stream_lem :
      (req : CreateRequest F) (stream : Stream F)
      → requested_stream names req ≡ ok stream
      → (l : Location F) × (row : DeviceRow F) × (req.location ≡ some l)
        × (stream.device ≡ some row)
        × (stream.community_id ≡ req.community_id)
        × (stream.public_key ≡ req.recipient_public_key)
        × (row.device_token ≡ req.device_token)
        × (row.label ≡ req.device_label)
        × (row.longitude ≡ l.longitude)
        × (row.latitude ≡ l.latitude)
        × (row.exposure ≡ to_lower (names.exposure_name req.exposure))
        × (stream.stream_id ≡ [])
        × (stream.token ≡ [])
        × AllTranslate req.operations stream.operations
  requested_stream_lem req stream e =
      let (l, os, is, located, all) = requested_stream-located req stream e in
      (
        l,
        device_of names req l,
        located,
        ap (λ (s : Stream F). s.device) is,
        ap (λ (s : Stream F). s.community_id) is,
        ap (λ (s : Stream F). s.public_key) is,
        refl,
        refl,
        refl,
        refl,
        refl,
        ap (λ (s : Stream F). s.stream_id) is,
        ap (λ (s : Stream F). s.token) is,
        subst (AllTranslate req.operations) (sym (ap (λ (s : Stream F). s.operations) is)) all,
      )

-- With the names of the generated code, the exposures of the protocol, 0 to 2, become values of the
-- database's enumeration.
pub to_lower-is_exposure :
    (names : EnumNames) (generated : Generated names) (exposure : ℤ)
    → (exposure ≡ pos 0) ⊎ ((exposure ≡ pos 1) ⊎ (exposure ≡ pos 2))
    → is_exposure (to_lower (names.exposure_name exposure)) ≡ true
unfolding to_lower is_exposure text_eq
to_lower-is_exposure names generated exposure (inl e) =
    rw (ap names.exposure_name e ∙ generated.unknown_name) refl
to_lower-is_exposure names generated exposure (inr (inl e)) =
    rw (ap names.exposure_name e ∙ generated.indoor_name) refl
to_lower-is_exposure names generated exposure (inr (inr e)) =
    rw (ap names.exposure_name e ∙ generated.outdoor_name) refl
