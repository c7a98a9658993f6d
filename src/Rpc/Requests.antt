-- ===== src/Rpc/Requests.antt =====
-- The requests of pkg/rpc/encoder.go: their validation, and the stream that a valid one describes. The
-- messages are those of the generated package encoder, with the fields that the code reads; a decoded
-- list of operations holds no nil.
pub mod Ranges
pub mod Translation
use iotencoder.Common.{
  ℕ, ◌+◌, ◌==◌, ltb, ℤ, pos, negsuc, Text, is_empty, Bool, true, false, ◌&&◌, ◌||◌, not, List, [],
  ◌∷◌, ◌++◌, map, Option, none, some, Error, Result, ok, err, panic, required_argument,
  invalid_argument, if◌then◌else◌,
}
use iotencoder.Common.Float.{Float64}
use iotencoder.Postgres.Types.{Operation, Stream, DeviceRow}

pub data ActionCode : Type 0 where
  share_code : ActionCode
  bin_code : ActionCode
  moving_average_code : ActionCode
  other_code : ℤ → ActionCode

pub record RequestOperation (F : Type 0) : Type 0 where
  pub sensor_id : ℕ
  pub action : ActionCode
  pub bins : List F
  pub interval : ℕ

pub record Location (F : Type 0) : Type 0 where
  pub longitude : F
  pub latitude : F

pub record CreateRequest (F : Type 0) : Type 0 where
  pub device_token : Text
  pub device_label : Text
  pub community_id : Text
  pub recipient_public_key : Text
  pub location : Option (Location F)
  pub exposure : ℤ
  pub operations : List (RequestOperation F)

pub record DeleteRequest : Type 0 where
  pub stream_uid : Text
  pub token : Text

-- `String` of the generated enumerations.
pub record EnumNames : Type 0 where
  pub action_name : ActionCode → Text
  pub exposure_name : ℤ → Text

-- `strings.ToLower`, on ASCII.
abbrev lower : ℕ → ℕ
lower c = if not (ltb c b'A') && ltb c b'[' then c + 32 else c

unfoldable pub to_lower : Text → Text
to_lower t = map lower t

module _ {F : Type 0} ⦃f : Float64 F⦄ where
  abbrev outside_range : F → ℤ → ℤ → Bool
  outside_range x low high = f.lt x (f.from_int low) || f.lt (f.from_int high) x

  -- The checks of the location, from that of its pointer on.
  validate_location : Option (Location F) → Option Error
  validate_location none = some (required_argument "location")
  validate_location (some l) =
      if f.eq l.longitude (f.from_int (pos 0))
      then some (required_argument "longitude")
      else (if outside_range l.longitude (negsuc 179) (pos 180)
          then some (invalid_argument "longitude" "must be between -180 and 180")
          else (if f.eq l.latitude (f.from_int (pos 0))
              then some (required_argument "latitude")
              else (if outside_range l.latitude (negsuc 89) (pos 90)
                  then some (invalid_argument "latitude" "must be between -90 and 90")
                  else none)))

  -- `validateCreateRequest`; `none` is nil.
  unfoldable pub validate_create_request : CreateRequest F → Option Error
  unfolding validate_location
  validate_create_request req =
      if is_empty req.device_token
      then some (required_argument "device_token")
      else (if is_empty req.device_label
          then some (required_argument "device_label")
          else (if is_empty req.community_id
              then some (required_argument "community_id")
              else (if is_empty req.recipient_public_key
                  then some (required_argument "recipient_public_key")
                  else validate_location req.location)))

-- `validateDeleteRequest`
unfoldable pub validate_delete_request : DeleteRequest → Option Error
validate_delete_request req =
    if is_empty req.stream_uid
    then some (required_argument "stream_uid")
    else (if is_empty req.token then some (required_argument "token") else none)

module _ {F : Type 0} (names : EnumNames) where
  abbrev plain : RequestOperation F → Operation F
  plain op = record {
    sensor_id = op.sensor_id;
    action = names.action_name op.action;
    bins = [];
    interval = 0;
  }

  bin_operation : RequestOperation F → List F → Result (Operation F)
  bin_operation op [] =
      err (invalid_argument "operations" "binning requires a non-empty list of bins")
  bin_operation op (b ∷ bins) = ok (record (plain op) { bins = b ∷ bins })

  -- The switch on the action.
  operation_of : RequestOperation F → ActionCode → Result (Operation F)
  unfolding bin_operation
  operation_of op share_code = ok (plain op)
  operation_of op bin_code = bin_operation op op.bins
  operation_of op moving_average_code =
      if op.interval == 0
      then err (invalid_argument "operations" "moving average requires a non-zero interval")
      else ok (record (plain op) { interval = op.interval })
  operation_of op (other_code n) = err (invalid_argument "operations" "foo")

  -- `createOperation`
  create_operation : RequestOperation F → Result (Operation F)
  unfolding operation_of
  create_operation op =
      if op.sensor_id == 0
      then err (invalid_argument "operations" "require a non-zero sensor id")
      else operation_of op op.action

  -- The loop over the operations, with those made so far.
  next_operation :
      (List (Operation F) → Result (List (Operation F)))
      → List (Operation F)
      → Result (Operation F)
      → Result (List (Operation F))
  next_operation rest made (ok o) = rest (made ++ (o ∷ []))
  next_operation rest made (err e) = err e
  next_operation rest made panic = panic

  create_operations : List (RequestOperation F) → List (Operation F) → Result (List (Operation F))
  unfolding next_operation create_operation
  create_operations [] made = ok made
  create_operations (op ∷ ops) made =
      next_operation (create_operations ops) made (create_operation op)

  abbrev pub device_of : CreateRequest F → Location F → DeviceRow F
  device_of req l = record {
    id = 0;
    device_token = req.device_token;
    label = req.device_label;
    longitude = l.longitude;
    latitude = l.latitude;
    exposure = to_lower (names.exposure_name req.exposure);
  }

  abbrev pub stream_of : CreateRequest F → Location F → List (Operation F) → Stream F
  stream_of req l operations = record {
    community_id = req.community_id;
    public_key = req.recipient_public_key;
    operations = operations;
    stream_id = [];
    token = [];
    device = some (device_of req l);
  }

  -- The literal at the end; a missing location is read through a nil pointer.
  located : CreateRequest F → Option (Location F) → Result (List (Operation F)) → Result (Stream F)
  located req (some l) (ok operations) = ok (stream_of req l operations)
  located req none (ok operations) = panic
  located req l (err e) = err e
  located req l panic = panic

  -- `createStream`
  unfoldable pub requested_stream : CreateRequest F → Result (Stream F)
  unfolding create_operations located
  requested_stream req = located req req.location (create_operations req.operations [])
