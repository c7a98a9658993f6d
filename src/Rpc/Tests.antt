-- ===== src/Rpc/Tests.antt =====
-- The theorems on pkg/rpc at concrete inputs.
use iotencoder.Common.{
  ◌≡◌, refl, ℤ, pos, Text, codes, is_empty, List, [], ◌∷◌, some, ok, arith, false, eq_ℤ,
  if◌then◌else◌,
}
use iotencoder.Common.Float.{Whole, whole_float, Whole-IsIeee}
use iotencoder.Postgres.Types.{DeviceRow, Operation, share, bin, moving_average_action}
use iotencoder.Mqtt.{build_topic}
use iotencoder.Rpc.Requests.{
  ActionCode, share_code, bin_code, moving_average_code, other_code, Location, CreateRequest,
  EnumNames, to_lower, stream_of, validate_create_request, requested_stream,
}
use iotencoder.Rpc.Requests.Ranges.{Valid, validate_create_request-Valid}
use iotencoder.Rpc.Requests.Translation.{Generated, AllTranslate, requested_stream_lem}
use iotencoder.Rpc.Topic.{extract_token, find_match, match_here, strip, word, grouped, is_word}
use iotencoder.Rpc.Topic.Matches.{
  AllWord, Matched, extract_token-Matched, extract_token-build_topic,
}

abbrev pub action_name : ActionCode → Text
action_name share_code = share
action_name bin_code = bin
action_name moving_average_code = moving_average_action
action_name (other_code n) = codes "UNKNOWN"

abbrev pub exposure_name : ℤ → Text
exposure_name e =
    if eq_ℤ e (pos 1)
    then codes "INDOOR"
    else (if eq_ℤ e (pos 2) then codes "OUTDOOR" else codes "UNKNOWN")

abbrev pub names : EnumNames
names = record { action_name = action_name; exposure_name = exposure_name }

pub names-Generated : Generated names
names-Generated = record {
  share_name = refl;
  bin_name = refl;
  moving_average_name = refl;
  unknown_name = refl;
  indoor_name = refl;
  outdoor_name = refl;
}

abbrev pub request : Location Whole → CreateRequest Whole
request l = record {
  device_token = codes "abc_1";
  device_label = codes "label";
  community_id = codes "community";
  recipient_public_key = codes "key";
  location = some l;
  exposure = pos 1;
  operations =
      record { sensor_id = 12; action = bin_code; bins = some (pos 5) ∷ []; interval = 9 } ∷ [];
}

abbrev pub barcelona : Location Whole
barcelona = record { longitude = some (pos 2); latitude = some (pos 41) }

validate_create_request-Valid_example : Valid (request barcelona)
unfolding validate_create_request
validate_create_request-Valid_example =
    validate_create_request-Valid Whole-IsIeee (request barcelona) refl

abbrev fits : List (Operation Whole)
fits = record { sensor_id = 12; action = bin; bins = some (pos 5) ∷ []; interval = 0 } ∷ []

requested_stream_lem_example :
    let req : CreateRequest Whole = request barcelona in
    let stream = stream_of names req barcelona fits in
    (l : Location Whole) × (row : DeviceRow Whole) × (some barcelona ≡ some l)
    × (stream.device ≡ some row)
    × (stream.community_id ≡ req.community_id)
    × (stream.public_key ≡ req.recipient_public_key)
    × (row.device_token ≡ req.device_token)
    × (row.label ≡ req.device_label)
    × (row.longitude ≡ l.longitude)
    × (row.latitude ≡ l.latitude)
    × (row.exposure ≡ to_lower (names.exposure_name req.exposure))
    × (stream.stream_id ≡ [])
    × (stream.token ≡ [])
    × AllTranslate req.operations stream.operations
unfolding requested_stream
requested_stream_lem_example =
    requested_stream_lem names names-Generated (request barcelona)
      (stream_of names (request barcelona) barcelona fits) refl

-- The pattern is not anchored.
extract_token-Matched_example :
    Matched (codes "x/device/sck/abc_1/readings/raw") (codes "abc_1")
    × AllWord (codes "abc_1")
    × (is_empty (codes "abc_1") ≡ false)
unfolding extract_token find_match match_here strip word grouped is_word
extract_token-Matched_example =
    extract_token-Matched (codes "x/device/sck/abc_1/readings/raw") (codes "abc_1") refl

extract_token-build_topic_example : extract_token (build_topic (codes "abc_1")) ≡ ok (codes "abc_1")
unfolding is_word
extract_token-build_topic_example =
    extract_token-build_topic (codes "abc_1") (refl, (refl, (refl, (refl, (refl, tt))))) refl

pub dashed-not_word : AllWord (codes "a-b") → ⊥
unfolding is_word
dashed-not_word (a, (dash, rest)) = ground arith
