-- ===== src/Rpc/Topic.antt =====
-- `extractToken` of pkg/rpc/encoder.go: the pattern `device/sck/(\w+)/readings`, which may match
-- anywhere in a topic; the leftmost match counts.
pub mod Matches
pub mod Refusal
use iotencoder.Common.{
  ℕ, ◌+◌, ◌==◌, ltb, leb, Text, codes, is_empty, Bool, true, false, ◌&&◌, ◌||◌, List, [], ◌∷◌, ◌++◌,
  Option, none, some, Error, Result, ok, err, new, if◌then◌else◌,
}

-- `\w`
unfoldable pub is_word : ℕ → Bool
is_word c =
    (leb b'0' c && leb c b'9')
    || (leb b'A' c && leb c b'Z')
    || (leb b'a' c && leb c b'z')
    || c == b'_'

-- The text after a prefix.
unfoldable pub strip : Text → Text → Option Text
strip [] t = some t
strip (c ∷ p) [] = none
strip (c ∷ p) (d ∷ t) = if c == d then strip p t else none

-- The longest run of word characters, and the rest. A shorter run cannot be followed by a slash.
unfoldable pub word : Text → Text × Text
word [] = ([], [])
word (c ∷ t) = let (w, rest) = word t in if is_word c then (c ∷ w, rest) else ([], c ∷ t)

-- The group, if `/readings` follows the run and the run is not empty.
unfoldable pub grouped : Text × Text → Option Text
grouped ([], rest) = none
grouped (c ∷ w, rest) = elim (strip (codes "/readings") rest) [
  | some _ ↦ some (c ∷ w)
  | none ↦ none
]

after_prefix : Option Text → Option Text
unfolding grouped
after_prefix none = none
after_prefix (some t) = grouped (word t)

-- The match at the beginning of a text.
unfoldable pub match_here : Text → Option Text
unfolding after_prefix
match_here t = after_prefix (strip (codes "device/sck/") t)

or_else : Option Text → Option Text → Option Text
or_else (some w) rest = some w
or_else none rest = rest

-- `FindStringSubmatch`
unfoldable pub find_match : Text → Option Text
unfolding or_else
find_match [] = match_here []
find_match (c ∷ t) = or_else (match_here (c ∷ t)) (find_match t)

extracted : Option Text → Result Text
extracted none = err (new "Unable to extract device token")
extracted (some token) = ok token

-- `extractToken`
unfoldable pub extract_token : Text → Result Text
unfolding extracted find_match
extract_token topic = extracted (find_match topic)
