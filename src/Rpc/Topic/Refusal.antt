-- ===== src/Rpc/Topic/Refusal.antt =====
-- The device tokens whose topic (`buildTopic`, pkg/mqtt/mqtt.go) `extractToken` (pkg/rpc/encoder.go)
-- does not recognise.
use iotencoder.Common.{
  ℕ, ◌+◌, ◌≡◌, ◌≢◌, refl, ◌==◌, ==_iff, Text, codes, [], ◌∷◌, ◌++◌, Option, none, some, ok, err,
  new, arith, sym, subst, ◌∙◌, ap, if◌then◌else◌,
}
use mathlib.Core.List.{append_assoc}
use iotencoder.Mqtt.{build_topic}
use iotencoder.Rpc.Topic.{is_word, find_match, extracted, extract_token}
use iotencoder.Rpc.Topic.Matches.{AllWord, extract_token-Matched}

-- The number of slashes.
slashes : Text → ℕ
slashes [] = 0
slashes (c ∷ t) = if c == b'/' then slashes t + 1 else slashes t

abbrev pub NoSlash : Text → Type 0
NoSlash [] = Unit {0}
NoSlash (c ∷ t) = (c ≢ b'/') × NoSlash t

slashes-append : (s t : Text) → slashes (s ++ t) ≡ slashes s + slashes t
unfolding slashes
slashes-append [] t = omega arith
slashes-append (c ∷ s) t = ground (arith, slashes-append s t)

slashes-NoSlash : (t : Text) → NoSlash t → slashes t ≡ 0
unfolding slashes
slashes-NoSlash [] h = refl
slashes-NoSlash (c ∷ t) h = ground (arith, slashes-NoSlash t h.1, ==_iff c b'/')

NoSlash-slashes : (t : Text) → slashes t ≡ 0 → NoSlash t
unfolding slashes
NoSlash-slashes [] h = tt
NoSlash-slashes (c ∷ t) h = (ground (arith, ==_iff c b'/'), NoSlash-slashes t (ground arith))

AllWord-NoSlash : (t : Text) → AllWord t → NoSlash t
unfolding is_word
AllWord-NoSlash [] h = tt
AllWord-NoSlash (c ∷ t) h = (λ e. ground arith, AllWord-NoSlash t h.1)

-- A text cut at its first slash.
first_cut : Text → Option (Text × Text)
first_cut [] = none
first_cut (c ∷ t) =
    if c == b'/'
    then some ([], t)
    else (elim (first_cut t) [ some (a, b) ↦ some (c ∷ a, b) | none ↦ none ])

first_cut-append : (s t : Text) → NoSlash s → first_cut (s ++ (b'/' ∷ t)) ≡ some (s, t)
unfolding first_cut
first_cut-append [] t h = refl
first_cut-append (c ∷ s) t h = ground (arith, first_cut-append s t h.1, ==_iff c b'/')

cut_injective :
    (s s' t t' : Text)
    → NoSlash s
    → NoSlash s'
    → s ++ (b'/' ∷ t) ≡ s' ++ (b'/' ∷ t')
    → (s ≡ s') × (t ≡ t')
cut_injective s s' t t' h h' e =
    ground (arith, first_cut-append s t h, first_cut-append s' t' h', ap first_cut e)

-- The parts of a topic, after the first slash.
abbrev tail_of : Text → Text → Text
tail_of token after = codes "sck" ++ (b'/' ∷ (token ++ (b'/' ∷ (codes "readings" ++ after))))

slashes-prefix : (t : Text) → slashes (codes "device/sck/" ++ t) ≡ slashes t + 2
unfolding slashes
slashes-prefix t = omega arith

slashes-suffix : (t : Text) → slashes (codes "/readings" ++ t) ≡ slashes t + 1
unfolding slashes
slashes-suffix t = omega arith

slashes-topic :
    (w after : Text)
    → slashes (codes "device/sck/" ++ (w ++ (codes "/readings" ++ after)))
      ≡ slashes w + slashes after + 3
slashes-topic w after = omega (
  arith,
  slashes-prefix (w ++ (codes "/readings" ++ after)),
  slashes-append w (codes "/readings" ++ after),
  slashes-suffix after,
)

before-NoSlash :
    (token w before after : Text)
    → NoSlash token
    → AllWord w
    → codes "device/sck/" ++ (token ++ (codes "/readings" ++ []))
      ≡ before ++ (codes "device/sck/" ++ (w ++ (codes "/readings" ++ after)))
    → NoSlash before
before-NoSlash token w before after h a e = NoSlash-slashes before (
    omega (
      arith,
      ap slashes e,
      slashes-append before (codes "device/sck/" ++ (w ++ (codes "/readings" ++ after))),
      slashes-topic token [],
      slashes-topic w after,
      slashes-NoSlash token h,
      slashes-NoSlash [] tt,
    ))

-- For a token without a slash, `extract_token` finds in its topic nothing but the token.
same_token :
    (token w : Text)
    → NoSlash token
    → extract_token (build_topic token) ≡ ok w
    → (w ≡ token) × AllWord token
unfolding build_topic
same_token token w h e =
    let ((before, after, same), all, full) = extract_token-Matched (build_topic token) w e in
    let topics : codes "device/sck/" ++ (token ++ (codes "/readings" ++ []))
        ≡ before ++ (codes "device/sck/" ++ (w ++ (codes "/readings" ++ after))) =
      same in
    let clear = before-NoSlash token w before after h all topics in
    let device_clear : NoSlash (codes "device") = omega arith in
    let sck_clear : NoSlash (codes "sck") = omega arith in
    let before_clear : NoSlash (before ++ codes "device") =
      NoSlash-slashes (before ++ codes "device") (
        omega (
          arith,
          slashes-append before (codes "device"),
          slashes-NoSlash before clear,
          slashes-NoSlash (codes "device") device_clear,
        )) in
    let (_, rest) =
      cut_injective (codes "device") (before ++ codes "device") (tail_of token []) (tail_of w after)
        device_clear before_clear
        (topics ∙ sym (append_assoc before (codes "device") (b'/' ∷ tail_of w after))) in
    let (_, rest2) =
      cut_injective (codes "sck") (codes "sck") (token ++ (b'/' ∷ codes "readings"))
        (w ++ (b'/' ∷ (codes "readings" ++ after))) sck_clear sck_clear rest in
    let (found, _) =
      cut_injective token w (codes "readings") (codes "readings" ++ after) h (AllWord-NoSlash w all)
        rest2 in
    (sym found, subst AllWord (sym found) all)

-- A token that has no slash and is not made of word characters only is not found in its own topic:
-- `extract_token` answers an error.
pub extract_token-build_topic_refused :
    (token : Text)
    → NoSlash token
    → (AllWord token → ⊥)
    → extract_token (build_topic token) ≡ err (new "Unable to extract device token")
extract_token-build_topic_refused token h other = by_match (find_match (build_topic token)) refl
  where
    by_match :
        (o : Option Text)
        → find_match (build_topic token) ≡ o
        → extract_token (build_topic token) ≡ err (new "Unable to extract device token")
    by_match none m = unfold extract_token extracted in rw m refl
    by_match (some w) m =
        absurd (other (same_token token w h (unfold extract_token extracted in rw m refl)).1)
