-- ===== src/Rpc/Topic/Matches.antt =====
-- What `extractToken` (pkg/rpc/encoder.go) finds in a topic, and in those that `buildTopic`
-- (pkg/mqtt/mqtt.go) makes.
use iotencoder.Common.{
  ℕ, ◌≡◌, refl, ==_iff, Text, codes, is_empty, true, false, [], ◌∷◌, ◌++◌, Option, none, some, ok,
  arith, sym, ◌∙◌, ap, subst, Bool-cases, inl, inr,
}
use iotencoder.Mqtt.{build_topic}
use iotencoder.Rpc.Topic.{
  is_word, strip, word, grouped, after_prefix, match_here, or_else, find_match, extracted,
  extract_token,
}

abbrev pub AllWord : Text → Type 0
AllWord [] = Unit {0}
AllWord (c ∷ t) = (is_word c ≡ true) × AllWord t

word-append :
    (w rest : Text) (d : ℕ) → AllWord w → is_word d ≡ false → word (w ++ (d ∷ rest)) ≡ (w, d ∷ rest)
unfolding word
word-append [] rest d h n = rw n refl
word-append (c ∷ w) rest d h n = rw (word-append w rest d h.1 n, h.0) refl

strip-some : (p t rest : Text) → strip p t ≡ some rest → t ≡ p ++ rest
unfolding strip
strip-some [] t rest e = ground arith
strip-some (c ∷ p) [] rest e = ground arith
strip-some (c ∷ p) (d ∷ t) rest e = ground (arith, ==_iff c d, strip-some p t rest)

word-parts : (t : Text) → (t ≡ (word t).0 ++ (word t).1) × AllWord (word t).0
unfolding word
word-parts [] = (refl, tt)
word-parts (c ∷ t) = elim (Bool-cases (is_word c)) [
  | inl w ↦ rw w (ap (λ x. c ∷ x) (word-parts t).0, (w, (word-parts t).1))
  | inr n ↦ rw n (refl, tt)
]

-- A match is a word that stands between the two parts of a topic.
abbrev pub Matched : Text → Text → Type 0
Matched topic token =
    (before : Text) × (after : Text) × (topic
      ≡ before ++ (codes "device/sck/" ++ (token ++ (codes "/readings" ++ after))))

grouped-some :
    (p : Text × Text) (token : Text)
    → AllWord p.0
    → grouped p ≡ some token
    → (after : Text) × (p.0 ++ p.1 ≡ token ++ (codes "/readings" ++ after))
      × AllWord token
      × (is_empty token ≡ false)
unfolding grouped
grouped-some ([], rest) token h e = ground arith
grouped-some (c ∷ w, rest) token h e = by_end (strip (codes "/readings") rest) refl e
  where
    by_end :
        (o : Option Text)
        → strip (codes "/readings") rest ≡ o
        → (elim o as (λ _. Option Text) [ some _ ↦ some (c ∷ w) | none ↦ none ]) ≡ some token
        → (after : Text) × ((c ∷ w) ++ rest ≡ token ++ (codes "/readings" ++ after))
          × AllWord token
          × (is_empty token ≡ false)
    by_end none s x = ground arith
    by_end (some after) s x =
        let same : c ∷ w ≡ token = ground arith in
        (
          after,
          ap (λ t. (c ∷ w) ++ t) (strip-some (codes "/readings") rest after s)
              ∙ ap (λ t. t ++ (codes "/readings" ++ after)) same,
          subst AllWord same h,
          ap is_empty (sym same),
        )

after_prefix-some :
    (t token : Text) (o : Option Text)
    → strip (codes "device/sck/") t ≡ o
    → after_prefix o ≡ some token
    → Matched t token × AllWord token × (is_empty token ≡ false)
unfolding after_prefix
after_prefix-some t token none s e = ground arith
after_prefix-some t token (some rest) s e =
    let (split, all) = word-parts rest in
    let (after, same, w, full) = grouped-some (word rest) token all e in
    (
      (
        [],
        after,
        strip-some (codes "device/sck/") t rest s
            ∙ ap (λ x. codes "device/sck/" ++ x) (split ∙ same),
      ),
      w,
      full,
    )

find_match-some :
    (topic token : Text)
    → find_match topic ≡ some token
    → Matched topic token × AllWord token × (is_empty token ≡ false)
unfolding find_match match_here or_else
find_match-some [] token e = after_prefix-some [] token _ refl e
find_match-some (c ∷ t) token e = by_here (match_here (c ∷ t)) refl (find_match-some t token) e
  where
    by_here :
        (o : Option Text)
        → match_here (c ∷ t) ≡ o
        → (find_match t ≡ some token → Matched t token × AllWord token × (is_empty token ≡ false))
        → or_else o (find_match t) ≡ some token
        → Matched (c ∷ t) token × AllWord token × (is_empty token ≡ false)
    by_here (some w) here later x = after_prefix-some (c ∷ t) token _ refl (here ∙ x)
    by_here none here later x =
        let ((before, after, same), w, full) = later x in
        ((c ∷ before, after, ap (λ y. c ∷ y) same), w, full)

-- A token that `extract_token` answers is a word that is not empty and stands in the topic between
-- `device/sck/` and `/readings`.
pub extract_token-Matched :
    (topic token : Text)
    → extract_token topic ≡ ok token
    → Matched topic token × AllWord token × (is_empty token ≡ false)
unfolding extract_token extracted
extract_token-Matched topic token e = by_match (find_match topic) refl e
  where
    by_match :
        (o : Option Text)
        → find_match topic ≡ o
        → extracted o ≡ ok token
        → Matched topic token × AllWord token × (is_empty token ≡ false)
    by_match none m x = ground arith
    by_match (some w) m x = find_match-some topic token (m ∙ ground arith)

-- The token of a topic that `build_topic` makes of a word that is not empty is the word.
pub extract_token-build_topic :
    (token : Text)
    → AllWord token
    → is_empty token ≡ false
    → extract_token (build_topic token) ≡ ok token
unfolding extract_token build_topic find_match match_here strip after_prefix or_else extracted
extract_token-build_topic [] h e = ground arith
extract_token-build_topic (c ∷ w) h e =
    rw (word-append (c ∷ w) (codes "readings") b'/' h (unfold is_word in refl))
      (unfold grouped strip in refl)
