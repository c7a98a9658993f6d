-- ===== src/Mocks/Sets.antt =====
-- The double of pkg/mocks/mqtt.go over any sequence of its methods: a set of keys and tokens.
use iotencoder.Common.{
  ◌≡◌, refl, Text, Bool, true, false, List, [], ◌∷◌, Option, none, some, arith, ◌∙◌, ◌≢◌, ◌&&◌, ap,
  subst, text_eq, text_eq_iff, Bool-cases, inl, inr, if◌then◌else◌,
}
use iotencoder.Common.Dict.{
  Dict, lookup, insert, remove, lookup-insert, lookup-insert_self, lookup-remove,
}
use iotencoder.Mqtt.{client_key}
use iotencoder.Mqtt.Connections.{Command, subscribing, unsubscribing}
use iotencoder.Mocks.{
  MockClient, new_mock, with_inner, mark_in, mark, no_tokens, answer, drop_found, drop_in,
  mock_subscribe, mock_unsubscribe,
}

-- Whether an inner map has the token, and whether the double has the pair.
unfoldable pub is_some : {A : Type 0} → Option A → Bool
is_some none = false
is_some (some _) = true

unfoldable pub has : Text → Option (Dict Bool) → Bool
unfolding is_some
has token none = false
has token (some inner) = is_some (lookup token inner)

unfoldable pub holds : Text → Text → Dict (Dict Bool) → Bool
unfolding has
holds key token m = has token (lookup key m)

-- The abstract set after some calls: whether the last of them about the pair was a subscription.
unfoldable pub wanted : Text → Text → Bool → List Command → Bool
wanted key token before [] = before
wanted key token before (subscribing b u t ∷ xs) =
    wanted key token (if text_eq (client_key b u) key && text_eq t token then true else before) xs
wanted key token before (unsubscribing b u t ∷ xs) =
    wanted key token (if text_eq (client_key b u) key && text_eq t token then false else before) xs

unfoldable pub mock_command : Command → MockClient → MockClient
mock_command (subscribing b u t) c = (mock_subscribe b u t c).1
mock_command (unsubscribing b u t) c = (mock_unsubscribe b u t c).1

unfoldable pub mock_run : List Command → MockClient → MockClient
mock_run [] c = c
mock_run (x ∷ xs) c = mock_run xs (mock_command x c)

has-insert :
    (token t : Text) (inner : Dict Bool)
    → has t (some (insert token true inner))
      ≡ (if text_eq token t then true else has t (some inner))
unfolding has is_some
has-insert token t inner = ground (arith, lookup-insert token t true inner)

has-remove :
    (token t : Text) (inner : Dict Bool)
    → has t (some (remove token inner)) ≡ (if text_eq token t then false else has t (some inner))
unfolding has is_some
has-remove token t inner = ground (arith, lookup-remove token t inner)

has-fresh : (t : Text) → has t (some []) ≡ false
unfolding has is_some lookup
has-fresh t = refl

-- The inner map of a key, empty where there is none.
abbrev pub inner_of : Option (Dict Bool) → Dict Bool
inner_of none = []
inner_of (some inner) = inner

lookup-mark :
    (key token k : Text) (m : Dict (Dict Bool))
    → lookup k (mark key token m)
      ≡ (if text_eq key k then some (insert token true (inner_of (lookup key m))) else lookup k m)
unfolding mark with_inner mark_in
lookup-mark key token k m = by (lookup key m) refl
  where
    by :
        (o : Option (Dict Bool))
        → lookup key m ≡ o
        → lookup k (mark key token m)
          ≡ (if text_eq key k then some (insert token true (inner_of o)) else lookup k m)
    by none e = rw e (
        rw (lookup-insert_self key [] m) (
          ground (
            arith,
            lookup-insert key k (insert token true []) (insert key [] m),
            lookup-insert key k [] m,
          )))
    by (some inner) e = rw e (rw e (lookup-insert key k (insert token true inner) m))

has-inner : (t : Text) (o : Option (Dict Bool)) → has t (some (inner_of o)) ≡ has t o
unfolding has is_some lookup
has-inner t none = refl
has-inner t (some inner) = refl

holds-mark :
    (key token k t : Text) (m : Dict (Dict Bool))
    → holds k t (mark key token m)
      ≡ (if text_eq key k && text_eq token t then true else holds k t m)
unfolding holds
holds-mark key token k t m = ground (
  arith,
  lookup-mark key token k m,
  has-insert token t (inner_of (lookup key m)),
  has-inner t (lookup key m),
  text_eq_iff key k,
)

is_empty_lem : (inner : Dict Bool) → no_tokens inner ≡ true → inner ≡ []
unfolding no_tokens
is_empty_lem [] e = refl
is_empty_lem (_ ∷ _) e = ground arith

holds-drop_found :
    (key token k t : Text) (m : Dict (Dict Bool)) (inner : Dict Bool) (o : Option Bool)
    → lookup key m ≡ some inner
    → lookup token inner ≡ o
    → holds k t (drop_found key token m inner o)
      ≡ (if text_eq key k && text_eq token t then false else holds k t m)
unfolding holds has is_some drop_found
holds-drop_found key token k t m inner none e h =
    ground (arith, text_eq_iff key k, text_eq_iff token t)
holds-drop_found key token k t m inner (some b) e h =
    elim (Bool-cases (no_tokens (remove token inner))) [
      | inl q ↦
          let gone : has t (some []) ≡ (if text_eq token t then false else has t (some inner)) =
            subst (λ x. has t (some x) ≡ (if text_eq token t then false else has t (some inner)))
              (is_empty_lem _ q) (has-remove token t inner) in
          rw q (ground (arith, lookup-remove key k m, text_eq_iff key k, gone, has-fresh t))
      | inr q ↦ rw q (
          ground (
            arith,
            lookup-insert key k (remove token inner) m,
            text_eq_iff key k,
            has-remove token t inner,
          ))
    ]

holds-drop_in :
    (key token k t : Text) (m : Dict (Dict Bool)) (o : Option (Dict Bool))
    → lookup key m ≡ o
    → holds k t (drop_in key token m o)
      ≡ (if text_eq key k && text_eq token t then false else holds k t m)
unfolding drop_in holds has
holds-drop_in key token k t m none e = ground (arith, text_eq_iff key k)
holds-drop_in key token k t m (some inner) e = holds-drop_found key token k t m inner _ e refl

-- No inner map is empty.
abbrev Full : Dict (Dict Bool) → Type 0
Full m = (key : Text) → lookup key m ≢ some []

insert-nonempty : (token : Text) (inner : Dict Bool) → insert token true inner ≢ []
unfolding insert
insert-nonempty token [] e = ground arith
insert-nonempty token ((k, b) ∷ inner) e = ground arith

mark-Full : (key token : Text) (m : Dict (Dict Bool)) → Full m → Full (mark key token m)
mark-Full key token m h k e =
    ground
      (arith, lookup-mark key token k m, insert-nonempty token (inner_of (lookup key m)), h k, e)

drop_found-Full :
    (key token : Text) (m : Dict (Dict Bool)) (inner : Dict Bool) (o : Option Bool)
    → Full m
    → Full (drop_found key token m inner o)
unfolding drop_found no_tokens
drop_found-Full key token m inner none h k = h k
drop_found-Full key token m inner (some b) h k = by (remove token inner)
  where
    by :
        (rest : Dict Bool)
        → lookup k (if no_tokens rest then remove key m else insert key rest m) ≢ some []
    by [] e = ground (arith, lookup-remove key k m, h k)
    by (x ∷ rest) e = ground (arith, lookup-insert key k (x ∷ rest) m, h k)

drop_in-Full :
    (key token : Text) (m : Dict (Dict Bool)) (o : Option (Dict Bool))
    → Full m
    → Full (drop_in key token m o)
unfolding drop_in
drop_in-Full key token m none h = h
drop_in-Full key token m (some inner) h = drop_found-Full key token m inner _ h

abbrev quiet_mock : Dict (Dict Bool) → MockClient
quiet_mock m = record { error = none; subscriptions = m }

run-Set :
    (xs : List Command) (m : Dict (Dict Bool))
    → Full m
    → let m' = (mock_run xs (quiet_mock m)).subscriptions in
      ((key token : Text) → holds key token m' ≡ wanted key token (holds key token m) xs) × Full m'
unfolding mock_run mock_command mock_subscribe mock_unsubscribe wanted answer
run-Set [] m h = (λ key token. refl, h)
run-Set (subscribing b u t ∷ xs) m h =
    let (later, full) = run-Set xs (mark (client_key b u) t m) (mark-Full (client_key b u) t m h) in
    (
      λ key token.
          later key token
          ∙ ap (λ w. wanted key token w xs) (holds-mark (client_key b u) t key token m),
      full,
    )
run-Set (unsubscribing b u t ∷ xs) m h =
    let key = client_key b u in
    let (later, full) = run-Set xs (drop_in key t m (lookup key m)) (drop_in-Full key t m _ h) in
    (
      λ k token.
          later k token ∙ ap (λ w. wanted k token w xs) (holds-drop_in key t k token m _ refl),
      full,
    )

-- From a new double that answers no error, over any calls of its methods: it has a token under a key
-- exactly when the last call about the two was a subscription, and no key has an empty map.
pub mock_run-Set :
    (xs : List Command)
    → let m = (mock_run xs (new_mock none)).subscriptions in
      ((key token : Text) → holds key token m ≡ wanted key token false xs)
      × ((key : Text) → lookup key m ≢ some [])
unfolding holds has lookup
mock_run-Set xs = run-Set xs [] (λ key e. ground arith)
