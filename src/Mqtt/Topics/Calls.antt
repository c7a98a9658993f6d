-- ===== src/Mqtt/Topics/Calls.antt =====
-- `Subscribe` and `Unsubscribe` of pkg/mqtt/mqtt.go when no call of paho fails: which topics the
-- connections have afterwards.
use iotencoder.Common.{
  ℕ, ◌+◌, ◌==◌, ◌≡◌, refl, Text, Bool, true, false, [], ◌∷◌, ◌++◌, Option, none, some, ok, Result,
  arith, ◌∙◌, ap, text_eq, text_eq_iff, if◌then◌else◌, ◌&&◌,
}
use iotencoder.Common.Dict.{lookup}
use iotencoder.Mqtt.{
  Event, subscribed, unsubscribed, Client, new_client, client_key, build_topic, answered, tell,
  with_client, get_client, subscribe, unsubscribe,
}
use iotencoder.Mqtt.Topics.{
  effect, current, live_on, live, current-append, topic_eq, Tracks, get_client-quiet,
}

-- The client after paho was told of a topic on a connection.
abbrev told : Bool → ℕ → Text → Event
told true n topic = subscribed n topic
told false n topic = unsubscribed n topic

abbrev after : Event → Client → Client
after e c = record c { calls = c.calls + 1; log = c.log ++ (e ∷ []) }

effect-told :
    (v : Bool) (m n : ℕ) (t topic : Text) (b : Bool)
    → effect m topic b (told v n t) ≡ (if n == m && text_eq t topic then v else b)
unfolding effect
effect-told true m n t topic b = refl
effect-told false m n t topic b = refl

after-Tracks :
    (v : Bool) (key : Text) (n : ℕ) (topic : Text) (c : Client)
    → lookup key c.clients ≡ some n
    → Tracks c
    → Tracks (after (told v n topic) c)
after-Tracks v key n topic c e h = record {
  below = λ k m l. ground (arith, h.below k m l);
  apart = h.apart;
  fresh = λ m t l. ground (
    arith,
    current-append m t false c.log (told v n topic),
    effect-told v m n topic t (current m t false c.log),
    h.fresh m t,
    h.below key n e,
    l,
  );
}

after-live :
    (v : Bool) (key k token t : Text) (n : ℕ) (c : Client)
    → lookup key c.clients ≡ some n
    → Tracks c
    → live k t (after (told v n (build_topic token)) c)
      ≡ (if text_eq key k && text_eq token t then v else live k t c)
unfolding live live_on
after-live v key k token t n c e h = by (lookup k c.clients) refl
  where
    by :
        (o : Option ℕ)
        → lookup k c.clients ≡ o
        → live_on t (c.log ++ (told v n (build_topic token) ∷ [])) o
          ≡ (if text_eq key k && text_eq token t then v else live_on t c.log o)
    by none q = ground (arith, text_eq_iff key k, e, q)
    by (some m) q = ground (
      arith,
      current-append m (build_topic t) false c.log (told v n (build_topic token)),
      effect-told v m n (build_topic token) (build_topic t) (current m (build_topic t) false c.log),
      topic_eq token t,
      text_eq_iff key k,
      e,
      q,
      h.apart key k m,
    )

-- A call of a method: it succeeds, and only the topic on the connection of its key is changed.
abbrev Tells : Bool → Text → Text → Client → Result (Unit {0}) × Client → Type 0
Tells v key token c r =
    (r.0 ≡ ok tt)
    × Tracks r.1
    × ((k t : Text) → live k t r.1 ≡ (if text_eq key k && text_eq token t then v else live k t c))

told-Tells :
    (v : Bool) (b u token : Text) (c : Client)
    → Tracks c
    → Tells v
        (client_key b u)
        token
        c
        (with_client (λ _. none) (λ n. told v n (build_topic token)) (get_client (λ _. none) b u c))
unfolding with_client tell answered
told-Tells v b u token c h =
    let (n, c', made, h', e, same) = get_client-quiet b u c h in
    rw made (
      refl,
      after-Tracks v (client_key b u) n (build_topic token) c' e h',
      λ k t.
          after-live v (client_key b u) k token t n c' e h'
          ∙ ap (λ w. if text_eq (client_key b u) k && text_eq token t then v else w) (same k t),
    )

pub subscribe-live :
    (b u token : Text) (c : Client)
    → Tracks c
    → let r = subscribe (λ _. none) b u token c in
      (r.0 ≡ ok tt)
      × Tracks r.1
      × ((k t : Text)
          → live k t r.1
            ≡ (if text_eq (client_key b u) k && text_eq token t then true else live k t c))
unfolding subscribe
subscribe-live b u token c h = told-Tells true b u token c h

pub unsubscribe-live :
    (b u token : Text) (c : Client)
    → Tracks c
    → let r = unsubscribe (λ _. none) b u token c in
      (r.0 ≡ ok tt)
      × Tracks r.1
      × ((k t : Text)
          → live k t r.1
            ≡ (if text_eq (client_key b u) k && text_eq token t then false else live k t c))
unfolding unsubscribe
unsubscribe-live b u token c h = told-Tells false b u token c h

pub new_client-Tracks : Tracks new_client
unfolding lookup current
new_client-Tracks = record {
  below = λ k n e. ground (arith, e);
  apart = λ k j n e d. ground (arith, e);
  fresh = λ n t l. refl;
}
