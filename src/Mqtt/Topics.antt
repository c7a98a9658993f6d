-- ===== src/Mqtt/Topics.antt =====
-- Which topics the connections of pkg/mqtt/mqtt.go have after what paho was told, when no call of paho
-- fails.
pub mod Calls
use iotencoder.Common.{
  ℕ, ◌+◌, ◌≤◌, ◌<◌, ◌==◌, ◌≡◌, refl, Text, codes, Bool, true, false, List, [], ◌∷◌, ◌++◌, Option,
  none, some, ok, arith, ◌∙◌, ap, text_eq, text_eq_iff, if◌then◌else◌, ◌&&◌, append_cancel_right,
}
use iotencoder.Common.Dict.{lookup, insert, lookup-insert, lookup-insert_self}
use iotencoder.Mqtt.{
  Event, connected, subscribed, unsubscribed, Client, client_key, build_topic, connect, found,
  get_client,
}

-- Whether a connection has a topic after what paho was told: it was subscribed to, and not
-- unsubscribed from since.
unfoldable pub effect : ℕ → Text → Bool → Event → Bool
effect n topic b (subscribed m t) = if m == n && text_eq t topic then true else b
effect n topic b (unsubscribed m t) = if m == n && text_eq t topic then false else b
effect n topic b _ = b

unfoldable pub current : ℕ → Text → Bool → List Event → Bool
unfolding effect
current n topic b [] = b
current n topic b (e ∷ es) = current n topic (effect n topic b e) es

-- Whether messages of a device arrive over the connection of a key.
unfoldable pub live_on : Text → List Event → Option ℕ → Bool
unfolding current
live_on token es none = false
live_on token es (some n) = current n (build_topic token) false es

unfoldable pub live : Text → Text → Client → Bool
unfolding live_on
live key token c = live_on token c.log (lookup key c.clients)

pub current-append :
    (n : ℕ) (topic : Text) (b : Bool) (es : List Event) (e : Event)
    → current n topic b (es ++ (e ∷ [])) ≡ effect n topic (current n topic b es) e
unfolding current
current-append n topic b [] e = refl
current-append n topic b (x ∷ es) e = current-append n topic (effect n topic b x) es e

build_topic_injective : (s t : Text) → build_topic s ≡ build_topic t → s ≡ t
unfolding build_topic
build_topic_injective s t e = append_cancel_right s t (codes "/readings") (ground (arith, e))

-- Connections have the numbers of calls that were made, each that of one key, and a number that is
-- not yet used has no topic.
pub record Tracks (c : Client) : Type 0 where
  pub below : (key : Text) (n : ℕ) → lookup key c.clients ≡ some n → n < c.calls
  pub apart :
      (k j : Text) (n : ℕ) → lookup k c.clients ≡ some n → lookup j c.clients ≡ some n → k ≡ j
  pub fresh : (n : ℕ) (topic : Text) → c.calls ≤ n → current n topic false c.log ≡ false

pub topic_eq : (s t : Text) → text_eq (build_topic s) (build_topic t) ≡ text_eq s t
topic_eq s t = ground (
  arith,
  text_eq_iff (build_topic s) (build_topic t),
  text_eq_iff s t,
  build_topic_injective s t,
  ap build_topic,
)

-- The client after a connection for a key was made.
abbrev connected_to : Text → Client → Client
connected_to key c = record {
  clients = insert key c.calls c.clients;
  calls = c.calls + 1;
  log = c.log ++ (connected key c.calls ∷ []);
}

connected_to-Tracks :
    (key : Text) (c : Client) → lookup key c.clients ≡ none → Tracks c → Tracks (connected_to key c)
unfolding effect
connected_to-Tracks key c new h = record {
  below = λ k n e. ground (arith, lookup-insert key k c.calls c.clients, h.below k n, e);
  apart = λ k j n e d. ground (
    arith,
    lookup-insert key k c.calls c.clients,
    lookup-insert key j c.calls c.clients,
    text_eq_iff key k,
    text_eq_iff key j,
    h.apart k j n,
    h.below k n,
    h.below j n,
    e,
    d,
  );
  fresh = λ n topic l.
      current-append n topic false c.log (connected key c.calls)
      ∙ h.fresh n topic (ground (arith, l));
}

live_on-connected :
    (key token : Text) (m : ℕ) (es : List Event) (o : Option ℕ)
    → live_on token (es ++ (connected key m ∷ [])) o ≡ live_on token es o
unfolding live_on effect
live_on-connected key token m es none = refl
live_on-connected key token m es (some n) =
    current-append n (build_topic token) false es (connected key m)

connected_to-live :
    (key k token : Text) (c : Client)
    → lookup key c.clients ≡ none
    → Tracks c
    → live k token (connected_to key c) ≡ live k token c
unfolding live live_on
connected_to-live key k token c new h = live_on-connected key token c.calls c.log _ ∙ moved
  where
    moved :
        live_on token c.log (lookup k (insert key c.calls c.clients))
        ≡ live_on token c.log (lookup k c.clients)
    moved = ground (
      arith,
      lookup-insert key k c.calls c.clients,
      text_eq_iff key k,
      new,
      h.fresh c.calls (build_topic token),
    )

-- `get_client` when no call of paho fails.
pub get_client-quiet :
    (b u : Text) (c : Client)
    → Tracks c
    → (n : ℕ) × (c' : Client) × (get_client (λ _. none) b u c ≡ (ok n, c'))
      × Tracks c'
      × (lookup (client_key b u) c'.clients ≡ some n)
      × ((key token : Text) → live key token c' ≡ live key token c)
unfolding get_client found connect
get_client-quiet b u c h = by (lookup (client_key b u) c.clients) refl
  where
    by :
        (o : Option ℕ)
        → lookup (client_key b u) c.clients ≡ o
        → (n : ℕ) × (c' : Client) × (found (λ _. none) (client_key b u) c o ≡ (ok n, c'))
          × Tracks c'
          × (lookup (client_key b u) c'.clients ≡ some n)
          × ((key token : Text) → live key token c' ≡ live key token c)
    by (some n) e = (n, c, refl, h, e, λ key token. refl)
    by none e = (
      c.calls,
      connected_to (client_key b u) c,
      refl,
      connected_to-Tracks (client_key b u) c e h,
      lookup-insert_self (client_key b u) c.calls c.clients,
      λ key token. connected_to-live (client_key b u) key token c e h,
    )
