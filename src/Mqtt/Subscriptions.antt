-- ===== src/Mqtt/Subscriptions.antt =====
-- What a successful `Subscribe` of pkg/mqtt/mqtt.go leaves behind, and that its connection is used by
-- every later call for the same broker and user name.
use iotencoder.Common.{
  ℕ, ◌≡◌, refl, Text, List, [], ◌∷◌, ◌++◌, Option, none, some, Error, Result, ok, err, panic, arith,
  ap, text_eq_iff, subst,
}
use iotencoder.Common.Dict.{lookup, lookup-insert}
use iotencoder.Mqtt.{
  Event, subscribed, Client, client_key, build_topic, answered, tell, connect, found, get_client,
  with_client, subscribe, unsubscribe,
}
use iotencoder.Mqtt.Connections.{Command, subscribing, unsubscribing, command, run}

module _ (faults : ℕ → Option Error) where
  -- The map still has every connection of `c`.
  abbrev Keeps : Client → Client → Type 0
  Keeps c c' = (key : Text) (n : ℕ) → lookup key c.clients ≡ some n → lookup key c'.clients ≡ some n

  connect-Keeps :
      (key : Text) (c : Client) (o : Option Error)
      → lookup key c.clients ≡ none
      → Keeps c (connect faults key c o).1
  unfolding connect
  connect-Keeps key c none new j n h =
      ground (arith, lookup-insert key j c.calls c.clients, text_eq_iff key j)
  connect-Keeps key c (some e) new j n h = h

  found-Keeps :
      (key : Text) (c : Client) (o : Option ℕ)
      → lookup key c.clients ≡ o
      → Keeps c (found faults key c o).1
  unfolding found
  found-Keeps key c (some m) e = λ j n h. h
  found-Keeps key c none e = connect-Keeps key c (faults c.calls) e

  answered-Keeps : (e : Event) (c : Client) (o : Option Error) → Keeps c (answered faults e c o).1
  unfolding answered
  answered-Keeps e c none j n h = h
  answered-Keeps e c (some x) j n h = h

  with_client-Keeps :
      (c : Client) (event : ℕ → Event) (r : Result ℕ × Client)
      → Keeps c r.1
      → Keeps c (with_client faults event r).1
  unfolding with_client tell
  with_client-Keeps c event (ok m, c') k j n h =
      answered-Keeps (event m) c' (faults c'.calls) j n (k j n h)
  with_client-Keeps c event (err e, c') k j n h = k j n h
  with_client-Keeps c event (panic, c') k j n h = k j n h

  command-Keeps : (x : Command) (c : Client) → Keeps c (command faults x c)
  unfolding command subscribe unsubscribe get_client
  command-Keeps (subscribing b u t) c = with_client-Keeps c _ _ (found-Keeps _ c _ refl)
  command-Keeps (unsubscribing b u t) c = with_client-Keeps c _ _ (found-Keeps _ c _ refl)

  run-Keeps : (xs : List Command) (c : Client) → Keeps c (run faults xs c)
  unfolding run
  run-Keeps [] c key n h = h
  run-Keeps (x ∷ xs) c key n h = run-Keeps xs (command faults x c) key n (command-Keeps x c key n h)

  -- A connection that was found or made is in the map.
  abbrev Obtained : Text → Result ℕ × Client → Type 0
  Obtained key (ok n, c) = lookup key c.clients ≡ some n
  Obtained key (err e, c) = Unit {0}
  Obtained key (panic, c) = Unit {0}

  connect-Obtained :
      (key : Text) (c : Client) (o : Option Error) → Obtained key (connect faults key c o)
  unfolding connect
  connect-Obtained key c none =
      ground (arith, lookup-insert key key c.calls c.clients, text_eq_iff key key)
  connect-Obtained key c (some e) = tt

  found-Obtained :
      (key : Text) (c : Client) (o : Option ℕ)
      → lookup key c.clients ≡ o
      → Obtained key (found faults key c o)
  unfolding found
  found-Obtained key c (some n) e = e
  found-Obtained key c none e = connect-Obtained key c (faults c.calls)

  -- The subscription is the last event, and its connection is in the map.
  abbrev Subscribes : Text → Text → Client → Type 0
  Subscribes key topic c =
      (n : ℕ) × (before : List Event) × (c.log ≡ before ++ (subscribed n topic ∷ []))
      × (lookup key c.clients ≡ some n)

  answered-Subscribes :
      (key topic : Text) (n : ℕ) (c c' : Client) (o : Option Error)
      → lookup key c.clients ≡ some n
      → answered faults (subscribed n topic) c o ≡ (ok tt, c')
      → Subscribes key topic c'
  unfolding answered
  answered-Subscribes key topic n c c' none h e =
      subst (Subscribes key topic) (ap (λ r. r.1) e) (n, c.log, refl, h)
  answered-Subscribes key topic n c c' (some x) h e = ground arith

  with_client-Subscribes :
      (key topic : Text) (r : Result ℕ × Client) (c' : Client)
      → Obtained key r
      → with_client faults (λ n. subscribed n topic) r ≡ (ok tt, c')
      → Subscribes key topic c'
  unfolding with_client tell
  with_client-Subscribes key topic (ok n, c) c' h e =
      answered-Subscribes key topic n c c' (faults c.calls) h e
  with_client-Subscribes key topic (err x, c) c' h e = ground arith
  with_client-Subscribes key topic (panic, c) c' h e = ground arith

  get_client-known :
      (broker username : Text) (c : Client) (n : ℕ)
      → lookup (client_key broker username) c.clients ≡ some n
      → get_client faults broker username c ≡ (ok n, c)
  unfolding get_client found
  get_client-known broker username c n h = rw h

  -- When `subscribe` succeeds, the last that paho was told is the subscription to the device's topic
  -- on some connection, and after any later calls of `subscribe` and `unsubscribe`, whatever calls of
  -- paho fail, `get_client` still answers that connection for the broker and the user name, and makes
  -- none.
  pub subscribe_lem :
      (broker username token : Text) (c c' : Client)
      → subscribe faults broker username token c ≡ (ok tt, c')
      → (n : ℕ) × (before : List Event) × (c'.log
          ≡ before ++ (subscribed n (build_topic token) ∷ []))
        × ((xs : List Command)
            → get_client faults broker username (run faults xs c') ≡ (ok n, run faults xs c'))
  unfolding subscribe
  subscribe_lem broker username token c c' e =
      let key = client_key broker username in
      let obtained : Obtained key (get_client faults broker username c) =
        unfold get_client in found-Obtained key c (lookup key c.clients) refl in
      let (n, before, l, known) =
        with_client-Subscribes key (build_topic token) (get_client faults broker username c) c'
          obtained e in
      (
        n,
        before,
        l,
        λ xs. get_client-known broker username (run faults xs c') n (run-Keeps xs c' key n known),
      )
