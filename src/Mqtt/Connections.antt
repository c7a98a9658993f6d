-- ===== src/Mqtt/Connections.antt =====
-- The connections of pkg/mqtt/mqtt.go over any sequence of its methods: one for each key, kept until
-- `Stop` disconnects it.
use iotencoder.Common.{
  ℕ, ◌+◌, ◌≡◌, refl, Text, List, [], ◌∷◌, ◌++◌, map, Option, none, some, Error, Result, ok, err,
  panic, arith, sym, ◌∙◌, ap, text_eq, text_eq_iff, if◌then◌else◌,
}
use mathlib.Core.List.{append-nil}
use iotencoder.Common.Dict.{Dict, lookup, insert, lookup-insert}
use iotencoder.Mqtt.{
  Event, connected, subscribed, unsubscribed, disconnected, Client, new_client, answered, tell,
  connect, found, get_client, with_client, subscribe, unsubscribe, stop,
}

-- A call of one of the two methods, with its broker, user name and device token.
pub data Command : Type 0 where
  subscribing : Text → Text → Text → Command
  unsubscribing : Text → Text → Text → Command

-- The keys and connections that were made, and the connections that were ended.
abbrev pub connections : List Event → Dict ℕ
connections [] = []
connections (connected key n ∷ es) = (key, n) ∷ connections es
connections (_ ∷ es) = connections es

abbrev pub disconnections : List Event → List ℕ
disconnections [] = []
disconnections (disconnected n ∷ es) = n ∷ disconnections es
disconnections (_ ∷ es) = disconnections es

-- The number of connections that were made for a key.
unfoldable pub made_for : Text → Dict ℕ → ℕ
made_for key [] = 0
made_for key ((k, n) ∷ cs) = if text_eq k key then made_for key cs + 1 else made_for key cs

abbrev pub present : Option ℕ → ℕ
present none = 0
present (some _) = 1

connections-append :
    (es : List Event) (e : Event)
    → connections (es ++ (e ∷ [])) ≡ connections es ++ connections (e ∷ [])
connections-append [] e = refl
connections-append (connected k n ∷ es) e = ap (λ cs. (k, n) ∷ cs) (connections-append es e)
connections-append (subscribed n t ∷ es) e = connections-append es e
connections-append (unsubscribed n t ∷ es) e = connections-append es e
connections-append (disconnected n ∷ es) e = connections-append es e

insert-new :
    (key : Text) (n : ℕ) (m : Dict ℕ) → lookup key m ≡ none → insert key n m ≡ m ++ ((key, n) ∷ [])
unfolding insert lookup
insert-new key n [] h = refl
insert-new key n ((k, w) ∷ m) h = ground (arith, insert-new key n m)

-- The map holds the connections that were made, none of which is ended, and one for a key at most.
pub record Consistent (c : Client) : Type 0 where
  pub clients_made : c.clients ≡ connections c.log
  pub none_ended : disconnections c.log ≡ []
  pub one_each : (key : Text) → made_for key c.clients ≡ present (lookup key c.clients)

disconnections-append :
    (es : List Event) (e : Event)
    → disconnections (es ++ (e ∷ [])) ≡ disconnections es ++ disconnections (e ∷ [])
disconnections-append [] e = refl
disconnections-append (connected k n ∷ es) e = disconnections-append es e
disconnections-append (subscribed n t ∷ es) e = disconnections-append es e
disconnections-append (unsubscribed n t ∷ es) e = disconnections-append es e
disconnections-append (disconnected n ∷ es) e = ap (λ ds. n ∷ ds) (disconnections-append es e)

pub disconnections-map :
    (es : List Event) (m : Dict ℕ)
    → disconnections (es ++ map (λ (key, n). disconnected n) m)
      ≡ disconnections es ++ map (λ (key, n). n) m
disconnections-map [] [] = refl
disconnections-map [] ((k, n) ∷ m) = ap (λ ds. n ∷ ds) (disconnections-map [] m)
disconnections-map (connected k n ∷ es) m = disconnections-map es m
disconnections-map (subscribed n t ∷ es) m = disconnections-map es m
disconnections-map (unsubscribed n t ∷ es) m = disconnections-map es m
disconnections-map (disconnected n ∷ es) m = ap (λ ds. n ∷ ds) (disconnections-map es m)

made_for-insert_new :
    (key j : Text) (n : ℕ) (m : Dict ℕ)
    → lookup key m ≡ none
    → made_for j (insert key n m) ≡ (if text_eq key j then made_for j m + 1 else made_for j m)
unfolding made_for insert lookup
made_for-insert_new key j n [] h = refl
made_for-insert_new key j n ((k, w) ∷ m) h = ground (arith, made_for-insert_new key j n m)

-- An event that is about a connection's topics.
abbrev OnTopic : Event → Type 0
OnTopic e = (connections (e ∷ []) ≡ []) × (disconnections (e ∷ []) ≡ [])

module _ (faults : ℕ → Option Error) where
  log-Consistent :
      (e : Event) (c : Client) (calls : ℕ)
      → OnTopic e
      → Consistent c
      → Consistent (record c { calls = calls; log = c.log ++ (e ∷ []) })
  log-Consistent e c calls (no_connection, no_end) h = record {
    clients_made =
        h.clients_made
        ∙ sym (append-nil (connections c.log))
        ∙ ap (λ x. connections c.log ++ x) (sym no_connection)
        ∙ sym (connections-append c.log e);
    none_ended =
        disconnections-append c.log e
        ∙ ap (λ x. x ++ disconnections (e ∷ [])) h.none_ended
        ∙ no_end;
    one_each = h.one_each;
  }

  calls-Consistent :
      (c : Client) (calls : ℕ) → Consistent c → Consistent (record c { calls = calls })
  calls-Consistent c calls h = record {
    clients_made = h.clients_made;
    none_ended = h.none_ended;
    one_each = h.one_each;
  }

  answered-Consistent :
      (e : Event) (c : Client) (o : Option Error)
      → OnTopic e
      → Consistent c
      → Consistent (answered faults e c o).1
  unfolding answered
  answered-Consistent e c none t h = log-Consistent e c (c.calls + 1) t h
  answered-Consistent e c (some x) t h = calls-Consistent c (c.calls + 1) h

  connect-Consistent :
      (key : Text) (c : Client) (o : Option Error)
      → lookup key c.clients ≡ none
      → Consistent c
      → Consistent (connect faults key c o).1
  unfolding connect
  connect-Consistent key c none new h = record {
    clients_made =
        insert-new key c.calls c.clients new
        ∙ ap (λ m. m ++ ((key, c.calls) ∷ [])) h.clients_made
        ∙ sym (connections-append c.log (connected key c.calls));
    none_ended =
        disconnections-append c.log (connected key c.calls) ∙ ap (λ x. x ++ []) h.none_ended;
    one_each = λ j. ground (
      arith,
      made_for-insert_new key j c.calls c.clients new,
      lookup-insert key j c.calls c.clients,
      text_eq_iff key j,
      h.one_each j,
    );
  }
  connect-Consistent key c (some e) new h = calls-Consistent c (c.calls + 1) h

  found-Consistent :
      (key : Text) (c : Client) (o : Option ℕ)
      → lookup key c.clients ≡ o
      → Consistent c
      → Consistent (found faults key c o).1
  unfolding found
  found-Consistent key c (some n) e h = h
  found-Consistent key c none e h = connect-Consistent key c (faults c.calls) e h

  get_client-Consistent :
      (broker username : Text) (c : Client)
      → Consistent c
      → Consistent (get_client faults broker username c).1
  unfolding get_client
  get_client-Consistent broker username c h = found-Consistent _ c _ refl h

  with_client-Consistent :
      (event : ℕ → Event) (r : Result ℕ × Client)
      → ((n : ℕ) → OnTopic (event n))
      → Consistent r.1
      → Consistent (with_client faults event r).1
  unfolding with_client tell
  with_client-Consistent event (ok n, c) t h =
      answered-Consistent (event n) c (faults c.calls) (t n) h
  with_client-Consistent event (err e, c) t h = h
  with_client-Consistent event (panic, c) t h = h

  unfoldable pub command : Command → Client → Client
  command (subscribing broker username token) c = (subscribe faults broker username token c).1
  command (unsubscribing broker username token) c = (unsubscribe faults broker username token c).1

  unfoldable pub run : List Command → Client → Client
  run [] c = c
  run (x ∷ xs) c = run xs (command x c)

  pub command-Consistent : (x : Command) (c : Client) → Consistent c → Consistent (command x c)
  unfolding command subscribe unsubscribe
  command-Consistent (subscribing b u t) c h =
      with_client-Consistent _ (get_client faults b u c) (λ n. (refl, refl))
        (get_client-Consistent b u c h)
  command-Consistent (unsubscribing b u t) c h =
      with_client-Consistent _ (get_client faults b u c) (λ n. (refl, refl))
        (get_client-Consistent b u c h)

  run-Consistent : (xs : List Command) (c : Client) → Consistent c → Consistent (run xs c)
  unfolding run
  run-Consistent [] c h = h
  run-Consistent (x ∷ xs) c h = run-Consistent xs (command x c) (command-Consistent x c h)

  pub new_client-Consistent : Consistent new_client
  unfolding made_for lookup
  new_client-Consistent = record { clients_made = refl; none_ended = refl; one_each = λ key. refl }

  abbrev pub conns : Dict ℕ → List ℕ
  conns m = map (λ (key, n). n) m

  -- From a new client, over any calls of `subscribe` and `unsubscribe` and whatever calls of paho
  -- fail: a connection was made for each key that the map holds, and for no key more than one; and
  -- `stop` then ends the connections that were made, each once, and leaves none in the map.
  pub stop_ends_connections :
      (xs : List Command)
      → let c = run xs new_client in
        ((key : Text) → made_for key (connections c.log) ≡ present (lookup key c.clients))
        × (disconnections (stop c).log ≡ conns (connections c.log))
        × ((stop c).clients ≡ [])
  unfolding stop
  stop_ends_connections xs =
      let c = run xs new_client in
      let h = run-Consistent xs new_client new_client-Consistent in
      (
        λ key. ap (made_for key) (sym h.clients_made) ∙ h.one_each key,
        disconnections-map c.log c.clients
            ∙ ap (λ ds. ds ++ conns c.clients) h.none_ended
            ∙ ap conns h.clients_made,
        refl,
      )
