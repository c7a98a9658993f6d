-- ===== src/Mqtt/Threads/Running.antt =====
-- What interleaved calls of `getClient` of pkg/mqtt/mqtt.go answer: each a connection of its own key.
use iotencoder.Common.{
  ℕ, ◌==◌, ==_iff, ◌≡◌, ◌≢◌, refl, Text, List, [], ◌∷◌, ◌++◌, Option, none, some, Error, ok, err,
  panic, arith, Bool, true, false, ◌&&◌, ◌||◌, subst, Bool-cases, inl, inr, Option-cases, text_eq,
  text_eq_iff,
}
use iotencoder.Common.Dict.{lookup, lookup-insert}
use iotencoder.Mqtt.{Event, connected, subscribed, unsubscribed, disconnected, Client, new_client}
use iotencoder.Mqtt.Threads.{
  Phase, waiting, missed, connecting, returned, looked, dialled, advance, System, put, move,
}
use iotencoder.Mqtt.Threads.Ending.{Run, here, step, all_waiting}

-- Whether a connection was made for a key.
unfoldable pub made : Text → ℕ → List Event → Bool
made key n [] = false
made key n (connected k m ∷ es) = (text_eq k key && m == n) || made key n es
made key n (_ ∷ es) = made key n es

made-append :
    (key : Text) (n : ℕ) (es : List Event) (k : Text) (m : ℕ)
    → made key n (es ++ (connected k m ∷ [])) ≡ (made key n es || (text_eq k key && m == n))
unfolding made
made-append key n [] k m = ground arith
made-append key n (connected j i ∷ es) k m = ground (arith, made-append key n es k m)
made-append key n (subscribed i t ∷ es) k m = made-append key n es k m
made-append key n (unsubscribed i t ∷ es) k m = made-append key n es k m
made-append key n (disconnected i ∷ es) k m = made-append key n es k m

-- What the phase of a call for a key says of the client.
unfoldable pub Fits : Text → Phase → Client → Type 0
Fits key waiting c = Unit
Fits key missed c = Unit
Fits key (connecting n) c = made key n c.log ≡ true
Fits key (returned (ok n)) c = (made key n c.log ≡ true) × (lookup key c.clients ≢ none)
Fits key (returned (err e)) c = Unit
Fits key (returned panic) c = Unit

MapFits : Client → Type 0
MapFits c = (key : Text) (n : ℕ) → lookup key c.clients ≡ some n → made key n c.log ≡ true

-- The log and the map only gain.
Gains : Client → Client → Type 0
Gains c c' =
    ((key : Text) (n : ℕ) → made key n c.log ≡ true → made key n c'.log ≡ true)
    × ((key : Text) → lookup key c.clients ≢ none → lookup key c'.clients ≢ none)

Fits-Gains : (key : Text) (p : Phase) (c c' : Client) → Gains c c' → Fits key p c → Fits key p c'
unfolding Fits Gains
Fits-Gains key waiting c c' g h = tt
Fits-Gains key missed c c' g h = tt
Fits-Gains key (connecting n) c c' g h = g.0 key n h
Fits-Gains key (returned (ok n)) c c' g h = (g.0 key n h.0, g.1 key h.1)
Fits-Gains key (returned (err e)) c c' g h = tt
Fits-Gains key (returned panic) c c' g h = tt

module _ (faults : ℕ → Option Error) where
  Good : Text → Client → Phase × Client → Type 0
  unfolding Fits MapFits Gains
  Good key c (p, c') = Fits key p c' × MapFits c' × Gains c c'

  looked-Good :
      (key : Text) (c : Client) (o : Option ℕ)
      → lookup key c.clients ≡ o
      → MapFits c
      → Good key c (looked c o)
  unfolding Good Fits MapFits Gains looked
  looked-Good key c none e h = (tt, h, (λ k n m. m, λ k q. q))
  looked-Good key c (some n) e h = ((h key n e, ground (arith, e)), h, (λ k n m. m, λ k q. q))

  dialled-Good :
      (key : Text) (c : Client) (o : Option Error) → MapFits c → Good key c (dialled key c o)
  unfolding Good Fits MapFits Gains dialled
  dialled-Good key c none h = (
    ground (arith, made-append key c.calls c.log key c.calls, text_eq_iff key key),
    λ k n e. ground (arith, made-append k n c.log key c.calls, h k n e),
    (λ k n m. ground (arith, made-append k n c.log key c.calls, m), λ k q. q),
  )
  dialled-Good key c (some e) h = (tt, h, (λ k n m. m, λ k q. q))

  advance-Good :
      (key : Text) (p : Phase) (c : Client)
      → MapFits c
      → Fits key p c
      → Good key c (advance faults key p c)
  unfolding advance Good Fits MapFits Gains
  advance-Good key waiting c h f = looked-Good key c _ refl h
  advance-Good key missed c h f = dialled-Good key c _ h
  advance-Good key (connecting n) c h f = (
    (f, ground (arith, lookup-insert key key n c.clients, text_eq_iff key key)),
    λ k m e. ground (arith, lookup-insert key k n c.clients, text_eq_iff key k, h k m, e, f),
    (λ k m g. g, λ k q. ground (arith, lookup-insert key k n c.clients, q)),
  )
  advance-Good key (returned r) c h f = (f, h, (λ k n m. m, λ k q. q))

  -- The map and every call fit.
  AllFit : (ℕ → Text) → System → Type 0
  AllFit keys s = MapFits s.client × ((i : ℕ) → Fits (keys i) (s.phase i) s.client)

  put-Fits :
      (key : Text) (i j : ℕ) (p : Phase) (phase : ℕ → Phase) (c : Client)
      → (i ≡ j → Fits key p c)
      → Fits key (phase j) c
      → Fits key (put i p phase j) c
  unfolding put
  put-Fits key i j p phase c now before = elim (Bool-cases (i == j)) [
    | inl e ↦ rw e (now ((==_iff i j).0 e))
    | inr e ↦ rw e before
  ]

  move-AllFit :
      (keys : ℕ → Text) (i : ℕ) (s : System) → AllFit keys s → AllFit keys (move faults keys i s)
  unfolding AllFit move Good
  move-AllFit keys i s (h, f) =
      let (fits, maps, gains) = advance-Good (keys i) (s.phase i) s.client h (f i) in
      let (p, c) = advance faults (keys i) (s.phase i) s.client in
      (
        maps,
        λ j.
            put-Fits (keys j) i j p s.phase c (λ e. subst (λ x. Fits (keys x) p c) e fits)
              (Fits-Gains (keys j) (s.phase j) s.client c gains (f j)),
      )

  Run-AllFit :
      (keys : ℕ → Text) (n : ℕ) (s : System) (k : ℕ) (t : System)
      → Run faults keys n s k t
      → AllFit keys s
      → AllFit keys t
  Run-AllFit keys n s k t here h = h
  Run-AllFit keys n s k _ (step i {k = k'} {t = t'} r l u) h =
      move-AllFit keys i t' (Run-AllFit keys n s k' t' r h)

  -- In every interleaving of calls of `get_client`, each for a key, from a new client and whatever calls
  -- of paho fail: a call that has returned a connection returned one that was made for its own key,
  -- and the map then has a connection for that key, which was made for it as well. The key of a call
  -- is the broker and the user name with a colon between, which two pairs can share.
  pub Run-Fits :
      (keys : ℕ → Text) (n k : ℕ) (t : System) (i m : ℕ)
      → Run faults keys n (record { client = new_client; phase = all_waiting }) k t
      → t.phase i ≡ returned (ok m)
      → (made (keys i) m t.client.log ≡ true)
        × ((j : ℕ) × (lookup (keys i) t.client.clients ≡ some j)
            × (made (keys i) j t.client.log ≡ true))
  unfolding AllFit Fits MapFits lookup
  Run-Fits keys n k t i m r e =
      let (maps, fits) =
        Run-AllFit keys n (record { client = new_client; phase = all_waiting }) k t r
          ((λ key j q. ground (arith, q)), λ j. tt) in
      let (own, present) = subst (λ p. Fits (keys i) p t.client) e (fits i) in
      elim (Option-cases (lookup (keys i) t.client.clients)) [
        | inl q ↦ absurd (present q)
        | inr (j, q) ↦ (own, (j, q, maps (keys i) j q))
      ]
