-- ===== src/Mqtt/Threads/Ending.antt =====
-- That calls of `getClient` of pkg/mqtt/mqtt.go end, however they are interleaved, and that one alone
-- is the call in one step.
use iotencoder.Common.{
  ℕ, zero, suc, ◌+◌, ◌*◌, ◌<◌, ◌≤◌, ◌≡◌, refl, Text, Option, none, some, Error, Result, arith, inl,
  inr, ◌⊎◌, subst, ◌==◌, ==_iff, if◌then◌else◌, Bool-cases,
}
use native.Mathlib.Decide.{dec_lt}
use iotencoder.Common.Dict.{lookup}
use iotencoder.Mqtt.{Client, client_key, connect, found, get_client}
use iotencoder.Mqtt.Threads.{
  Phase, waiting, missed, connecting, returned, looked, dialled, advance, System, put, move,
}

-- The steps that a call still takes.
unfoldable pub left : Phase → ℕ
left waiting = 3
left missed = 2
left (connecting _) = 1
left (returned _) = 0

unfoldable pub total : ℕ → (ℕ → Phase) → ℕ
total zero phase = 0
total (suc n) phase = total n phase + left (phase n)

abbrev pub all_waiting : ℕ → Phase
all_waiting i = waiting

module _ (faults : ℕ → Option Error) (keys : ℕ → Text) where
  -- A run of `n` goroutines from a state: `k` steps, each of one whose call has not returned.
  pub data Run (n : ℕ) (s : System) : ℕ → System → Type 0 where
    here : Run n s 0 s
    step :
        (i : ℕ) {k : ℕ} {t : System}
        → Run n s k t
        → i < n
        → 0 < left (t.phase i)
        → Run n s (suc k) (move faults keys i t)

  advance-left :
      (key : Text) (p : Phase) (c : Client) → 0 < left p → left (advance faults key p c).0 < left p
  unfolding advance looked dialled left
  advance-left key waiting c h = by (lookup key c.clients)
    where
      by : (o : Option ℕ) → left (looked c o).0 < 3
      by none = ground arith
      by (some n) = ground arith
  advance-left key missed c h = by (faults c.calls)
    where
      by : (o : Option Error) → left (dialled key c o).0 < 2
      by none = ground arith
      by (some e) = ground arith
  advance-left key (connecting n) c h = ground arith
  advance-left key (returned r) c h = ground (arith, h)

  total-put_above :
      (n i : ℕ) (p : Phase) (phase : ℕ → Phase) → n ≤ i → total n (put i p phase) ≡ total n phase
  unfolding total put
  total-put_above zero i p phase h = refl
  total-put_above (suc n) i p phase h = ground (arith, total-put_above n i p phase)

  total-put :
      (n i : ℕ) (p : Phase) (phase : ℕ → Phase)
      → i < n
      → total n (put i p phase) + left (phase i) ≡ total n phase + left p
  unfolding total put
  total-put zero i p phase h = ground (arith, h)
  total-put (suc n) i p phase h = ground (arith, total-put n i p phase, total-put_above n i p phase)

  move-total :
      (n i : ℕ) (s : System)
      → i < n
      → 0 < left (s.phase i)
      → total n (move faults keys i s).phase < total n s.phase
  unfolding move
  move-total n i s h l = ground (
    arith,
    total-put n i (advance faults (keys i) (s.phase i) s.client).0 s.phase h,
    advance-left (keys i) (s.phase i) s.client l,
  )

  Run-total :
      (n : ℕ) (s : System) (k : ℕ) (t : System)
      → Run n s k t
      → k + total n t.phase ≤ total n s.phase
  Run-total n s k t here = ground arith
  Run-total n s k _ (step i {k = k'} {t = t'} r h l) =
      ground (arith, Run-total n s k' t' r, move-total n i t' h l)

  total-all_waiting : (n : ℕ) → total n all_waiting ≡ 3 * n
  unfolding total left
  total-all_waiting zero = refl
  total-all_waiting (suc n) = ground (arith, total-all_waiting n)

  done_or_not : (p : Phase) → (0 < left p) ⊎ ((r : Result ℕ) × (p ≡ returned r))
  unfolding left
  done_or_not waiting = inl (ground arith)
  done_or_not missed = inl (ground arith)
  done_or_not (connecting n) = inl (ground arith)
  done_or_not (returned r) = inr (r, refl)

  -- Some call of the first `n` has not returned, or all have.
  unfinished-or :
      (n : ℕ) (phase : ℕ → Phase)
      → ((i : ℕ) × (i < n) × (0 < left (phase i)))
        ⊎ ((i : ℕ) → i < n → (r : Result ℕ) × (phase i ≡ returned r))
  unfinished-or zero phase = inr (λ i h. absurd (ground (arith, h)))
  unfinished-or (suc n) phase = by (unfinished-or n phase) (done_or_not (phase n))
    where
      by :
          ((i : ℕ) × (i < n) × (0 < left (phase i)))
            ⊎ ((i : ℕ) → i < n → (r : Result ℕ) × (phase i ≡ returned r))
          → (0 < left (phase n)) ⊎ ((r : Result ℕ) × (phase n ≡ returned r))
          → ((i : ℕ) × (i < suc n) × (0 < left (phase i)))
            ⊎ ((i : ℕ) → i < suc n → (r : Result ℕ) × (phase i ≡ returned r))
      by (inl (i, h, l)) _ = inl (i, ground (arith, h), l)
      by (inr all) (inl l) = inl (n, ground arith, l)
      by (inr all) (inr last) = inr (λ i h. elim (dec_lt i n) [
        | yes below ↦ all i below
        | no above ↦
            subst (λ j. (r : Result ℕ) × (phase j ≡ returned r)) (ground (arith, h, above)) last
      ])

  -- The steps that one call takes in a run.
  pub steps_of : {n : ℕ} {s : System} → ℕ → {k : ℕ} {t : System} → Run n s k t → ℕ
  steps_of i here = 0
  steps_of i (step j r h l) = (if j == i then 1 else 0) + steps_of i r

  move-left :
      (i j : ℕ) (t : System)
      → 0 < left (t.phase j)
      → (if j == i then 1 else 0) + left ((move faults keys j t).phase i) ≤ left (t.phase i)
  unfolding move put
  move-left i j t l = elim (Bool-cases (j == i)) [
    | inl same ↦
        let e : j ≡ i = ground (arith, ==_iff j i) in
        rw same (
          subst (λ x. 1 + left (advance faults (keys j) (t.phase j) t.client).0 ≤ left (t.phase x))
            e (ground (arith, advance-left (keys j) (t.phase j) t.client l)))
    | inr other ↦ rw other (ground arith)
  ]

  steps_of-left :
      (i : ℕ) {n : ℕ} {s : System} {k : ℕ} {t : System} (r : Run n s k t)
      → steps_of i r + left (t.phase i) ≤ left (s.phase i)
  unfolding steps_of
  steps_of-left i here = ground arith
  steps_of-left i (step j {t = t'} r h l) = ground (arith, steps_of-left i r, move-left i j t' l)

  abbrev pub AllReturned : ℕ → System → Type 0
  AllReturned n t = (i : ℕ) → i < n → (r : Result ℕ) × (t.phase i ≡ returned r)

  -- A run goes on until all calls have returned.
  finish :
      (fuel n m : ℕ) (s t : System)
      → total n t.phase ≤ fuel
      → Run n s m t
      → (m' : ℕ) × (t' : System) × Run n s m' t' × AllReturned n t'
  finish zero n m s t enough r = elim (unfinished-or n t.phase) [
    | inl (i, h, l) ↦ absurd (ground (arith, move-total n i t h l, enough))
    | inr all ↦ (m, t, r, all)
  ]
  finish (suc fuel) n m s t enough r = elim (unfinished-or n t.phase) [
    | inl (i, h, l) ↦
        finish fuel n (suc m) s (move faults keys i t)
          (ground (arith, move-total n i t h l, enough)) (step i r h l)
    | inr all ↦ (m, t, r, all)
  ]

  all_waiting-left : (i : ℕ) → left (all_waiting i) ≡ 3
  unfolding left
  all_waiting-left i = refl

  -- However `n` calls of `get_client` are interleaved, and whatever calls of paho answer an error, each
  -- call takes at most three steps, and wherever a run has come to, it can go on until every call has
  -- returned, with at most three steps for each in all. A step never blocks: the locks are held within
  -- one step, and paho's connect is taken to return.
  pub Run-Ends :
      (n k : ℕ) (c : Client) (t : System)
      (r : Run n (record { client = c; phase = all_waiting }) k t)
      → ((i : ℕ) → steps_of i r ≤ 3)
        × ((m : ℕ) × (t' : System) × Run n t m t'
            × (k + m ≤ 3 * n)
            × ((i : ℕ) → i < n → (a : Result ℕ) × (t'.phase i ≡ returned a)))
  Run-Ends n k c t r =
      let (m, t', more, all) = finish (total n t.phase) n 0 t t (ground arith) here in
      (
        λ i. ground (arith, steps_of-left i r, all_waiting-left i),
        (
          m,
          t',
          more,
          ground (
            arith,
            Run-total n (record { client = c; phase = all_waiting }) k t r,
            Run-total n t m t' more,
            total-all_waiting n,
          ),
          all,
        ),
      )

module _ (faults : ℕ → Option Error) where
  -- The steps of one call with no other between them, as often as the longest call needs.
  unfoldable pub alone : Text → Client → Phase × Client
  alone key c =
      let (p, c1) = advance faults key waiting c in
      let (q, c2) = advance faults key p c1 in advance faults key q c2

  -- The three steps of a call that no other call comes between are `get_client`: the call has
  -- returned what it answers, and the client is as it leaves it.
  pub alone_lem :
      (broker username : Text) (c : Client)
      → let (r, c') = get_client faults broker username c in
        alone (client_key broker username) c ≡ (returned r, c')
  unfolding alone advance get_client found connect looked dialled
  alone_lem broker username c =
      by (lookup (client_key broker username) c.clients) (faults c.calls) refl refl
    where
      by :
          (o : Option ℕ) (e : Option Error)
          → lookup (client_key broker username) c.clients ≡ o
          → faults c.calls ≡ e
          → let (r, c') =
              found faults
                (client_key broker username)
                c
                (lookup (client_key broker username) c.clients) in
            alone (client_key broker username) c ≡ (returned r, c')
      by (some n) _ h g = rw h refl
      by none none h g = rw h (rw g refl)
      by none (some e) h g = rw h (rw g refl)
