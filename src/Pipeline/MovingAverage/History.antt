-- ===== src/Pipeline/MovingAverage/History.antt =====
-- What `MovingAverage` (pkg/pipeline/moving_averager.go) answers after any calls whose times do not
-- go back: pruning the stored entries at each call never loses one that a later call needs, and the
-- series of other devices, sensors and intervals do not interfere.
use iotencoder.Common.{
  ℕ, ◌≡◌, refl, ◌≢◌, ℤ, pos, ◌-ℤ◌, -ℤ_parts, Text, List, [], ◌∷◌, ◌++◌, Option, none, some, Result,
  ok, if◌then◌else◌, arith, ◌≤ℤ◌, Bool, true, false, ◌&&◌, Bool-cases, inl, inr, text_eq,
  text_eq_iff, eq_ℤ, eq_ℤ_iff, ◌==◌, ==_iff, ◌∙◌, ap, sym,
}
use iotencoder.Common.Float.{Float64}
use iotencoder.Common.Dict.{lookup, insert, lookup-insert_self, lookup-insert_ne}
use iotencoder.Pipeline.MovingAverage.{Entry, Averager, series_key, moving_average}
use iotencoder.Pipeline.MovingAverage.Key.{series_key_injective}
use iotencoder.Pipeline.MovingAverage.Window.{
  recent, recent-append, recent-recent, stored, mean, answer, moving_average_lem,
}

-- The arguments of a call, and its time.
pub record Call (F : Type 0) : Type 0 where
  pub now : ℤ
  pub value : F
  pub token : Text
  pub sensor : ℤ
  pub interval : ℕ

module _ {F : Type 0} where
  abbrev pub entry_of : Call F → Entry F
  entry_of c = record { timestamp = c.now; value = c.value }

  abbrev pub key_of : Call F → Text
  key_of c = series_key c.token c.sensor c.interval

  abbrev pub since : Call F → ℤ
  since c = c.now -ℤ pos c.interval

  -- Whether two calls are for the same device, sensor and interval.
  unfoldable pub same_series : Call F → Call F → Bool
  same_series c d = text_eq c.token d.token && eq_ℤ c.sensor d.sensor && c.interval == d.interval

  -- Every value that was given for the series of `q`, the oldest first; the latest call of the past
  -- stands first in its list.
  unfoldable pub series : Call F → List (Call F) → List (Entry F)
  unfolding same_series
  series q [] = []
  series q (c ∷ past) =
      if same_series c q then series q past ++ (entry_of c ∷ []) else series q past

  -- No call of the past was later than `t`.
  abbrev pub AllBefore : ℤ → List (Call F) → Type 0
  AllBefore t [] = Unit {0}
  AllBefore t (c ∷ past) = (c.now ≤ℤ t) × AllBefore t past

  abbrev pub Chronological : List (Call F) → Type 0
  Chronological [] = Unit {0}
  Chronological (c ∷ past) = AllBefore c.now past × Chronological past

  same_series→key : (c d : Call F) → same_series c d ≡ true → key_of c ≡ key_of d
  unfolding same_series
  same_series→key c d h =
      ground (
        arith,
        text_eq_iff c.token d.token,
        eq_ℤ_iff c.sensor d.sensor,
        ==_iff c.interval d.interval,
      )

  not_same_series→key : (c d : Call F) → same_series c d ≡ false → key_of c ≢ key_of d
  unfolding same_series
  not_same_series→key c d h e = ground (
    arith,
    series_key_injective c.token d.token c.sensor d.sensor c.interval d.interval e,
    text_eq_iff c.token d.token,
    eq_ℤ_iff c.sensor d.sensor,
    ==_iff c.interval d.interval,
  )

  same_series→interval : (c d : Call F) → same_series c d ≡ true → c.interval ≡ d.interval
  unfolding same_series
  same_series→interval c d h = ground (arith, ==_iff c.interval d.interval)

  since_mono : (c q : Call F) → same_series c q ≡ true → c.now ≤ℤ q.now → since c ≤ℤ since q
  since_mono c q h le = omega (
    arith,
    same_series→interval c q h,
    -ℤ_parts c.now (pos c.interval),
    -ℤ_parts q.now (pos q.interval),
  )

module _ {F : Type 0} ⦃f : Float64 F⦄ where
  abbrev pub answer_to : Call F → Averager F → Result F × Averager F
  answer_to c m = moving_average c.now c.value c.token c.sensor c.interval m

  -- The averager after the calls of the past, from the empty map of `NewMovingAverager`.
  unfoldable pub after : List (Call F) → Averager F
  after [] = []
  after (c ∷ past) = (answer_to c (after past)).1

  after-cons :
      (c : Call F) (past : List (Call F))
      → after (c ∷ past)
        ≡ insert
            (key_of c)
            (recent (since c) (stored (lookup (key_of c) (after past))) ++ (entry_of c ∷ []))
            (after past)
  unfolding after
  after-cons c past =
      ap (λ r. r.1) (moving_average_lem c.now c.value c.token c.sensor c.interval (after past))

  lookup-after_same :
      (c q : Call F) (past : List (Call F))
      → same_series c q ≡ true
      → lookup (key_of q) (after (c ∷ past))
        ≡ some (recent (since c) (stored (lookup (key_of q) (after past))) ++ (entry_of c ∷ []))
  lookup-after_same c q past h =
      rw (after-cons c past, same_series→key c q h) (lookup-insert_self _ _ _)

  lookup-after_other :
      (c q : Call F) (past : List (Call F))
      → same_series c q ≡ false
      → lookup (key_of q) (after (c ∷ past)) ≡ lookup (key_of q) (after past)
  lookup-after_other c q past h =
      rw (after-cons c past) (lookup-insert_ne _ _ _ _ (not_same_series→key c q h))

  -- For a call that is not earlier than the past, the stored entries within the interval are those
  -- of the whole series.
  recent-stored :
      (q : Call F) (past : List (Call F))
      → Chronological past
      → AllBefore q.now past
      → recent (since q) (stored (lookup (key_of q) (after past)))
        ≡ recent (since q) (series q past)
  unfolding series
  recent-stored q [] ch b = unfold after lookup in refl
  recent-stored q (c ∷ past) ch b = elim (Bool-cases (same_series c q)) [
    | inl same ↦ rw (
      lookup-after_same c q past same,
      same,
      recent-append (since q) (recent (since c) (stored (lookup (key_of q) (after past)))),
      recent-append (since q) (series q past),
      recent-recent _ _ (stored (lookup (key_of q) (after past))) (since_mono c q same b.0),
      recent-stored q past ch.1 b.1,
    )
    | inr other ↦ rw (lookup-after_other c q past other, other) (recent-stored q past ch.1 b.1)
  ]

  abbrev is_new : Option (List (Entry F)) → Bool
  is_new none = true
  is_new (some _) = false

  abbrev no_entries : List (Entry F) → Bool
  no_entries [] = true
  no_entries (_ ∷ _) = false

  no_entries-append : (xs : List (Entry F)) (e : Entry F) → no_entries (xs ++ (e ∷ [])) ≡ false
  no_entries-append [] e = refl
  no_entries-append (x ∷ xs) e = refl

  -- A key is stored exactly when its series has a value.
  is_new-after :
      (q : Call F) (past : List (Call F))
      → is_new (lookup (key_of q) (after past)) ≡ no_entries (series q past)
  unfolding series
  is_new-after q [] = unfold after lookup in refl
  is_new-after q (c ∷ past) = elim (Bool-cases (same_series c q)) [
    | inl same ↦
        rw (lookup-after_same c q past same, same)
          (sym (no_entries-append (series q past) (entry_of c)))
    | inr other ↦ rw (lookup-after_other c q past other, other) (is_new-after q past)
  ]

  -- What a call is to answer: the value for the first call of a series, and later the mean of all
  -- values that were ever given for the series within the interval, and the value.
  unfoldable pub answer_of_series : Call F → List (Entry F) → F
  answer_of_series q [] = q.value
  answer_of_series q (e ∷ es) = mean (recent (since q) (e ∷ es)) q.value

  answer-eq :
      (q : Call F) (o : Option (List (Entry F))) (es : List (Entry F))
      → recent (since q) (stored o) ≡ recent (since q) es
      → is_new o ≡ no_entries es
      → answer (since q) o q.value ≡ answer_of_series q es
  unfolding answer answer_of_series
  answer-eq q none [] h k = refl
  answer-eq q none (e ∷ es) h k = cc
  answer-eq q (some s) [] h k = cc
  answer-eq q (some s) (e ∷ es) h k = rw h

  -- After any calls whose times do not go back, a call that is not earlier than them succeeds and
  -- answers by all the values that were given for its own device, sensor and interval: what the
  -- earlier calls pruned, and what they stored for other series, makes no difference.
  pub moving_average_history :
      (q : Call F) (past : List (Call F))
      → Chronological past
      → AllBefore q.now past
      → (answer_to q (after past)).0 ≡ ok (answer_of_series q (series q past))
  moving_average_history q past ch b =
      ap (λ r. r.0) (moving_average_lem q.now q.value q.token q.sensor q.interval (after past))
      ∙ ap ok (
          answer-eq q (lookup (key_of q) (after past)) (series q past) (recent-stored q past ch b)
            (is_new-after q past))
