-- ===== src/Pipeline/MovingAverage/Window.antt =====
-- One call of `MovingAverage` (pkg/pipeline/moving_averager.go): what it returns and what it stores,
-- stated by the entries that are recent enough.
use iotencoder.Common.{
  ℕ, ◌+◌, ◌≡◌, refl, ℤ, pos, ◌-ℤ◌, ltb_ℤ, Text, List, [], ◌∷◌, ◌++◌, Option, none, some, ok, length,
  if◌then◌else◌, arith, ◌≤ℤ◌,
}
use mathlib.Core.List.{append_assoc, append-nil}
use iotencoder.Common.Float.{Float64}
use iotencoder.Common.Dict.{lookup, insert}
use iotencoder.Pipeline.MovingAverage.{
  Entry, Averager, series_key, keep_loop, average_of, moving_average,
}

module _ {F : Type 0} where
  -- The entries that are not older than `since`.
  unfoldable pub recent : ℤ → List (Entry F) → List (Entry F)
  recent since [] = []
  recent since (e ∷ es) = if ltb_ℤ e.timestamp since then recent since es else e ∷ recent since es

  pub recent-append :
      (since : ℤ) (xs ys : List (Entry F))
      → recent since (xs ++ ys) ≡ recent since xs ++ recent since ys
  unfolding recent
  recent-append since [] ys = refl
  recent-append since (e ∷ xs) ys = ground (arith, recent-append since xs ys)

  -- Dropping what is too old for an earlier bound first changes nothing.
  pub recent-recent :
      (early late : ℤ) (es : List (Entry F))
      → early ≤ℤ late
      → recent late (recent early es) ≡ recent late es
  unfolding recent
  recent-recent early late [] h = refl
  recent-recent early late (e ∷ es) h = ground (arith, recent-recent early late es h)

  abbrev pub stored : Option (List (Entry F)) → List (Entry F)
  stored none = []
  stored (some es) = es

module _ {F : Type 0} ⦃f : Float64 F⦄ where
  pub add_all : F → List (Entry F) → F
  add_all acc [] = acc
  add_all acc (e ∷ es) = add_all (f.add acc e.value) es

  -- The mean of the entries' values and one more.
  unfoldable pub mean : List (Entry F) → F → F
  unfolding add_all
  mean es value =
      f.div (f.add (add_all (f.from_int (pos 0)) es) value) (f.from_int (pos (length es + 1)))

  keep_loop_lem :
      (previous : ℤ) (es : List (Entry F)) (counter : ℕ) (acc : F) (kept : List (Entry F))
      → keep_loop previous es counter acc kept ≡ (
        counter + length (recent previous es),
        add_all acc (recent previous es),
        kept ++ recent previous es,
      )
  unfolding keep_loop recent add_all
  keep_loop_lem previous [] counter acc kept = ground (arith, append-nil kept)
  keep_loop_lem previous (e ∷ es) counter acc kept = ground (
    arith,
    keep_loop_lem previous es counter acc kept,
    keep_loop_lem previous es (counter + 1) (f.add acc e.value) (kept ++ (e ∷ [])),
    append_assoc kept (e ∷ []) (recent previous es),
  )

  -- What a call answers: the value itself for a series that is not stored, or else the mean of the
  -- stored entries since `since` and the value.
  unfoldable pub answer : ℤ → Option (List (Entry F)) → F → F
  unfolding mean
  answer since none value = value
  answer since (some es) value = mean (recent since es) value

  pub average_of_lem :
      (now : ℤ) (value : F) (key : Text) (since : ℤ) (o : Option (List (Entry F))) (m : Averager F)
      → average_of now value key since o m ≡ (
        ok (answer since o value),
        insert key (recent since (stored o) ++ (record { timestamp = now; value = value } ∷ [])) m,
      )
  unfolding average_of answer recent
  average_of_lem now value key since none m = refl
  average_of_lem now value key since (some es) m =
      rw (keep_loop_lem since es 0 (f.from_int (pos 0)) []) (ground arith)

  -- A call for a series that is not stored returns the value; for a stored one it returns the mean
  -- of the values stored within the interval and the new value. Either way it stores the entries
  -- within the interval and then the new one under the key, and changes no other key.
  pub moving_average_lem :
      (now : ℤ) (value : F) (token : Text) (sensor : ℤ) (interval : ℕ) (m : Averager F)
      → let key = series_key token sensor interval in
        let since = now -ℤ pos interval in
        let old = lookup key m in
        moving_average now value token sensor interval m ≡ (
          ok (answer since old value),
          insert key
              (recent since (stored old) ++ (record { timestamp = now; value = value } ∷ []))
              m,
        )
  unfolding moving_average
  moving_average_lem now value token sensor interval m =
      let key = series_key token sensor interval in
      average_of_lem now value key (now -ℤ pos interval) (lookup key m) m
