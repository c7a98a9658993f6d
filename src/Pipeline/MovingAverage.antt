-- ===== src/Pipeline/MovingAverage.antt =====
-- pkg/pipeline/moving_averager.go: the average of a sensor's values over an interval. A time is its
-- `Unix()` second. `now.Add` moves the time by whole seconds, so `previousTime.Unix()` is a difference
-- of seconds; an `int` has 64 bits and holds every interval. The locks, the logger and `verbose` are
-- left out: a call is one step, but for Race.
pub mod Key
pub mod Window
pub mod History
pub mod Race
use iotencoder.Common.{
  ℕ, ◌+◌, ℤ, pos, ◌-ℤ◌, ltb_ℤ, Text, codes, List, [], ◌∷◌, ◌++◌, Option, none, some, Result, ok,
  if◌then◌else◌,
}
use iotencoder.Common.Float.{Float64}
use iotencoder.Common.Decimal.{print_int, print_nat}
use iotencoder.Common.Dict.{Dict, lookup, insert}

pub record Entry (F : Type 0) : Type 0 where
  pub timestamp : ℤ
  pub value : F

abbrev pub Averager : Type 0 → Type 0
Averager F = Dict (List (Entry F))

-- `fmt.Sprintf("%s:%v:%v", deviceToken, sensorID, interval)`
pub series_key : Text → ℤ → ℕ → Text
series_key token sensor interval =
    token ++ (b':' ∷ (print_int sensor ++ (b':' ∷ print_nat interval)))

module _ {F : Type 0} ⦃f : Float64 F⦄ where
  -- The loop over the stored entries: `counter`, `accumulator` and `newEntries`.
  pub keep_loop : ℤ → List (Entry F) → ℕ → F → List (Entry F) → ℕ × F × List (Entry F)
  keep_loop previous [] counter acc kept = (counter, acc, kept)
  keep_loop previous (e ∷ entries) counter acc kept =
      let skip = keep_loop previous entries counter acc kept in
      let take = keep_loop previous entries (counter + 1) (f.add acc e.value) (kept ++ (e ∷ [])) in
      if ltb_ℤ e.timestamp previous then skip else take

  pub average_of : ℤ → F → Text → ℤ → Option (List (Entry F)) → Averager F → Result F × Averager F
  unfolding keep_loop
  average_of now value key previous none m =
      (ok value, insert key (record { timestamp = now; value = value } ∷ []) m)
  average_of now value key previous (some entries) m =
      let (counter, acc, kept) = keep_loop previous entries 0 (f.from_int (pos 0)) [] in
      (
        ok (f.div (f.add acc value) (f.from_int (pos (counter + 1)))),
        insert key (kept ++ (record { timestamp = now; value = value } ∷ [])) m,
      )

  -- `MovingAverage`, called at time `now`; `interval` is below 2 ^ 32.
  pub moving_average : ℤ → F → Text → ℤ → ℕ → Averager F → Result F × Averager F
  unfolding average_of series_key
  moving_average now value token sensor interval m =
      let key = series_key token sensor interval in
      average_of now value key (now -ℤ pos interval) (lookup key m) m
