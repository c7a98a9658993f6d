-- ===== src/Pipeline/MovingAverage/Race.antt =====
-- `MovingAverage` of pkg/pipeline/moving_averager.go as two steps, for it gives up its lock between the read
-- of the map and the write.
use iotencoder.Common.{ℕ, ℤ, pos, ◌-ℤ◌, ◌≡◌, ◌≢◌, sym, ap, ◌∙◌, Text, List, Option, Result}
use iotencoder.Common.Float.{Float64}
use iotencoder.Common.Dict.{lookup, lookup-insert_self, lookup-insert_ne}
use iotencoder.Pipeline.MovingAverage.{Entry, Averager, series_key, average_of, moving_average}
use iotencoder.Pipeline.MovingAverage.Window.{average_of_lem, moving_average_lem}

module _ {F : Type 0} ⦃f : Float64 F⦄ (token : Text) (sensor : ℤ) (interval : ℕ) where
  -- The read, under the first lock.
  unfoldable pub entries_read : Averager F → Option (List (Entry F))
  entries_read m = lookup (series_key token sensor interval) m

  -- The rest of the call, with what was read, on the map as it then is.
  unfoldable pub average_written :
      ℤ → F → Option (List (Entry F)) → Averager F → Result F × Averager F
  average_written now value entries m =
      average_of now value (series_key token sensor interval) (now -ℤ pos interval) entries m

  -- Two calls for one series that both read the map before either writes it: the second one answers,
  -- and leaves of the series, what it would if the first one had not been made; so the value of the
  -- first one is lost. Other series are as before.
  pub moving_average_race :
      (first_time : ℤ) (first : F) (second_time : ℤ) (second : F) (m : Averager F)
      → let entries = entries_read m in
        let m1 = (average_written first_time first entries m).1 in
        let (r, m2) = average_written second_time second entries m1 in
        let key = series_key token sensor interval in
        let (alone, m') = moving_average second_time second token sensor interval m in
        (r ≡ alone)
        × (lookup key m2 ≡ lookup key m')
        × ((j : Text) → key ≢ j → lookup j m2 ≡ lookup j m)
  unfolding entries_read average_written
  moving_average_race first_time first second_time second m =
      let key = series_key token sensor interval in
      let since = second_time -ℤ pos interval in
      let o = lookup key m in
      let earlier = average_of_lem first_time first key (first_time -ℤ pos interval) o m in
      let m1 = (average_of first_time first key (first_time -ℤ pos interval) o m).1 in
      let later = average_of_lem second_time second key since o m1 in
      let single = moving_average_lem second_time second token sensor interval m in
      (
        ap (λ a. a.0) later ∙ sym (ap (λ a. a.0) single),
        ap (λ a. lookup key a.1) later
            ∙ lookup-insert_self key _ m1
            ∙ sym (lookup-insert_self key _ m)
            ∙ sym (ap (λ a. lookup key a.1) single),
        λ j h.
            ap (λ a. lookup j a.1) later
            ∙ lookup-insert_ne key j _ m1 h
            ∙ ap (λ a. lookup j a.1) earlier
            ∙ lookup-insert_ne key j _ m h,
      )
