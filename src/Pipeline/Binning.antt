-- ===== src/Pipeline/Binning.antt =====
-- `BinValue` of pkg/pipeline/pipeline.go, for any `float64`.
pub mod OneHot
pub mod Sorted
pub mod Counting
use iotencoder.Common.{
  ℕ, zero, suc, ◌+◌, Bool, true, false, ◌&&◌, List, [], ◌∷◌, length, set, replicate, if◌then◌else◌,
}
use iotencoder.Common.Float.{Float64}

module _ {F : Type 0} ⦃f : Float64 F⦄ where
  -- The rounds of the loop after the first: `i` is the index, `prev` is `bins[i-1]`. The result is
  -- `binnedValues` and `classified`.
  pub bin_rest : F → F → List F → ℕ → List ℕ → List ℕ × Bool
  bin_rest value prev [] i binned = (binned, false)
  bin_rest value prev (b ∷ bins) i binned =
      let rest = bin_rest value b bins (suc i) binned in
      if f.lt value b && f.le prev value then (set binned i 1, true) else rest

  pub bin_loop : F → List F → List ℕ → List ℕ × Bool
  unfolding bin_rest
  bin_loop value [] binned = (binned, false)
  bin_loop value (b ∷ bins) binned =
      if f.lt value b then (set binned 0 1, true) else bin_rest value b bins 1 binned

  pub bin_value : F → List F → List ℕ
  unfolding bin_loop
  bin_value value bins =
      let (binned, classified) = bin_loop value bins (replicate (length bins + 1) 0) in
      if classified then binned else set binned (length bins) 1
