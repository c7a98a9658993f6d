-- ===== src/Pipeline/Binning/OneHot.antt =====
-- The shape of what `BinValue` (pkg/pipeline/pipeline.go) returns: one entry for each bin and one
-- more, a single one of them set.
use iotencoder.Common.{
  ℕ, zero, suc, ◌+◌, ◌≤◌, ◌<◌, ◌≡◌, refl, ◌&&◌, Bool, List, [], ◌∷◌, length, set, replicate,
  length-set, length-replicate, if◌then◌else◌, arith, ◌∙◌,
}
use native.Mathlib.Numerals.{add-one}
use iotencoder.Common.Float.{Float64}
use iotencoder.Pipeline.Binning.{bin_rest, bin_value}

abbrev finish : ℕ → List ℕ × Bool → List ℕ
finish last (binned, classified) = if classified then binned else set binned last 1

-- The index that the tests of the loop choose, apart from what the loop writes.
module _ {F : Type 0} ⦃f : Float64 F⦄ where
  unfoldable pub rest_index : F → F → List F → ℕ
  rest_index value prev [] = 0
  rest_index value prev (b ∷ bins) =
      let rest = rest_index value b bins in if f.lt value b && f.le prev value then 0 else suc rest

  unfoldable pub bin_index : F → List F → ℕ
  unfolding rest_index
  bin_index value [] = 0
  bin_index value (b ∷ bins) = if f.lt value b then 0 else suc (rest_index value b bins)

  rest_index-le : (value prev : F) (bins : List F) → rest_index value prev bins ≤ length bins
  unfolding rest_index
  rest_index-le value prev [] = omega arith
  rest_index-le value prev (b ∷ bins) = ground (arith, rest_index-le value b bins)

  pub bin_index-le : (value : F) (bins : List F) → bin_index value bins ≤ length bins
  unfolding bin_index
  bin_index-le value [] = omega arith
  bin_index-le value (b ∷ bins) = ground (arith, rest_index-le value b bins)

  bin_rest-finish :
      (value prev : F) (bins : List F) (i : ℕ) (binned : List ℕ)
      → finish (i + length bins) (bin_rest value prev bins i binned)
        ≡ set binned (i + rest_index value prev bins) 1
  unfolding bin_rest rest_index
  bin_rest-finish value prev [] i binned = ground arith
  bin_rest-finish value prev (b ∷ bins) i binned =
      ground (arith, bin_rest-finish value b bins (suc i) binned)

  pub bin_value-eq-set :
      (value : F) (bins : List F)
      → bin_value value bins ≡ set (replicate (length bins + 1) 0) (bin_index value bins) 1
  unfolding bin_value bin_index
  bin_value-eq-set value [] = ground arith
  bin_value-eq-set value (b ∷ bins) =
      let zeros : List ℕ = replicate (length (b ∷ bins) + 1) 0 in
      ground (arith, add-one (length bins), bin_rest-finish value b bins 1 zeros)

abbrev pub sum : List ℕ → ℕ
sum [] = 0
sum (x ∷ xs) = x + sum xs

sum-replicate_zero : (n : ℕ) → sum (replicate n 0) ≡ 0
sum-replicate_zero zero = refl
sum-replicate_zero (suc n) = omega (arith, sum-replicate_zero n)

sum-set_zero : (n i v : ℕ) → i < n → sum (set (replicate n 0) i v) ≡ v
sum-set_zero zero i v h = elim h [ ]
sum-set_zero (suc n) zero v h = omega (arith, sum-replicate_zero n)
sum-set_zero (suc n) (suc i) v h = omega (arith, sum-set_zero n i v)

module _ {F : Type 0} ⦃f : Float64 F⦄ where
  -- For any value and any bins, sorted or not, the result has one entry more than there are bins and
  -- its entries add up to 1.
  pub bin_value_counts_once :
      (value : F) (bins : List F)
      → (length (bin_value value bins) ≡ length bins + 1) × (sum (bin_value value bins) ≡ 1)
  bin_value_counts_once value bins =
      let n = length bins + 1 in
      let i = bin_index value bins in
      rw (bin_value-eq-set value bins) (
        length-set (replicate n 0) i 1 ∙ length-replicate n 0,
        sum-set_zero n i 1 (omega (arith, bin_index-le value bins)),
      )
