-- ===== src/Pipeline/Binning/Counting.antt =====
-- `BinValue` (pkg/pipeline/pipeline.go) beside a plain description of it: the index of the bin is the number
-- of bounds that are at most the value.
use iotencoder.Common.{
  ℕ, suc, ◌+◌, ◌≡◌, refl, arith, ap, ◌∙◌, true, List, [], ◌∷◌, length, set, replicate,
  if◌then◌else◌,
}
use iotencoder.Common.Float.{Float64, IsIeee}
use iotencoder.Pipeline.Binning.{bin_value}
use iotencoder.Pipeline.Binning.OneHot.{rest_index, bin_index, bin_value-eq-set}
use iotencoder.Pipeline.Binning.Sorted.{RisesFrom, Rises}

module _ {F : Type 0} ⦃f : Float64 F⦄ where
  -- How many bounds are at most the value.
  unfoldable pub at_most : F → List F → ℕ
  at_most value [] = 0
  at_most value (b ∷ bins) =
      let rest = at_most value bins in if f.le b value then suc rest else rest

  module _ (laws : IsIeee F) (value : F) (number : f.eq value value ≡ true) where
    open laws use {le_numbers, lt-eq-not-le, le_trans}

    -- Bounds that rise from one above the value are above it.
    at_most-above :
        (c : F) (bins : List F)
        → f.eq c c ≡ true
        → RisesFrom c bins
        → f.lt value c ≡ true
        → at_most value bins ≡ 0
    unfolding at_most
    at_most-above c [] n r h = refl
    at_most-above c (d ∷ bins) n r h = ground (
      arith,
      lt-eq-not-le value c number n,
      lt-eq-not-le value d number (le_numbers c d r.0).1,
      le_trans c d value r.0,
      at_most-above d bins (le_numbers c d r.0).1 r.1,
    )

    rest_index-at_most :
        (prev : F) (bins : List F)
        → RisesFrom prev bins
        → f.le prev value ≡ true
        → rest_index value prev bins ≡ at_most value bins
    unfolding rest_index at_most
    rest_index-at_most prev [] r p = refl
    rest_index-at_most prev (c ∷ bins) r p = ground (
      arith,
      lt-eq-not-le value c number (le_numbers prev c r.0).1,
      at_most-above c bins (le_numbers prev c r.0).1 r.1,
      rest_index-at_most c bins r.1,
    )

    bin_index-at_most : (bins : List F) → Rises bins → bin_index value bins ≡ at_most value bins
    unfolding bin_index at_most
    bin_index-at_most [] r = refl
    bin_index-at_most (c ∷ bins) r = ground (
      arith,
      lt-eq-not-le value c number r.0,
      at_most-above c bins r.0 r.1,
      rest_index-at_most c bins r.1,
    )

    -- For bins that rise and a value that is a number, the result of bin_value is the list of zeros, one
    -- more than there are bins, with a 1 at the number of bounds that are at most the value.
    pub bin_value-at_most :
        (bins : List F)
        → Rises bins
        → bin_value value bins ≡ set (replicate (length bins + 1) 0) (at_most value bins) 1
    bin_value-at_most bins r =
        bin_value-eq-set value bins
        ∙ ap (λ i. set (replicate (length bins + 1) 0) i 1) (bin_index-at_most bins r)
