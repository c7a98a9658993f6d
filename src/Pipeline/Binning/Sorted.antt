-- ===== src/Pipeline/Binning/Sorted.antt =====
-- Where the bins rise, `BinValue` (pkg/pipeline/pipeline.go) marks the bin whose bounds enclose the
-- value, and NaN goes into the last one.
use iotencoder.Common.{
  ℕ, zero, suc, ◌<◌, ◌≡◌, refl, ◌+◌, true, false, List, [], ◌∷◌, length, get_elem?, set, replicate,
  some, arith, ◌∙◌, ap,
}
use iotencoder.Common.Float.{Float64, IsIeee}
use iotencoder.Pipeline.Binning.{bin_value}
use iotencoder.Pipeline.Binning.OneHot.{rest_index, bin_index, bin_value-eq-set}

module _ {F : Type 0} ⦃f : Float64 F⦄ where
  -- Each bound is at least the one before it.
  abbrev pub RisesFrom : F → List F → Type 0
  RisesFrom prev [] = Unit {0}
  RisesFrom prev (b ∷ bins) = (f.le prev b ≡ true) × RisesFrom b bins

  abbrev pub Rises : List F → Type 0
  Rises [] = Unit {0}
  Rises (b ∷ bins) = (f.eq b b ≡ true) × RisesFrom b bins

  abbrev mark : List F → ℕ → List ℕ
  mark bins i = set (replicate (length bins + 1) 0) i 1

  -- The entry at index `i` is marked, every bound before `i` is at most the value, and the bound
  -- at `i`, if there is one, is above it.
  pub record Encloses (value : F) (bins : List F) (i : ℕ) : Type 0 where
    pub marked : bin_value value bins ≡ set (replicate (length bins + 1) 0) i 1
    pub below : (j : ℕ) (b : F) → j < i → get_elem? bins j ≡ some b → f.le b value ≡ true
    pub above : (b : F) → get_elem? bins i ≡ some b → f.lt value b ≡ true

  module _ (laws : IsIeee F) (value : F) (number : f.eq value value ≡ true) where
    open laws use {le_numbers, lt-eq-not-le}

    rest_below :
        (prev : F) (bins : List F) (j : ℕ) (b : F)
        → RisesFrom prev bins
        → f.le prev value ≡ true
        → j < rest_index value prev bins
        → get_elem? bins j ≡ some b
        → f.le b value ≡ true
    unfolding rest_index
    rest_below prev [] j b r p h e = cc
    rest_below prev (c ∷ bins) zero b r p h e =
        ground (arith, le_numbers prev c r.0, lt-eq-not-le value c number)
    rest_below prev (c ∷ bins) (suc j) b r p h e =
        ground
          (arith, le_numbers prev c r.0, lt-eq-not-le value c number, rest_below c bins j b r.1)

    bin_below :
        (bins : List F) (j : ℕ) (b : F)
        → Rises bins
        → j < bin_index value bins
        → get_elem? bins j ≡ some b
        → f.le b value ≡ true
    unfolding bin_index
    bin_below [] j b r h e = cc
    bin_below (c ∷ bins) zero b r h e = ground (arith, lt-eq-not-le value c number r.0)
    bin_below (c ∷ bins) (suc j) b r h e =
        ground (arith, lt-eq-not-le value c number r.0, rest_below c bins j b r.1)

    rest_above :
        (prev : F) (bins : List F) (b : F)
        → RisesFrom prev bins
        → f.le prev value ≡ true
        → get_elem? bins (rest_index value prev bins) ≡ some b
        → f.lt value b ≡ true
    unfolding rest_index
    rest_above prev [] b r p e = cc
    rest_above prev (c ∷ bins) b r p e =
        ground (arith, le_numbers prev c r.0, lt-eq-not-le value c number, rest_above c bins b r.1)

    bin_above :
        (bins : List F) (b : F)
        → Rises bins
        → get_elem? bins (bin_index value bins) ≡ some b
        → f.lt value b ≡ true
    unfolding bin_index
    bin_above [] b r e = cc
    bin_above (c ∷ bins) b r e =
        ground (arith, lt-eq-not-le value c number r.0, rest_above c bins b r.1)

    -- For bins that rise and a value that is a number, `bin_value` marks the entry whose bounds
    -- enclose the value: every bound before it is at most the value, and the bound at it, if there
    -- is one, is above the value.
    pub bin_value-Encloses :
        (bins : List F) → Rises bins → Encloses value bins (bin_index value bins)
    bin_value-Encloses bins r = record {
      marked = bin_value-eq-set value bins;
      below = λ j b h e. bin_below bins j b r h e;
      above = λ b e. bin_above bins b r e;
    }

  module _ (laws : IsIeee F) (value : F) (nan : f.eq value value ≡ false) where
    open laws use {lt_nan}

    rest_index_nan : (prev : F) (bins : List F) → rest_index value prev bins ≡ length bins
    unfolding rest_index
    rest_index_nan prev [] = refl
    rest_index_nan prev (b ∷ bins) = ground (arith, lt_nan value b nan, rest_index_nan b bins)

    bin_index_nan : (bins : List F) → bin_index value bins ≡ length bins
    unfolding bin_index
    bin_index_nan [] = refl
    bin_index_nan (b ∷ bins) = ground (arith, lt_nan value b nan, rest_index_nan b bins)

    -- A value that is NaN is counted in the last bin, whatever the bins are.
    pub bin_value_nan :
        (bins : List F) → bin_value value bins ≡ set (replicate (length bins + 1) 0) (length bins) 1
    bin_value_nan bins = bin_value-eq-set value bins ∙ ap (mark bins) (bin_index_nan bins)
