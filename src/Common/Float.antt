-- ===== src/Common/Float.antt =====
-- `float64`, as far as the code uses it: whole constants, sums, quotients and comparisons. Go writes
-- `>=` and `>` for the swapped comparison.
use mathlib.Core.Path.{◌≡◌, refl}
use mathlib.Core.Bool.{Bool, true, false, not}
use mathlib.Core.Option.{Option, none, some}
use Prim.Native.Nat.{◌/◌, ◌+◌}
use native.Mathlib.Omega.{arith}
use iotencoder.Common.Tests.{leb}
use iotencoder.Common.Int.{ℤ, pos, pos_part, neg_part, ◌+ℤ◌, ltb_ℤ, eq_ℤ, eq_ℤ_iff}

pub record Float64 (F : Type 0) : Type 0 where
  pub from_int : ℤ → F
  pub add : F → F → F
  pub div : F → F → F
  pub lt : F → F → Bool
  pub le : F → F → Bool
  pub eq : F → F → Bool

-- The order of IEEE 754: a number is a value that equals itself, NaN is not, and no comparison with
-- NaN holds.
pub record IsIeee (F : Type 0) ⦃f : Float64 F⦄ : Type 0 where
  pub le_numbers : (x y : F) → f.le x y ≡ true → (f.eq x x ≡ true) × (f.eq y y ≡ true)
  pub lt-eq-not-le : (x y : F) → f.eq x x ≡ true → f.eq y y ≡ true → f.lt x y ≡ not (f.le y x)
  pub lt_nan : (x y : F) → f.eq x x ≡ false → (f.lt x y ≡ false) × (f.lt y x ≡ false)
  pub whole_number : (n : ℤ) → f.eq (f.from_int n) (f.from_int n) ≡ true
  pub eq_nan : (x y : F) → f.eq x x ≡ false → f.eq x y ≡ false
  pub le_trans : (x y z : F) → f.le x y ≡ true → f.le y z ≡ true → f.le x z ≡ true

-- The laws can be met: whole numbers, with `none` for NaN.
abbrev pub Whole : Type 0
Whole = Option ℤ

abbrev pub leb_ℤ : ℤ → ℤ → Bool
leb_ℤ a b = leb (pos_part a + neg_part b) (pos_part b + neg_part a)

abbrev on_numbers : (ℤ → ℤ → Bool) → Whole → Whole → Bool
on_numbers p (some a) (some b) = p a b
on_numbers p (some a) none = false
on_numbers p none y = false

abbrev add_whole : Whole → Whole → Whole
add_whole (some a) (some b) = some (a +ℤ b)
add_whole (some a) none = none
add_whole none y = none

-- Division of a positive number by a positive one, rounded down; what the tests need.
abbrev div_whole : Whole → Whole → Whole
div_whole (some (pos a)) (some (pos b)) = some (pos (a / b))
div_whole _ _ = none

instance abbrev pub whole_float : Float64 Whole
whole_float = record {
  from_int = λ n. some n;
  add = add_whole;
  div = div_whole;
  lt = on_numbers ltb_ℤ;
  le = on_numbers leb_ℤ;
  eq = on_numbers eq_ℤ;
}

le_numbers_whole :
    (x y : Whole)
    → whole_float.le x y ≡ true
    → (whole_float.eq x x ≡ true) × (whole_float.eq y y ≡ true)
le_numbers_whole (some a) (some b) h = ground arith
le_numbers_whole (some a) none h = ground arith
le_numbers_whole none y h = ground arith

lt-eq-not-le_whole :
    (x y : Whole)
    → whole_float.eq x x ≡ true
    → whole_float.eq y y ≡ true
    → whole_float.lt x y ≡ not (whole_float.le y x)
lt-eq-not-le_whole (some a) (some b) h k = ground arith
lt-eq-not-le_whole (some a) none h k = ground arith
lt-eq-not-le_whole none y h k = ground arith

lt_nan_whole :
    (x y : Whole)
    → whole_float.eq x x ≡ false
    → (whole_float.lt x y ≡ false) × (whole_float.lt y x ≡ false)
lt_nan_whole (some a) y h = ground arith
lt_nan_whole none y h = ground arith

eq_nan_whole : (x y : Whole) → whole_float.eq x x ≡ false → whole_float.eq x y ≡ false
eq_nan_whole (some a) y h = ground arith
eq_nan_whole none y h = refl

whole_number_whole : (n : ℤ) → whole_float.eq (some n) (some n) ≡ true
whole_number_whole n = ground (arith, eq_ℤ_iff n n)

le_trans_whole :
    (x y z : Whole)
    → whole_float.le x y ≡ true
    → whole_float.le y z ≡ true
    → whole_float.le x z ≡ true
le_trans_whole (some a) (some b) (some c) h k = ground arith
le_trans_whole (some a) (some b) none h k = ground arith
le_trans_whole (some a) none z h k = ground arith
le_trans_whole none y z h k = ground arith

pub Whole-IsIeee : IsIeee Whole
Whole-IsIeee = record {
  le_numbers = le_numbers_whole;
  lt-eq-not-le = lt-eq-not-le_whole;
  lt_nan = lt_nan_whole;
  whole_number = whole_number_whole;
  eq_nan = eq_nan_whole;
  le_trans = le_trans_whole;
}
