-- ===== src/Common/Decimal.antt =====
-- How `fmt` prints a number under `%v`: decimal digits, and a minus sign.
use iotencoder.Common.Tests.{ltb, ◌==◌, if◌then◌else◌}
use iotencoder.Common.Bytes.{Text}
use iotencoder.Common.Int.{ℤ, pos, negsuc}
use Prim.Native.Nat.{ℕ, zero, suc, ◌+◌, ◌-◌, ◌*◌, ◌/◌, ◌%◌, ◌≤◌, ◌<◌}
use mathlib.Core.Path.{◌≡◌, refl, ◌∙◌, sym, ap}
use mathlib.Core.List.{[], ◌∷◌}
use native.Mathlib.Omega.{arith}

-- The digits of `n` in front of `acc`; `n < fuel` is enough.
digits : ℕ → ℕ → Text → Text
digits zero n acc = acc
digits (suc fuel) n acc =
    let rest = digits fuel (n / 10) ((48 + n % 10) ∷ acc) in
    if ltb n 10 then (48 + n) ∷ acc else rest

unfoldable pub print_nat : ℕ → Text
unfolding digits
print_nat n = digits (suc n) n []

unfoldable pub print_int : ℤ → Text
print_int (pos n) = print_nat n
print_int (negsuc n) = b'-' ∷ print_nat (suc n)

read_from : ℕ → Text → ℕ
read_from acc [] = acc
read_from acc (c ∷ t) = read_from (acc * 10 + (c - 48)) t

abbrev pub AllDigits : Text → Type 0
AllDigits [] = Unit {0}
AllDigits (c ∷ t) = (48 ≤ c) × (c < 58) × AllDigits t

digits-AllDigits : (fuel n : ℕ) (acc : Text) → AllDigits acc → AllDigits (digits fuel n acc)
unfolding digits
digits-AllDigits zero n acc h = h
digits-AllDigits (suc fuel) n acc h =
    ground (arith, digits-AllDigits fuel (n / 10) ((48 + n % 10) ∷ acc))

pub print_nat-AllDigits : (n : ℕ) → AllDigits (print_nat n)
unfolding print_nat
print_nat-AllDigits n = digits-AllDigits (suc n) n [] tt

read_from-digits :
    (fuel n : ℕ) (acc : Text) → n < fuel → read_from 0 (digits fuel n acc) ≡ read_from n acc
unfolding digits read_from
read_from-digits zero n acc h = elim h [ ]
read_from-digits (suc fuel) n acc h =
    ground (arith, read_from-digits fuel (n / 10) ((48 + n % 10) ∷ acc), last_digit n)
  where
    last_digit : (m : ℕ) → m / 10 * 10 + (48 + m % 10 - 48) ≡ m
    last_digit m = omega arith

print_nat_read : (n : ℕ) → read_from 0 (print_nat n) ≡ n
unfolding print_nat read_from
print_nat_read n = read_from-digits (suc n) n [] (omega arith)

-- Two numbers that print alike are equal.
pub print_nat_injective : (m n : ℕ) → print_nat m ≡ print_nat n → m ≡ n
print_nat_injective m n e = sym (print_nat_read m) ∙ ap (read_from 0) e ∙ print_nat_read n

read_int : Text → ℤ
unfolding read_from
read_int [] = pos 0
read_int (c ∷ t) = if c == b'-' then negsuc (read_from 0 t - 1) else pos (read_from 0 (c ∷ t))

read_int-digits : (t : Text) → AllDigits t → read_int t ≡ pos (read_from 0 t)
unfolding read_int
read_int-digits [] h = refl
read_int-digits (c ∷ t) h = ground arith

negative_read : (n : ℕ) → read_int (b'-' ∷ print_nat (suc n)) ≡ negsuc n
unfolding read_int
negative_read n = ground (arith, print_nat_read (suc n))

print_int_read : (a : ℤ) → read_int (print_int a) ≡ a
unfolding print_int
print_int_read (pos n) =
    read_int-digits (print_nat n) (print_nat-AllDigits n) ∙ ap pos (print_nat_read n)
print_int_read (negsuc n) = negative_read n

-- Two integers that print alike are equal.
pub print_int_injective : (a b : ℤ) → print_int a ≡ print_int b → a ≡ b
print_int_injective a b e = sym (print_int_read a) ∙ ap read_int e ∙ print_int_read b
