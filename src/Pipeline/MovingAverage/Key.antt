-- ===== src/Pipeline/MovingAverage/Key.antt =====
-- The map key of pkg/pipeline/moving_averager.go keeps the series of different devices, sensors and
-- intervals apart, also where a device token holds a colon.
use iotencoder.Common.{
  ℕ, suc, ◌≡◌, refl, ◌≢◌, ℤ, pos, negsuc, Text, [], ◌∷◌, ◌++◌, Option, none, some, ◌==◌, arith,
  if◌then◌else◌, ◌∙◌, sym, ap,
}
use mathlib.Core.List.{append_assoc}
use iotencoder.Common.Decimal.{
  print_int, print_nat, print_nat_injective, print_int_injective, AllDigits, print_nat-AllDigits,
}
use iotencoder.Pipeline.MovingAverage.{series_key}

-- A text cut at its last colon.
last_cut : Text → Option (Text × Text)
last_cut [] = none
last_cut (c ∷ t) = elim (last_cut t) [
  | some (a, b) ↦ some (c ∷ a, b)
  | none ↦ if c == b':' then some ([], t) else none
]

abbrev NoColon : Text → Type 0
NoColon [] = Unit {0}
NoColon (c ∷ t) = (c ≢ b':') × NoColon t

last_cut-none : (t : Text) → NoColon t → last_cut t ≡ none
unfolding last_cut
last_cut-none [] h = refl
last_cut-none (c ∷ t) h = ground (arith, last_cut-none t h.1)

last_cut-append : (s t : Text) → NoColon t → last_cut (s ++ (b':' ∷ t)) ≡ some (s, t)
unfolding last_cut
last_cut-append [] t h = ground (arith, last_cut-none t h)
last_cut-append (c ∷ s) t h = ground (arith, last_cut-append s t h)

cut_injective :
    (s s' t t' : Text)
    → NoColon t
    → NoColon t'
    → s ++ (b':' ∷ t) ≡ s' ++ (b':' ∷ t')
    → (s ≡ s') × (t ≡ t')
cut_injective s s' t t' h h' e =
    ground (arith, last_cut-append s t h, last_cut-append s' t' h', ap last_cut e)

digits-NoColon : (t : Text) → AllDigits t → NoColon t
digits-NoColon [] h = tt
digits-NoColon (c ∷ t) h = ground (arith, digits-NoColon t h.2)

print_nat-NoColon : (n : ℕ) → NoColon (print_nat n)
print_nat-NoColon n = digits-NoColon (print_nat n) (print_nat-AllDigits n)

minus-NoColon : (t : Text) → NoColon t → NoColon (b'-' ∷ t)
minus-NoColon t h = (omega arith, h)

print_int-NoColon : (a : ℤ) → NoColon (print_int a)
unfolding print_int
print_int-NoColon (pos n) = print_nat-NoColon n
print_int-NoColon (negsuc n) = minus-NoColon (print_nat (suc n)) (print_nat-NoColon (suc n))

-- Two keys are equal only for one token, one sensor and one interval.
pub series_key_injective :
    (s t : Text) (a b : ℤ) (i j : ℕ)
    → series_key s a i ≡ series_key t b j
    → (s ≡ t) × (a ≡ b) × (i ≡ j)
unfolding series_key
series_key_injective s t a b i j e =
    let front = λ (r : Text) (c : ℤ). r ++ (b':' ∷ print_int c) in
    let (heads, intervals) =
      cut_injective (front s a) (front t b) (print_nat i) (print_nat j) (print_nat-NoColon i)
        (print_nat-NoColon j)
        (append_assoc s (b':' ∷ print_int a) (b':' ∷ print_nat i)
          ∙ e
          ∙ sym (append_assoc t (b':' ∷ print_int b) (b':' ∷ print_nat j))) in
    let (tokens, sensors) =
      cut_injective s t (print_int a) (print_int b) (print_int-NoColon a) (print_int-NoColon b)
        heads in
    (tokens, print_int_injective a b sensors, print_nat_injective i j intervals)
