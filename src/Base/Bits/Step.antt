-- ===== src/Base/Bits/Step.antt =====
-- `&` and `|` one binary digit at a time. The native operations mean `bitwise`, a recursion on the
-- digits of the first number with that number as its fuel.
use Prim.Native.Nat.{
  ℕ, zero, suc, ◌+◌, ◌*◌, ◌/◌, ◌%◌, ◌≤◌, min, max, digits, bitwise, bit_and, bit_or,
  bit_and-bitwise, bit_or-bitwise,
}
use mathlib.Core.Path.{◌≡◌, refl, ap}
use native.Mathlib.Omega.{arith}

module _ (tail : ℕ → ℕ) (op : ℕ → ℕ → ℕ) where
  -- Two amounts of fuel that are both enough give the same digits.
  refuel :
      (x y : ℕ) {fuel more : ℕ}
      → x ≤ fuel
      → x ≤ more
      → digits tail op fuel x y ≡ digits tail op more x y
  refuel x y {fuel} {more} enough enough' = by_fuel fuel more x y enough enough'
    where
      by_fuel :
          (fuel more x y : ℕ)
          → x ≤ fuel
          → x ≤ more
          → digits tail op fuel x y ≡ digits tail op more x y
      by_fuel (suc f) (suc g) (suc x) y p q =
          ap (λ (t : ℕ). t * 2 + op (suc x % 2) (y % 2))
            (by_fuel f g (suc x / 2) (y / 2) (omega arith) (omega arith))
      by_fuel (suc f) zero (suc x) y p q = absurd (omega arith)
      by_fuel zero g (suc x) y p q = absurd (omega arith)
      by_fuel zero zero zero y p q = refl
      by_fuel zero (suc g) zero y p q = refl
      by_fuel (suc f) zero zero y p q = refl
      by_fuel (suc f) (suc g) zero y p q = refl

  lowest_digit :
      (x y : ℕ)
      → bitwise tail op (suc x) y ≡ bitwise tail op (suc x / 2) (y / 2) * 2 + op (suc x % 2) (y % 2)
  lowest_digit x y =
      ap (λ (t : ℕ). t * 2 + op (suc x % 2) (y % 2))
        (refuel (suc x / 2) (y / 2) (omega arith) (omega arith))

pub bit_and_step : (x y : ℕ) → bit_and x y ≡ bit_and (x / 2) (y / 2) * 2 + min (x % 2) (y % 2)
bit_and_step (suc x) y = simp bit_and-bitwise (lowest_digit (λ rest. 0) min x y)
bit_and_step zero y = omega (arith, bit_and-bitwise 0 y, bit_and-bitwise 0 (y / 2))

pub bit_or_step : (x y : ℕ) → bit_or x y ≡ bit_or (x / 2) (y / 2) * 2 + max (x % 2) (y % 2)
bit_or_step (suc x) y = simp bit_or-bitwise (lowest_digit (λ rest. rest) max x y)
bit_or_step zero y = omega (arith, bit_or-bitwise 0 y, bit_or-bitwise 0 (y / 2))
