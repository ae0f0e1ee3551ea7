-- ===== src/Base/Bits/Step.antt =====
-- What the native bit operations do to the lowest digit, whatever fuel their recursion was given.
use native.Mathlib.Omega.{arith}
use mathlib.Core.Path.{◌≡◌, refl}
use Prim.Native.Nat.{
  bit_xor, bit_xor-bitwise, bit_or, bit_or-bitwise, bit_and, bit_and-bitwise, bitwise, digits,
  differ, max, min, ◌≤◌, ◌%◌, ◌/◌, ◌*◌, ◌+◌, suc, zero, ℕ,
}

module _ (rest : ℕ → ℕ) (digit : ℕ → ℕ → ℕ) where
  -- Fuel above the first operand makes no difference.
  settled :
      (top fuel x y : ℕ)
      → x ≤ fuel
      → fuel ≤ top
      → digits rest digit fuel x y ≡ digits rest digit x x y
  settled top zero zero y low high = refl
  settled top (suc n) zero y low high = refl
  settled top zero (suc x) y low high = absurd (omega arith)
  settled zero (suc n) (suc x) y low high = absurd (omega arith)
  settled (suc top) (suc n) (suc x) y low high =
      let here = settled top n (suc x / 2) (y / 2) (omega arith) (omega arith) in
      let there = settled top x (suc x / 2) (y / 2) (omega arith) (omega arith) in
      omega (arith, here, there)

  -- An operation that means this recursion, and treats the digits that are left alike.
  module _ (op : ℕ → ℕ → ℕ) (means : (x y : ℕ) → op x y ≡ bitwise rest digit x y)
      (even : (y : ℕ) → rest y ≡ digit 0 (y % 2) + 2 * rest (y / 2)) where
    lowest : (x y : ℕ) → op x y ≡ digit (x % 2) (y % 2) + 2 * op (x / 2) (y / 2)
    lowest zero y = omega (arith, means 0 y, means 0 (y / 2), even y)
    lowest (suc x) y =
        let half = settled x x (suc x / 2) (y / 2) (omega arith) (omega arith) in
        omega (arith, means (suc x) y, means (suc x / 2) (y / 2), half)

    -- An operand 0 on the right.
    right_zero :
        (value : ℕ → ℕ)
        → value 0 ≡ rest 0
        → ((x : ℕ) → value x ≡ digit (x % 2) 0 + 2 * value (x / 2))
        → (top x : ℕ) → x ≤ top
        → op x 0 ≡ value x
    right_zero value base next top zero h = omega (arith, means 0 0, base)
    right_zero value base next zero (suc x) h = absurd (omega arith)
    right_zero value base next (suc top) (suc x) h = omega (
      arith,
      lowest (suc x) 0,
      next (suc x),
      right_zero value base next top (suc x / 2) (omega arith),
    )

pub bit_and_step : (x y : ℕ) → bit_and x y ≡ min (x % 2) (y % 2) + 2 * bit_and (x / 2) (y / 2)
bit_and_step = lowest (λ y. 0) min bit_and bit_and-bitwise (λ y. omega arith)

pub bit_or_step : (x y : ℕ) → bit_or x y ≡ max (x % 2) (y % 2) + 2 * bit_or (x / 2) (y / 2)
bit_or_step = lowest (λ y. y) max bit_or bit_or-bitwise (λ y. omega arith)

pub bit_xor_step : (x y : ℕ) → bit_xor x y ≡ differ (x % 2) (y % 2) + 2 * bit_xor (x / 2) (y / 2)
bit_xor_step = lowest (λ y. y) differ bit_xor bit_xor-bitwise (λ y. omega arith)

pub zero-bit_and : (y : ℕ) → bit_and 0 y ≡ 0
zero-bit_and = bit_and-bitwise 0

pub zero-bit_or : (y : ℕ) → bit_or 0 y ≡ y
zero-bit_or = bit_or-bitwise 0

pub bit_and-zero : (x : ℕ) → bit_and x 0 ≡ 0
bit_and-zero x =
    right_zero (λ y. 0) min bit_and bit_and-bitwise (λ y. omega arith) (λ v. 0) refl
      (λ v. omega arith) x x (omega arith)

pub bit_or-zero : (x : ℕ) → bit_or x 0 ≡ x
bit_or-zero x =
    right_zero (λ y. y) max bit_or bit_or-bitwise (λ y. omega arith) (λ v. v) refl
      (λ v. omega arith) x x (omega arith)
