-- ===== src/Base/Bits/Pow.antt =====
-- Powers of two as factors.
use alioth.Base.{ℕ, zero, suc, ◌+◌, ◌-◌, ◌*◌, ◌^◌, ◌≤◌, ◌≡◌, arith, ap}
use native.Mathlib.Nat.{pow-suc}

plus_zero : (r : ℕ) → r + 0 ≡ r
plus_zero r = omega arith

plus_suc : (r j : ℕ) → r + suc j ≡ suc (r + j)
plus_suc r j = omega arith

pow_split : (r j : ℕ) → 2 ^ (r + j) ≡ 2 ^ r * 2 ^ j
pow_split r zero = omega (arith, ap (λ (t : ℕ). 2 ^ t) (plus_zero r))
pow_split r (suc j) = omega (
  arith,
  ap (λ (t : ℕ). 2 ^ t) (plus_suc r j),
  pow-suc 2 (r + j),
  pow_split r j,
  ap (λ (t : ℕ). 2 ^ r * t) (pow-suc 2 j),
)

-- A multiple of a power of two is one of any smaller power.
pub multiple_down : (q k j : ℕ) → j ≤ k → q * 2 ^ k ≡ q * 2 ^ (k - j) * 2 ^ j
multiple_down q k j h =
    omega
      (arith, ap (λ (t : ℕ). q * 2 ^ t) (split k j h), ap (λ (t : ℕ). q * t) (pow_split (k - j) j))
  where
    split : (k j : ℕ) → j ≤ k → k ≡ k - j + j
    split k j h = omega arith
