-- ===== src/Base/Bits.antt =====
-- Bit operations as arithmetic: `&`, `|` and `^` against masks of one bit, of the low bits and of
-- the high bits, at every width.
pub mod Step
pub mod Mod
pub mod Pow
use Step.{
  bit_and_step, bit_or_step, bit_xor_step, bit_and-zero, bit_or-zero, zero-bit_and, zero-bit_or,
}
use mathlib.Core.Path.{◌≡◌, refl, ap, ◌∙◌}
use native.Mathlib.Nat.{
  pow-suc, one-le-pow, mod-eq-sub-div-mul, div-mul-le_self, div-div-eq-div-mul, mul_comm,
  mod-eq_of_lt, mod-le,
}
use Prim.Native.Nat.{
  ℕ, zero, suc, min, max, ◌+◌, ◌-◌, ◌*◌, ◌/◌, ◌%◌, ◌^◌, ◌≤◌, ◌<◌, bit_and, bit_or, bit_xor, differ,
}
use native.Mathlib.Omega.{arith}
use mathlib.Core.Bool.{not}
use alioth.Base.{◌==◌}

-- Bit `k` of `x`, 0 or 1; at a numeral `k` it computes to divisions by two.
abbrev pub bit : ℕ → ℕ → ℕ
bit zero x = x % 2
bit (suc k) x = bit k (x / 2)

pub bit_le_one : (k x : ℕ) → bit k x ≤ 1
bit_le_one zero x = omega arith
bit_le_one (suc k) x = bit_le_one k (x / 2)

half_pow : (k : ℕ) → 2 ^ suc k / 2 ≡ 2 ^ k
half_pow k = omega (arith, pow-suc 2 k)

-- `x & (1 << k)`.
pub bit_and_single : (k x : ℕ) → bit_and x (2 ^ k) ≡ bit k x * 2 ^ k
bit_and_single zero x = omega (arith, bit_and_step x 1, bit_and-zero (x / 2))
bit_and_single (suc k) x = omega (
  arith,
  pow-suc 2 k,
  ap (λ (t : ℕ). bit k (x / 2) * t) (pow-suc 2 k),
  bit_and_step x (2 ^ suc k),
  ap (λ (t : ℕ). bit_and (x / 2) t) (half_pow k),
  bit_and_single k (x / 2),
)

-- `x | (1 << k)`.
pub bit_or_single : (k x : ℕ) → bit_or x (2 ^ k) ≡ x + (1 - bit k x) * 2 ^ k
bit_or_single zero x = omega (arith, bit_or_step x 1, bit_or-zero (x / 2))
bit_or_single (suc k) x = omega (
  arith,
  pow-suc 2 k,
  ap (λ (t : ℕ). (1 - bit k (x / 2)) * t) (pow-suc 2 k),
  bit_or_step x (2 ^ suc k),
  ap (λ (t : ℕ). bit_or (x / 2) t) (half_pow k),
  bit_or_single k (x / 2),
)

half_low : (k : ℕ) → (2 ^ suc k - 1) / 2 ≡ 2 ^ k - 1
half_low k = omega (arith, pow-suc 2 k, one-le-pow k 2)

half_clear : (w : ℕ) → (2 ^ suc w - 1 - 1) / 2 ≡ 2 ^ w - 1
half_clear w = omega (arith, pow-suc 2 w, one-le-pow w 2)

pow_lt : (k w : ℕ) → k < w → 2 ^ k < 2 ^ w
pow_lt k zero h = elim h [ ]
pow_lt zero (suc w) h = omega (arith, pow-suc 2 w, one-le-pow w 2)
pow_lt (suc k) (suc w) h = omega (arith, pow-suc 2 w, pow-suc 2 k, pow_lt k w (omega arith))

half_clear_suc : (k w : ℕ) → k < w → (2 ^ suc w - 1 - 2 ^ suc k) / 2 ≡ 2 ^ w - 1 - 2 ^ k
half_clear_suc k w h = omega (arith, pow-suc 2 w, pow-suc 2 k, pow_lt k w h)

half_field : (k q : ℕ) → q * 2 ^ suc k / 2 ≡ q * 2 ^ k
half_field k q = omega (arith, ap (λ (t : ℕ). q * t) (pow-suc 2 k))

pub mod_half : (k x : ℕ) → x % 2 ^ suc k ≡ x / 2 % 2 ^ k * 2 + x % 2
mod_half k x = omega (
  arith,
  mod-eq-sub-div-mul x (2 ^ suc k),
  mod-eq-sub-div-mul (x / 2) (2 ^ k),
  div-mul-le_self (x / 2) (2 ^ k),
  ap (λ (t : ℕ). t * 2 ^ suc k) (div_half k x),
  ap (λ (t : ℕ). x / 2 / 2 ^ k * t) (pow-suc 2 k),
)
  where
    div_half : (k x : ℕ) → x / 2 ^ suc k ≡ x / 2 / 2 ^ k
    div_half k x = rw (pow-suc, mul_comm, div-div-eq-div-mul)

-- `x & ((1 << k) - 1)`: the low `k` bits.
pub bit_and_low : (k x : ℕ) → bit_and x (2 ^ k - 1) ≡ x % 2 ^ k
bit_and_low zero x = omega (arith, bit_and-zero x)
bit_and_low (suc k) x = omega (
  arith,
  pow-suc 2 k,
  one-le-pow k 2,
  bit_and_step x (2 ^ suc k - 1),
  ap (λ (t : ℕ). bit_and (x / 2) t) (half_low k),
  bit_and_low k (x / 2),
  mod_half k x,
)

-- `x & !((1 << k) - 1)` in `w` bits: all but the low `k` bits.
pub bit_and_high : (k w x : ℕ) → k ≤ w → x < 2 ^ w → bit_and x (2 ^ w - 2 ^ k) ≡ x - x % 2 ^ k
bit_and_high zero w x h lt = omega (arith, bit_and_low w x, mod-eq_of_lt lt)
bit_and_high (suc k) zero x h lt = elim h [ ]
bit_and_high (suc k) (suc w) x h lt = omega (
  arith,
  pow-suc 2 w,
  pow-suc 2 k,
  mod_half k x,
  mod-le (x / 2) (2 ^ k),
  bit_and_step x (2 ^ suc w - 2 ^ suc k),
  ap (λ (t : ℕ). bit_and (x / 2) t) (half_high k w),
  bit_and_high k w (x / 2) (omega arith) (omega (arith, pow-suc 2 w)),
)
  where
    half_high : (k w : ℕ) → (2 ^ suc w - 2 ^ suc k) / 2 ≡ 2 ^ w - 2 ^ k
    half_high k w = omega (arith, pow-suc 2 w, pow-suc 2 k)

bit-mul-le : (k x : ℕ) → bit k x * 2 ^ k ≤ x
bit-mul-le zero x = omega arith
bit-mul-le (suc k) x =
    omega (arith, ap (λ (t : ℕ). bit k (x / 2) * t) (pow-suc 2 k), bit-mul-le k (x / 2))

-- `x & !(1 << k)` in `w` bits.
pub bit_and_clear :
    (k w x : ℕ) → k < w → x < 2 ^ w → bit_and x (2 ^ w - 1 - 2 ^ k) ≡ x - bit k x * 2 ^ k
bit_and_clear k zero x h lt = elim h [ ]
bit_and_clear zero (suc w) x h lt = omega (
  arith,
  pow-suc 2 w,
  one-le-pow w 2,
  bit_and_step x (2 ^ suc w - 1 - 1),
  ap (λ (t : ℕ). bit_and (x / 2) t) (half_clear w),
  bit_and_low w (x / 2),
  mod-eq_of_lt {n = x / 2} {m = 2 ^ w} (omega (arith, pow-suc 2 w)),
)
bit_and_clear (suc k) (suc w) x h lt = omega (
  arith,
  pow-suc 2 w,
  pow-suc 2 k,
  pow_lt k w (omega arith),
  bit-mul-le k (x / 2),
  ap (λ (t : ℕ). bit k (x / 2) * t) (pow-suc 2 k),
  bit_and_step x (2 ^ suc w - 1 - 2 ^ suc k),
  ap (λ (t : ℕ). bit_and (x / 2) t) (half_clear_suc k w (omega arith)),
  bit_and_clear k w (x / 2) (omega arith) (omega (arith, pow-suc 2 w)),
)

-- A low part of `w` bits, or-ed into a number whose low `w` bits are clear.
pub bit_or-high_low : (w hi lo : ℕ) → lo < 2 ^ w → bit_or (hi * 2 ^ w) lo ≡ hi * 2 ^ w + lo
bit_or-high_low zero hi lo h =
    omega (arith, ap (λ (t : ℕ). bit_or (hi * 1) t) (lo_zero lo h), bit_or-zero (hi * 1))
  where
    lo_zero : (lo : ℕ) → lo < 1 → lo ≡ 0
    lo_zero lo h = omega arith
bit_or-high_low (suc w) hi lo h = omega (
  arith,
  pow-suc 2 w,
  ap (λ (t : ℕ). hi * t) (pow-suc 2 w),
  bit_or_step (hi * 2 ^ suc w) lo,
  ap (λ (t : ℕ). bit_or t (lo / 2)) (half_field w hi),
  bit_or-high_low w hi (lo / 2) (omega (arith, pow-suc 2 w)),
)

-- The same with the low part first.
pub bit_or-low_high : (k q r : ℕ) → r < 2 ^ k → bit_or r (q * 2 ^ k) ≡ q * 2 ^ k + r
bit_or-low_high zero q r h =
    omega (arith, ap (λ (t : ℕ). bit_or t (q * 1)) (r_zero r h), zero-bit_or (q * 1))
  where
    r_zero : (r : ℕ) → r < 1 → r ≡ 0
    r_zero r h = omega arith
bit_or-low_high (suc k) q r h = omega (
  arith,
  pow-suc 2 k,
  ap (λ (t : ℕ). q * t) (pow-suc 2 k),
  bit_or_step r (q * 2 ^ suc k),
  ap (λ (t : ℕ). bit_or (r / 2) t) (half_field k q),
  bit_or-low_high k q (r / 2) (omega (arith, pow-suc 2 k)),
)

-- The bits of `a | b` and `a & b`.
pub bit-bit_or : (k a b : ℕ) → bit k (bit_or a b) ≡ max (bit k a) (bit k b)
bit-bit_or zero a b = omega (arith, bit_or_step a b)
bit-bit_or (suc k) a b =
    ap (λ (t : ℕ). bit k t) {y = bit_or (a / 2) (b / 2)} (omega (arith, bit_or_step a b))
    ∙ bit-bit_or k (a / 2) (b / 2)

pub bit-bit_and : (k a b : ℕ) → bit k (bit_and a b) ≡ min (bit k a) (bit k b)
bit-bit_and zero a b = omega (arith, bit_and_step a b)
bit-bit_and (suc k) a b =
    ap (λ (t : ℕ). bit k t) {y = bit_and (a / 2) (b / 2)} (omega (arith, bit_and_step a b))
    ∙ bit-bit_and k (a / 2) (b / 2)

differ_digits : (x y : ℕ) → x ≤ 1 → y ≤ 1 → (differ x y ≤ 1) × ((differ x y == 1) ≡ not (x == y))
differ_digits zero zero h k = (omega arith, refl)
differ_digits zero (suc zero) h k = (omega arith, refl)
differ_digits zero (suc (suc y)) h k = absurd (omega arith)
differ_digits (suc zero) zero h k = (omega arith, refl)
differ_digits (suc zero) (suc zero) h k = (omega arith, refl)
differ_digits (suc zero) (suc (suc y)) h k = absurd (omega arith)
differ_digits (suc (suc x)) y h k = absurd (omega arith)

-- A bit of `a ^ b` is set where those of `a` and `b` differ.
pub bit-bit_xor : (k a b : ℕ) → (bit k (bit_xor a b) == 1) ≡ not (bit k a == bit k b)
bit-bit_xor k a b =
    ap (λ (t : ℕ). t == 1) (digit k a b)
    ∙ (differ_digits (bit k a) (bit k b) (bit_le_one k a) (bit_le_one k b)).1
  where
    digit : (k a b : ℕ) → bit k (bit_xor a b) ≡ differ (bit k a) (bit k b)
    digit zero a b =
        omega
          (arith, bit_xor_step a b, (differ_digits (a % 2) (b % 2) (omega arith) (omega arith)).0)
    digit (suc k) a b =
        ap (λ (t : ℕ). bit k t) {y = bit_xor (a / 2) (b / 2)}
          (omega (
            arith,
            bit_xor_step a b,
            (differ_digits (a % 2) (b % 2) (omega arith) (omega arith)).0,
          ))
        ∙ digit k (a / 2) (b / 2)
