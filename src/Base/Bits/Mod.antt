-- ===== src/Base/Bits/Mod.antt =====
-- `&` with a mask of `w` bits looks at the low `w` bits only.
use alioth.Base.{ℕ, zero, suc, ◌/◌, ◌%◌, ◌^◌, ◌<◌, ◌≡◌, bit_and, arith, ap, sym, ◌∙◌}
use native.Mathlib.Nat.{pow-suc}
use alioth.Base.Bits.{mod_half}
use alioth.Base.Bits.Step.{bit_and_step, bit_and-zero}

pub bit_and_mod : (w x m : ℕ) → m < 2 ^ w → bit_and (x % 2 ^ w) m ≡ bit_and x m
bit_and_mod zero x m h =
    let z : m ≡ 0 = omega arith in
    ap (bit_and (x % 1)) z ∙ bit_and-zero (x % 1) ∙ sym (ap (bit_and x) z ∙ bit_and-zero x)
bit_and_mod (suc w) x m h = omega (
  arith,
  pow-suc 2 w,
  bit_and_step x m,
  bit_and_step (x % 2 ^ suc w) m,
  ap (λ (t : ℕ). bit_and t (m / 2)) (half w x),
  low w x,
  bit_and_mod w (x / 2) (m / 2) (omega (arith, pow-suc 2 w)),
)
  where
    half : (w x : ℕ) → x % 2 ^ suc w / 2 ≡ x / 2 % 2 ^ w
    half w x = omega (arith, mod_half w x)

    low : (w x : ℕ) → x % 2 ^ suc w % 2 ≡ x % 2
    low w x = omega (arith, mod_half w x)
