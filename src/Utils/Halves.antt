-- ===== src/Utils/Halves.antt =====
-- utils.rs in arithmetic.
use alioth.Base.{ℕ, ◌+◌, ◌-◌, ◌*◌, ◌/◌, ◌%◌, ◌^◌, ◌<◌, ◌≤◌, ◌≡◌, ◌∙◌, bit_and, arith}
use native.Mathlib.Nat.{one-le-pow, mod-eq-sub-div-mul, div-mul-le_self, mod-lt, mul-mod_left}
use alioth.Base.Word.{u64}
use alioth.Base.Bits.{bit_and_low, bit_and_high, bit_or-high_low, bit_or-low_high}
use alioth.Utils.{get_atomic_low32, get_atomic_high32, set_low32, set_high32, align_up}

pub set_low32_lem :
    (num val : ℕ) → num < 2 ^ 64 → val < 2 ^ 32 → set_low32 num val ≡ num / 2 ^ 32 * 2 ^ 32 + val
unfolding set_low32
set_low32_lem num val h lt =
    let high : bit_and num (2 ^ 64 - 2 ^ 32) ≡ num / 2 ^ 32 * 2 ^ 32 =
      omega (arith, bit_and_high 32 64 num (omega arith) h) in
    rw high (bit_or-high_low 32 (num / 2 ^ 32) val lt)

pub set_high32_lem : (num val : ℕ) → val < 2 ^ 32 → set_high32 num val ≡ val * 2 ^ 32 + num % 2 ^ 32
unfolding set_high32
set_high32_lem num val lt =
    let low : bit_and num (2 ^ 32 - 1) ≡ num % 2 ^ 32 = bit_and_low 32 num in
    let high : u64 (val * 2 ^ 32) ≡ val * 2 ^ 32 = omega arith in
    rw low (rw high (bit_or-low_high 32 val (num % 2 ^ 32) (omega arith)))

-- A half that is written is read back, and the other one is as before.
pub halves_lem :
    (num val : ℕ)
    → num < 2 ^ 64
    → val < 2 ^ 32
    → (get_atomic_low32 (set_low32 num val) ≡ val)
      × (get_atomic_high32 (set_low32 num val) ≡ get_atomic_high32 num)
      × (get_atomic_high32 (set_high32 num val) ≡ val)
      × (get_atomic_low32 (set_high32 num val) ≡ get_atomic_low32 num)
unfolding get_atomic_low32 get_atomic_high32
halves_lem num val h lt =
    rw (set_low32_lem num val h lt)
      (rw (set_high32_lem num val lt) (omega arith, omega arith, omega arith, omega arith))

-- `align_up!` gives the first multiple of the alignment that is not below the number.
pub align_up_lem :
    (num : ℕ) (bits : ℕ)
    → bits ≤ 64
    → num + 2 ^ bits ≤ 2 ^ 64
    → (align_up num bits % 2 ^ bits ≡ 0)
      × (num ≤ align_up num bits)
      × (align_up num bits < num + 2 ^ bits)
unfolding align_up
align_up_lem num bits h fits =
    let x = num + (2 ^ bits - 1) in
    let wraps : u64 x ≡ x = omega (arith, one-le-pow bits 2) in
    let cut : align_up num bits ≡ x - x % 2 ^ bits =
      rw (wraps, align_up) (bit_and_high bits 64 x h (omega (arith, one-le-pow bits 2))) in
    let whole : x - x % 2 ^ bits ≡ x / 2 ^ bits * 2 ^ bits =
      omega (arith, mod-eq-sub-div-mul x (2 ^ bits), div-mul-le_self x (2 ^ bits)) in
    let short : x % 2 ^ bits < 2 ^ bits =
      omega
        (arith, one-le-pow bits 2, mod-lt x {m = 2 ^ bits} (omega (arith, one-le-pow bits 2))) in
    (
      rw (cut ∙ whole) (mul-mod_left (x / 2 ^ bits) (2 ^ bits)),
      omega (arith, cut, short, one-le-pow bits 2),
      omega (arith, cut, short, one-le-pow bits 2),
    )
