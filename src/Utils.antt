-- ===== src/Utils.antt =====
-- alioth/src/utils/utils.rs: halves of a 64-bit register, truncation and alignment.
pub mod Halves
use alioth.Base.{ℕ, ◌+◌, ◌-◌, ◌*◌, ◌/◌, ◌%◌, ◌^◌, bit_and, bit_or, arith}
use alioth.Base.Word.{u32, u64}

-- `val & (u64::MAX >> (64 - (size << 3)))`, where the shift is in range: 0 < size ≤ 8.
unfoldable pub truncate_u64 : ℕ → ℕ → ℕ
truncate_u64 val size = bit_and val ((2 ^ 64 - 1) / 2 ^ (64 - size * 8))

unfoldable pub get_atomic_low32 : ℕ → ℕ
get_atomic_low32 num = u32 num

unfoldable pub get_atomic_high32 : ℕ → ℕ
get_atomic_high32 num = u32 (num / 2 ^ 32)

unfoldable pub set_low32 : ℕ → ℕ → ℕ
set_low32 num val = bit_or (bit_and num (2 ^ 64 - 2 ^ 32)) val

unfoldable pub set_high32 : ℕ → ℕ → ℕ
set_high32 num val = bit_or (bit_and num (2 ^ 32 - 1)) (u64 (val * 2 ^ 32))

-- `align_up!` on a 64-bit number.
unfoldable pub align_up : ℕ → ℕ → ℕ
align_up num bits = bit_and (u64 (num + (2 ^ bits - 1))) (2 ^ 64 - 2 ^ bits)

-- `mask_bits!` and `assign_bits!` at a width: the bits of `src` where the mask has ones.
unfoldable pub mask_bits : (width dst src mask : ℕ) → ℕ
mask_bits width dst src mask = bit_or (bit_and dst (2 ^ width - 1 - mask)) (bit_and src mask)
