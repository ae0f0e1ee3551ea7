-- ===== src/Device/Pl031.antt =====
-- alioth/src/device/pl031.rs: the PL031 real-time clock. The time of the host, in seconds, is an
-- argument of each access.
pub mod Running
mod Tests
use alioth.Base.{ℕ, ◌+◌, ◌-◌, ◌≡◌, ◌==◌, if◌then◌else◌}
use alioth.Base.Word.{u32}

pub record Pl031Reg : Type 0 where
  pub mr : ℕ
  pub lr : ℕ
  pub offset : ℕ

abbrev pub default_reg : Pl031Reg
default_reg = record { mr = 0; lr = 0; offset = 0 }

abbrev pub wrapping_add : ℕ → ℕ → ℕ
wrapping_add a b = u32 (a + b)

abbrev pub wrapping_sub : ℕ → ℕ → ℕ
wrapping_sub a b = u32 (a + 4294967296 - b)

-- The control register, the interrupt registers, which are 0, and the identification registers.
abbrev read_id : (offset : ℕ) → ℕ
read_id offset =
    if offset == 0xc
    then 1
    else if offset == 0xfe0
    then 0x31
    else if offset == 0xfe4
    then 0x10
    else if offset == 0xfe8
    then 0x04
    else if offset == 0xff0
    then 0x0d
    else if offset == 0xff4
    then 0xf0
    else if offset == 0xff8
    then 0x05
    else if offset == 0xffc
    then 0xb1
    else 0

unfoldable pub read : Pl031Reg → (now : ℕ) → (offset : ℕ) → ℕ
read r now offset =
    if offset == 0
    then wrapping_add r.offset (u32 now)
    else if offset == 4
    then r.mr
    else if offset == 8
    then r.lr
    else read_id offset

unfoldable pub write : Pl031Reg → (now : ℕ) → (offset val : ℕ) → Pl031Reg
write r now offset val =
    if offset == 4
    then record r { mr = u32 val }
    else if offset == 8
    then record r { offset = wrapping_sub (u32 val) (u32 now); lr = u32 val }
    else r
