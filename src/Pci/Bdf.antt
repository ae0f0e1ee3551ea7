-- ===== src/Pci/Bdf.antt =====
-- alioth/src/pci/pci.rs: the number of a device, and what stands behind a base address register.
use alioth.Base.{ℕ, ◌+◌, ◌*◌, ◌/◌, ◌%◌, ◌^◌}
use alioth.Mem.Region.{MemRegion, IoRegion}

-- `Bdf(u16)`: bus, device and function in bits 15..8, 7..3 and 2..0.
abbrev pub Bdf : Type 0
Bdf = ℕ

abbrev pub bus : Bdf → ℕ
bus b = b / 2 ^ 8

abbrev pub dev : Bdf → ℕ
dev b = b / 2 ^ 3 % 2 ^ 5

abbrev pub func : Bdf → ℕ
func b = b % 2 ^ 3

-- `Bdf::new`, with each part in its width.
abbrev pub new : (bus dev func : ℕ) → Bdf
new b d f = b % 2 ^ 8 * 2 ^ 8 + d % 2 ^ 5 * 2 ^ 3 + f % 2 ^ 3

pub data PciBar (D : Type 0) : Type 0 where
  empty : PciBar D
  mem : MemRegion D → PciBar D
  io : IoRegion D → PciBar D
