-- ===== src/Mem/Error.antt =====
-- alioth/src/mem/mem.rs: `Error`. The errors that wrap one of the hypervisor, of the operating
-- system or of a device carry it as a number.
use alioth.Base.{ℕ}

pub data Error : Type 0 where
  hv_error : ℕ → Error
  zero_sized_slot : Error
  exceeds_limit : (addr size : ℕ) → Error
  overlap : (new_addr new_max exist_addr exist_max : ℕ) → Error
  not_mapped : (addr : ℕ) → Error
  backend_too_big : (sum size : ℕ) → Error
  not_aligned : (addr align : ℕ) → Error
  not_continuous : (addr size : ℕ) → Error
  system : ℕ → Error
  write_failed : ℕ → Error
  read_failed : ℕ → Error
  mmio : ℕ → Error
  change_layout : ℕ → Error
