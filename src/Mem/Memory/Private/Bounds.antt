-- ===== src/Mem/Memory/Private/Bounds.antt =====
-- `mark_private_memory` of mem.rs as a whole.
use alioth.Base.{ℕ, suc, ◌+◌, ◌≤◌, ◌≡◌, ◌≢◌, refl, Bool, none, ok, length, arith}
use alioth.Base.Word.{u64}
use alioth.Mem.Addressable.{SlotBackend}
use alioth.Mem.Addressable.Owner.{IsValid}
use alioth.Mem.Region.{VmMemory}
use alioth.Mem.Memory.{State, region_backend}
use alioth.Mem.Memory.Private.{mark_private_memory}
use alioth.Mem.Memory.Private.Ahead.{Inside, ahead-le-length}
use alioth.Mem.Memory.Private.Marks.{mark_from-Kept, mark_from-returns}

module _ {W D : Type 0} ⦃sb : SlotBackend D⦄ ⦃vm : VmMemory W⦄ where
  -- On valid regions that end below the end of the address space, the walk comes to an end; what
  -- every mark within the range keeps of the world, it keeps; and the memory stays as it is.
  pub mark_private_memory_bounds :
      (gpa size : ℕ) (private : Bool) (P : W → Type 0) (s : State W D)
      → IsValid s.0.regions
      → Inside s.0.regions.slots
      → ((a n : ℕ) (w : W)
          → gpa ≤ a
          → a + n ≤ u64 (gpa + size)
          → P w
          → P (vm.mark_private_memory a n private w).1)
      → P s.1
      → ((mark_private_memory gpa size private s).0 ≢ ok none)
        × P (mark_private_memory gpa size private s).1.1
        × ((mark_private_memory gpa size private s).1.0 ≡ s.0)
  unfolding mark_private_memory
  mark_private_memory_bounds gpa size private P (m, w) v i keep p =
      let fuel : ℕ = suc (length m.regions.slots) in
      let end : ℕ = u64 (gpa + size) in
      (
        mark_from-returns private end fuel m.regions gpa w
            (omega (arith, ahead-le-length m.regions.slots gpa)) i v,
        mark_from-Kept private gpa end P keep fuel m.regions gpa w (omega arith) i v p,
        refl,
      )
