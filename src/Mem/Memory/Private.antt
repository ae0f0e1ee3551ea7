-- ===== src/Mem/Memory/Private.antt =====
-- alioth/src/mem/mem.rs: `mark_private_memory`, which walks the regions by `search_next` and marks
-- their pages within a range of guest addresses.
pub mod Ahead
pub mod Marks
pub mod Bounds
use alioth.Base.{
  ℕ, zero, suc, ◌+◌, ◌-◌, ◌<◌, ◌≤◌, ◌≡◌, refl, Bool, true, false, List, [], ◌∷◌, Option, none, some,
  leb, min, max, if◌then◌else◌, Result, ok, err, arith, length, Option-cases, ◌≢◌,
}
use alioth.Base.Word.{u64}
use alioth.Mem.Call.{Call, pure, ◌>>=◌, ◌>>◌, resume}
use alioth.Mem.Addressable
use alioth.Mem.Addressable.{SlotBackend, Addressable}
use alioth.Mem.Mapped.{ArcMemPages}
use alioth.Mem.Region.{
  MemRange, ram, dev_mem, emulated, span, MemRegion, range_size, region_size, VmMemory,
}
use alioth.Mem.Memory.{Memory, State, in_world, region_backend}

-- Where the loop over the ranges stands: at an address, with what is left from `start` on, or
-- after `break 'out`.
pub data Walk : Type 0 where
  go : (addr start : ℕ) → Walk
  out : Walk

module _ {W : Type 0} ⦃vm : VmMemory W⦄ (private : Bool) (end : ℕ) where
  unfoldable pub mark_pages : (addr start : ℕ) → ArcMemPages → Call W Walk
  mark_pages addr start r =
      let range_end = u64 (addr + r.size) in
      let gpa_start = max addr start in
      let gpa_end = min end range_end in
      if leb range_end start
      then pure (go range_end start)
      else if leb gpa_end gpa_start
      then pure out
      else vm.mark_private_memory gpa_start (gpa_end - gpa_start) private >> pure (go addr gpa_end)

module _ {W : Type 0} where
  -- After the ranges of one region.
  unfoldable pub proceed : Bool → Call W (Option (Unit {0})) → Walk → Call W (Option (Unit {0}))
  proceed done rest out = pure (some tt)
  proceed true rest (go addr start) = pure (some tt)
  proceed false rest (go addr start) = rest

module _ {W D : Type 0} ⦃sb : SlotBackend D⦄ ⦃vm : VmMemory W⦄ (private : Bool) (end : ℕ) where
  unfoldable pub mark_range : (addr start : ℕ) → MemRange D → Call W Walk
  unfolding mark_pages
  mark_range addr start (ram r) = mark_pages private end addr start r
  mark_range addr start (dev_mem r) = mark_pages private end addr start r
  mark_range addr start (emulated r) = pure (go (u64 (addr + range_size (emulated r))) start)
  mark_range addr start (span n) = pure (go (u64 (addr + n)) start)

  unfoldable pub mark_ranges : Walk → List (MemRange D) → Call W Walk
  unfolding mark_range
  mark_ranges out rs = pure out
  mark_ranges (go addr start) [] = pure (go addr start)
  mark_ranges (go addr start) (r ∷ rs) = mark_range addr start r >>= λ at. mark_ranges at rs

  -- The outer loop, with fuel; no result if it runs out.
  unfoldable pub mark_from :
      ℕ → Addressable (MemRegion D) → (start : ℕ) → Call W (Option (Unit {0}))
  unfolding mark_ranges proceed
  mark_from zero regions start = pure none
  mark_from (suc fuel) regions start = elim (Addressable.search_next regions start) [
    | none ↦ pure (some tt)
    | some (addr, region) ↦
        let next_start = u64 (addr + region_size region) in
        let rest = mark_from fuel regions next_start in
        mark_ranges (go addr start) region.ranges >>= proceed (leb end next_start) rest
  ]

module _ {W D : Type 0} ⦃sb : SlotBackend D⦄ ⦃vm : VmMemory W⦄ where
  -- One more step than there are regions is enough.
  unfoldable pub mark_private_memory : (gpa size : ℕ) → Bool → Call (State W D) (Option (Unit {0}))
  unfolding mark_from
  mark_private_memory gpa size private (m, w) =
      in_world (mark_from private (u64 (gpa + size)) (suc (length m.regions.slots)) m.regions gpa)
        (m, w)
