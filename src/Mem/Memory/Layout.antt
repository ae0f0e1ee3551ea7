-- ===== src/Mem/Memory/Layout.antt =====
-- alioth/src/mem/mem.rs: the operations that change the layout of the memory.
use alioth.Base.{ℕ, ◌+◌, Bool, true, false, ◌||◌, List, [], ◌∷◌, ◌++◌, map, ok}
use alioth.Base.Word.{u16, u64}
use alioth.Mem.Call.{Call, pure, ◌>>=◌, ◌>>◌, for_each}
use alioth.Mem.Addressable.{SlotBackend, Slot, size, new}
use alioth.Mem.Mapped.{ArcMemPages}
use alioth.Mem.Region.{
  MemRange, ram, dev_mem, emulated, span, MemRegion, hidden, MemRegionEntry, IoRegion, range_size,
  with_emulated, validate, VmMemory, Callbacks,
}
use alioth.Mem.Memory.{
  Memory, State, in_world, io_region_backend, add_mmio, add_ram, remove_mmio, remove_ram, add_io,
  remove_io, take_in, take_out, take_in_io, take_out_io,
}

-- `reverse`, for the callbacks of a removal.
abbrev reversed : {A : Type 0} → List A → List A
reversed [] = []
reversed (x ∷ xs) = reversed xs ++ (x ∷ [])

abbrev ignore : {S A : Type 0} → Call S A → Call S (Unit {0})
ignore f = f >>= λ _. pure tt

module _ {W D : Type 0} ⦃sb : SlotBackend D⦄ ⦃vm : VmMemory W⦄ ⦃cb : Callbacks W⦄ where
  unfoldable pub map_to_vm : ℕ → ArcMemPages → Call (State W D) (Unit {0})
  map_to_vm gpa user_mem = in_world (vm.mem_map gpa user_mem.size user_mem.addr)

  unmap_from_vm : ℕ → ArcMemPages → Call (State W D) (Unit {0})
  unmap_from_vm gpa user_mem = in_world (vm.unmap gpa user_mem.size)

  -- `ram_updated(&ram)` on every update callback, if RAM was added or removed.
  unfoldable pub notify_updated : Bool → Call (State W D) (Unit {0})
  notify_updated false s = pure tt s
  notify_updated true (m, w) =
      for_each m.updated (λ c. in_world (cb.ram_updated c m.ram_bus)) (m, w)

  -- One range of `add_region`: whether it is RAM.
  unfoldable pub add_range : ℕ → MemRange D → Call (State W D) Bool
  unfolding map_to_vm
  add_range gpa (emulated r) s = (add_mmio gpa r >> pure false) s
  add_range gpa (ram r) (m, w) =
      (map_to_vm gpa r
          >> for_each m.changed (λ c. in_world (cb.ram_added c gpa r))
          >> add_ram gpa r
          >> pure true)
        (m, w)
  add_range gpa (dev_mem r) s = (map_to_vm gpa r >> pure false) s
  add_range gpa (span n) s = pure false s

  unfoldable pub add_ranges : (addr offset : ℕ) → List (MemRange D) → Call (State W D) Bool
  unfolding add_range
  add_ranges addr offset [] = pure false
  add_ranges addr offset (r ∷ rs) = do
    updated ← add_range (u64 (addr + offset)) r
    rest ← add_ranges addr (u64 (offset + range_size r)) rs
    pure (updated || rest)

  unfoldable pub add_region : ℕ → MemRegion D → Call (State W D) (Unit {0})
  unfolding add_ranges notify_updated
  add_region addr region = do
    (λ s. (validate region, s))
    take_in addr region
    updated ← add_ranges addr 0 region.ranges
    notify_updated updated
    for_each region.callbacks (λ c. in_world (cb.mapped c addr))

  unfoldable pub add_mmio_dev : ℕ → D → Call (State W D) (Unit {0})
  add_mmio_dev addr dev = add_region addr (with_emulated dev hidden)

  -- One range of `unmap_region`.
  unfoldable pub remove_range : ℕ → MemRange D → Call (State W D) Bool
  unfolding unmap_from_vm
  remove_range gpa (emulated r) s = (ignore (remove_mmio gpa) >> pure false) s
  remove_range gpa (ram r) (m, w) =
      (ignore (remove_ram gpa)
          >> for_each (reversed m.changed) (λ c. in_world (cb.ram_removed c gpa r))
          >> unmap_from_vm gpa r
          >> pure true)
        (m, w)
  remove_range gpa (dev_mem r) s = (unmap_from_vm gpa r >> pure false) s
  remove_range gpa (span n) s = pure false s

  unfoldable pub remove_ranges : (addr offset : ℕ) → List (MemRange D) → Call (State W D) Bool
  unfolding remove_range
  remove_ranges addr offset [] = pure false
  remove_ranges addr offset (r ∷ rs) = do
    updated ← remove_range (u64 (addr + offset)) r
    rest ← remove_ranges addr (u64 (offset + range_size r)) rs
    pure (updated || rest)

  unfoldable pub unmap_region : ℕ → MemRegion D → Call (State W D) (Unit {0})
  unfolding remove_ranges notify_updated
  unmap_region addr region = do
    updated ← remove_ranges addr 0 region.ranges
    notify_updated updated
    for_each region.callbacks (λ c. in_world (cb.unmapped c))

  unfoldable pub remove_region : ℕ → Call (State W D) (MemRegion D)
  unfolding unmap_region
  remove_region addr = do region ← take_out addr; unmap_region addr region; pure region

  unfoldable pub add_io_region : ℕ → IoRegion D → Call (State W D) (Unit {0})
  add_io_region port region = do
    take_in_io port region
    add_io port region.range
    for_each region.callbacks (λ c. in_world (cb.mapped c port))

  unfoldable pub add_io_dev : ℕ → D → Call (State W D) (Unit {0})
  add_io_dev port dev = add_io_region port (record { range = dev; callbacks = [] })

  unmap_io_region : ℕ → IoRegion D → Call (State W D) (Unit {0})
  unmap_io_region port region = do
    ignore (remove_io port)
    for_each region.callbacks (λ c. in_world (cb.unmapped c))

  unfoldable pub remove_io_region : ℕ → Call (State W D) (IoRegion D)
  unfolding unmap_io_region
  remove_io_region port = do region ← take_out_io port; unmap_io_region port region; pure region

  -- `drain(..)` empties both vectors first; the regions then go one by one.
  unfoldable pub clear : Call (State W D) (Unit {0})
  unfolding unmap_region unmap_io_region
  clear (m, w) =
      (for_each m.regions.slots (λ s. unmap_region s.addr s.backend) >> (λ (m', w').
          (for_each m'.io_regions.slots (λ s. unmap_io_region (u16 s.addr) s.backend))
            (record m' { io_regions = new }, w')))
        (record m { regions = new }, w)

  unfoldable pub reset : Call (State W D) (Unit {0})
  reset = clear >> in_world vm.reset

  -- The RAM that a new change callback is told of.
  tell_ranges : (c addr offset : ℕ) → List (MemRange D) → Call (State W D) (Unit {0})
  tell_ranges c addr offset [] = pure tt
  tell_ranges c addr offset (ram r ∷ rs) =
      in_world (cb.ram_added c (u64 (addr + offset)) r)
      >> tell_ranges c addr (u64 (offset + r.size)) rs
  tell_ranges c addr offset (dev_mem r ∷ rs) = tell_ranges c addr (u64 (offset + r.size)) rs
  tell_ranges c addr offset (emulated r ∷ rs) = tell_ranges c addr (u64 (offset + size r)) rs
  tell_ranges c addr offset (span n ∷ rs) = tell_ranges c addr (u64 (offset + n)) rs

  unfoldable pub register_change_callback : ℕ → Call (State W D) (Unit {0})
  unfolding tell_ranges
  register_change_callback c (m, w) =
      (for_each m.regions.slots (λ s. tell_ranges c s.addr 0 s.backend.ranges)
          >> (λ (m', w'). (ok tt, (record m' { changed = m'.changed ++ (c ∷ []) }, w'))))
        (m, w)

  unfoldable pub register_update_callback : ℕ → Call (State W D) (Unit {0})
  register_update_callback c (m, w) =
      (in_world (cb.ram_updated c m.ram_bus)
          >> (λ (m', w'). (ok tt, (record m' { updated = m'.updated ++ (c ∷ []) }, w'))))
        (m, w)

-- The entries of a region from `start`, and of all regions.
abbrev place_entries : ℕ → List MemRegionEntry → List (ℕ × MemRegionEntry)
place_entries start [] = []
place_entries start (e ∷ es) = (start, e) ∷ place_entries (u64 (start + e.size)) es

module _ {D : Type 0} ⦃sb : SlotBackend D⦄ where
  all_entries : List (Slot (MemRegion D)) → List (ℕ × MemRegionEntry)
  all_entries [] = []
  all_entries (s ∷ ss) = place_entries s.addr s.backend.entries ++ all_entries ss

  unfoldable pub mem_region_entries : Memory D → List (ℕ × MemRegionEntry)
  unfolding all_entries
  mem_region_entries m = all_entries m.regions.slots

  unfoldable pub io_region_entries : Memory D → List (ℕ × ℕ)
  io_region_entries m = map (λ s. (s.addr, size s.backend)) m.io_regions.slots
