-- ===== src/Mem/Memory/Tests.antt =====
-- The theorems on mem.rs at concrete memories.
use alioth.Base.{ℕ, ◌+◌, ◌≤◌, ◌≡◌, ◌≢◌, refl, true, List, [], ◌∷◌, ◌++◌, none, some, ok, arith}
use alioth.Mem.Call.{Call, pure}
use alioth.Mem.Addressable.{SlotBackend, Slot}
use alioth.Mem.Mapped.{ArcMemPages}
use alioth.Mem.Emulated
use alioth.Mem.Emulated.{Mmio, no_action}
use alioth.Mem.Region.{
  MemRange, ram, dev_mem, emulated, span, MemRegion, hidden, ram_type, IoRegion, VmMemory,
  Callbacks,
}
use alioth.Mem.Memory.{Memory, State, new, region_backend}
use alioth.Mem.Memory.Layout.{add_region, remove_region}
use alioth.Mem.Memory.Access.{handle_mmio}
use alioth.Mem.Memory.Regions.{answer, handle_mmio-add_region}
use alioth.Mem.Memory.Private.{mark_private_memory}
use alioth.Mem.Memory.Private.Bounds.{mark_private_memory_bounds}

-- A device is its size, and the world a log of the ranges that were marked.
instance abbrev pub dev_size : SlotBackend ℕ
dev_size = record { size = λ n. n }

abbrev Log : Type 0
Log = List (ℕ × ℕ)

instance abbrev logging : VmMemory Log
logging = record {
  mem_map = λ gpa n hva. pure tt;
  unmap = λ gpa n. pure tt;
  reset = pure tt;
  mark_private_memory = λ gpa n private log. (ok tt, log ++ ((gpa, n) ∷ []));
}

instance abbrev quiet : Callbacks Log
quiet = record {
  ram_added = λ c gpa p. pure tt;
  ram_removed = λ c gpa p. pure tt;
  ram_updated = λ c r. pure tt;
  mapped = λ c a. pure tt;
  unmapped = λ c. pure tt;
}

-- A device that reads as its size and the offset.
abbrev readers : Mmio Log (Unit {0}) ℕ
readers = record {
  read = λ d offset n. pure (d + offset);
  write = λ d offset n val. pure no_action;
}

abbrev no_change : Unit {0} → Call (State Log ℕ) (Unit {0})
no_change c = pure tt

abbrev pages : ℕ → ℕ → ArcMemPages
pages a n = record { addr = a; size = n }

-- RAM, a hole and a device.
abbrev mixed : MemRegion ℕ
mixed = record {
  ranges = ram (pages 0x70000 0x1000) ∷ span 0x1000 ∷ emulated 0x100 ∷ [];
  entries =
      record { size = 0x2000; type_ = ram_type } ∷ record { size = 0x1000; type_ = hidden } ∷ [];
  callbacks = 1 ∷ [];
}

abbrev empty : State Log ℕ
empty = (
  record {
    regions = record { slots = [] };
    changed = 7 ∷ [];
    updated = 8 ∷ [];
    ram_bus = record { inner = record { slots = [] } };
    mmio_bus = record { inner = record { slots = [] } };
    io_bus = record { inner = record { slots = [] } };
    io_regions = record { slots = [] };
  },
  [],
)

abbrev filled : State Log ℕ
filled = (
  record {
    regions = record { slots = record { addr = 0x4000; backend = mixed } ∷ [] };
    changed = 7 ∷ [];
    updated = 8 ∷ [];
    ram_bus = record {
      inner = record { slots = record { addr = 0x4000; backend = pages 0x70000 0x1000 } ∷ [] };
    };
    mmio_bus = record { inner = record { slots = record { addr = 0x6000; backend = 0x100 } ∷ [] } };
    io_bus = record { inner = record { slots = [] } };
    io_regions = record { slots = [] };
  },
  [],
)

mixed_added : add_region 0x4000 mixed empty ≡ (ok tt, filled)
unfolding add_region alioth.Mem.Region.validate alioth.Mem.Memory.take_in alioth.Mem.Addressable.add
    alioth.Mem.Memory.add_ram alioth.Mem.Mapped.add alioth.Mem.Memory.add_mmio Emulated.add
mixed_added = refl

mixed_removed : remove_region 0x4000 filled ≡ (ok mixed, empty)
unfolding remove_region alioth.Mem.Memory.take_out alioth.Mem.Addressable.remove
    alioth.Mem.Memory.remove_ram alioth.Mem.Mapped.remove alioth.Mem.Memory.remove_mmio
    Emulated.remove
mixed_removed = refl

handle_mmio-add_region_example :
    handle_mmio readers no_change 0x6010 none 4 filled
    ≡ answer readers no_change (some (0x6000, 0x100)) 0x6010 4 filled
unfolding alioth.Mem.Memory.Serves.device_at
handle_mmio-add_region_example =
    handle_mmio-add_region readers no_change 0x4000 mixed empty filled 0x6010 4 tt tt (omega arith)
      mixed_added

-- Every marked range lies within the bounds.
abbrev Within : ℕ → ℕ → Log → Type 0
Within lo end [] = Unit
Within lo end ((a, n) ∷ log) = (lo ≤ a) × (a + n ≤ end) × Within lo end log

Within-append :
    (lo end a n : ℕ) (log : Log)
    → lo ≤ a
    → a + n ≤ end
    → Within lo end log
    → Within lo end (log ++ ((a, n) ∷ []))
Within-append lo end a n [] h k w = (h, k, tt)
Within-append lo end a n (x ∷ log) h k w = (w.0, w.1, Within-append lo end a n log h k w.2)

mark_private_memory_bounds_example :
    ((mark_private_memory 0x4800 0x10000 true filled).0 ≢ ok none)
    × Within 0x4800 0x14800 (mark_private_memory 0x4800 0x10000 true filled).1.1
    × ((mark_private_memory 0x4800 0x10000 true filled).1.0 ≡ filled.0)
unfolding alioth.Mem.Region.region_size
mark_private_memory_bounds_example =
    mark_private_memory_bounds 0x4800 0x10000 true (Within 0x4800 0x14800) filled (omega arith)
      (omega arith) (λ a n w h k p. Within-append 0x4800 0x14800 a n w h k p) tt

half_marked :
    mark_private_memory 0x4800 0x10000 true filled
    ≡ (ok (some tt), (filled.0, (0x4800, 0x800) ∷ []))
unfolding mark_private_memory alioth.Mem.Addressable.search_next alioth.Mem.Region.region_size
half_marked = refl

-- Two ranges of RAM in one region, of which only the first is marked.
abbrev two_ranges : State Log ℕ
two_ranges = (
  record filled.0 {
    regions = record {
      slots =
          record {
            addr = 0x4000;
            backend = record {
              ranges = ram (pages 0x70000 0x1000) ∷ ram (pages 0x90000 0x1000) ∷ [];
              entries = record { size = 0x2000; type_ = ram_type } ∷ [];
              callbacks = [];
            };
          }
          ∷ [];
    };
  },
  [],
)

second_not_marked :
    mark_private_memory 0x4000 0x2000 true two_ranges
    ≡ (ok (some tt), (two_ranges.0, (0x4000, 0x1000) ∷ []))
unfolding mark_private_memory alioth.Mem.Addressable.search_next alioth.Mem.Region.region_size
second_not_marked = refl
