-- ===== src/Mem/Memory.antt =====
-- alioth/src/mem/mem.rs: `Memory`, the regions of the guest's address space and of the I/O ports,
-- with the buses that serve them. The x86_64 build, where the ports have a bus of their own.
-- The locks are not modelled: each call runs alone.
pub mod Layout
pub mod Private
pub mod Access
pub mod Frame
pub mod Serves
pub mod Regions
pub mod Tests
use alioth.Base.{
  ℕ, zero, suc, ◌+◌, ◌-◌, ◌^◌, ◌≡◌, Bool, true, false, ◌||◌, List, [], ◌∷◌, ◌++◌, Option, none,
  some, Result, ok, err, ltb, leb, if◌then◌else◌, min, max,
}
use alioth.Base.Word.{u16, u64}
use alioth.Mem.Error.{Error}
use alioth.Mem.Call.{Call, pure, gets, resume, ◌>>=◌, ◌>>◌, for_each}
use alioth.Mem.Addressable
use alioth.Mem.Addressable.{SlotBackend, Addressable, size}
use alioth.Mem.Mapped
use alioth.Mem.Mapped.{ArcMemPages, Ram}
use alioth.Mem.Emulated
use alioth.Mem.Emulated.{MmioBus}
use alioth.Mem.Region.{
  MemRange, ram, dev_mem, emulated, span, MemRegion, MemRegionType, hidden, MemRegionEntry,
  IoRegion, range_size, region_size, with_emulated, validate, VmMemory, Callbacks,
}

pub record Memory (D : Type 0) : Type 0 where
  pub regions : Addressable (MemRegion D)
  pub changed : List ℕ
  pub updated : List ℕ
  pub ram_bus : Ram
  pub mmio_bus : MmioBus D
  pub io_bus : MmioBus D
  pub io_regions : Addressable (IoRegion D)

module _ {D : Type 0} ⦃sb : SlotBackend D⦄ where
  instance abbrev pub region_backend : SlotBackend (MemRegion D)
  region_backend = record { size = region_size }

  instance abbrev pub io_region_backend : SlotBackend (IoRegion D)
  io_region_backend = record { size = λ r. size r.range }

  unfoldable pub new : Memory D
  new = record {
    regions = Addressable.new;
    changed = [];
    updated = [];
    ram_bus = record { inner = Addressable.new };
    mmio_bus = Emulated.new;
    io_bus = Emulated.new;
    io_regions = Addressable.new;
  }

-- The memory and the rest of the world.
abbrev pub State : Type 0 → Type 0 → Type 0
State W D = Memory D × W

-- A step on one part of the state: on the world, or on a part of the memory that may refuse it.
abbrev pub in_world : {W D A : Type 0} → Call W A → Call (State W D) A
in_world f (m, w) = let (r, w') = f w in (r, (m, w'))

abbrev pub keep :
    {W D X : Type 0} → (Memory D → X → Memory D) → Result Error X → Call (State W D) (Unit {0})
keep put (ok x) (m, w) = (ok tt, (put m x, w))
keep put (err e) (m, w) = (err e, (m, w))

-- The same for a part that gives something back.
abbrev pub keep_take :
    {W D X A : Type 0} → (Memory D → X → Memory D) → Result Error (X × A) → Call (State W D) A
keep_take put (ok (x, a)) (m, w) = (ok a, (put m x, w))
keep_take put (err e) (m, w) = (err e, (m, w))

module _ {W D : Type 0} ⦃sb : SlotBackend D⦄ where
  -- The buses and the regions.
  unfoldable pub add_mmio : ℕ → D → Call (State W D) (Unit {0})
  add_mmio gpa r (m, w) =
      keep (λ m x. record m { mmio_bus = x }) (Emulated.add m.mmio_bus gpa r) (m, w)

  unfoldable pub add_ram : ℕ → ArcMemPages → Call (State W D) (Unit {0})
  add_ram gpa r (m, w) = keep (λ m x. record m { ram_bus = x }) (Mapped.add m.ram_bus gpa r) (m, w)

  unfoldable pub remove_mmio : ℕ → Call (State W D) D
  remove_mmio gpa (m, w) =
      keep_take (λ m x. record m { mmio_bus = x }) (Emulated.remove m.mmio_bus gpa) (m, w)

  unfoldable pub remove_ram : ℕ → Call (State W D) ArcMemPages
  remove_ram gpa (m, w) =
      keep_take (λ m x. record m { ram_bus = x }) (Mapped.remove m.ram_bus gpa) (m, w)

  unfoldable pub add_io : ℕ → D → Call (State W D) (Unit {0})
  add_io port r (m, w) = keep (λ m x. record m { io_bus = x }) (Emulated.add m.io_bus port r) (m, w)

  unfoldable pub remove_io : ℕ → Call (State W D) D
  remove_io port (m, w) =
      keep_take (λ m x. record m { io_bus = x }) (Emulated.remove m.io_bus port) (m, w)

  unfoldable pub take_in : ℕ → MemRegion D → Call (State W D) (Unit {0})
  take_in addr r (m, w) =
      keep (λ m x. record m { regions = x }) (Addressable.add m.regions addr r) (m, w)

  unfoldable pub take_out : ℕ → Call (State W D) (MemRegion D)
  take_out addr (m, w) =
      keep_take (λ m x. record m { regions = x }) (Addressable.remove m.regions addr) (m, w)

  unfoldable pub take_in_io : ℕ → IoRegion D → Call (State W D) (Unit {0})
  take_in_io port r (m, w) =
      keep (λ m x. record m { io_regions = x }) (Addressable.add m.io_regions port r) (m, w)

  unfoldable pub take_out_io : ℕ → Call (State W D) (IoRegion D)
  take_out_io port (m, w) =
      keep_take (λ m x. record m { io_regions = x }) (Addressable.remove m.io_regions port) (m, w)
