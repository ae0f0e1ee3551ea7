-- ===== src/Mem/Region.antt =====
-- alioth/src/mem/mem.rs: what is put into the guest's address space, and what the memory layout
-- calls. The callbacks of the source are boxed objects; here each is a number, and what its
-- methods do to the world is a parameter.
use alioth.Base.{ℕ, ◌+◌, Bool, List, [], ◌∷◌, Result, ok, err, ltb, if◌then◌else◌}
use alioth.Base.Word.{u64}
use alioth.Mem.Error.{Error, backend_too_big}
use alioth.Mem.Call.{Call}
use alioth.Mem.Addressable.{SlotBackend, size}
use alioth.Mem.Mapped.{ArcMemPages, Ram}

pub data MemRange (D : Type 0) : Type 0 where
  ram : ArcMemPages → MemRange D
  dev_mem : ArcMemPages → MemRange D
  emulated : D → MemRange D
  span : ℕ → MemRange D

pub data MemRegionType : Type 0 where
  hidden ram_type reserved acpi pmem : MemRegionType

pub record MemRegionEntry : Type 0 where
  pub size : ℕ
  pub type_ : MemRegionType

pub record MemRegion (D : Type 0) : Type 0 where
  pub ranges : List (MemRange D)
  pub entries : List MemRegionEntry
  pub callbacks : List ℕ

pub record IoRegion (D : Type 0) : Type 0 where
  pub range : D
  pub callbacks : List ℕ

-- `iter().fold(0, |accu, x| accu + x.size())`; the sum wraps in a release build.
abbrev pub sum_from : {A : Type 0} → (A → ℕ) → ℕ → List A → ℕ
sum_from f accu [] = accu
sum_from f accu (x ∷ xs) = sum_from f (u64 (accu + f x)) xs

module _ {D : Type 0} ⦃sb : SlotBackend D⦄ where
  abbrev pub range_size : MemRange D → ℕ
  range_size (ram pages) = pages.size
  range_size (dev_mem pages) = pages.size
  range_size (emulated range) = size range
  range_size (span n) = n

  unfoldable pub region_size : MemRegion D → ℕ
  region_size r = sum_from (λ e. e.size) 0 r.entries

  unfoldable pub with_ram : ArcMemPages → MemRegionType → MemRegion D
  with_ram pages type_ = record {
    ranges = ram pages ∷ [];
    entries = record { size = pages.size; type_ = type_ } ∷ [];
    callbacks = [];
  }

  unfoldable pub with_dev_mem : ArcMemPages → MemRegionType → MemRegion D
  with_dev_mem pages type_ = record {
    ranges = dev_mem pages ∷ [];
    entries = record { size = pages.size; type_ = type_ } ∷ [];
    callbacks = [];
  }

  unfoldable pub with_emulated : D → MemRegionType → MemRegion D
  with_emulated range type_ = record {
    ranges = emulated range ∷ [];
    entries = record { size = size range; type_ = type_ } ∷ [];
    callbacks = [];
  }

  unfoldable pub validate : MemRegion D → Result Error (Unit {0})
  unfolding region_size
  validate r =
      let ranges_size = sum_from range_size 0 r.ranges in
      if ltb (region_size r) ranges_size
      then err (backend_too_big ranges_size (region_size r))
      else ok tt

-- `trait VmMemory` of hv.rs: the hypervisor's map of guest addresses to host addresses.
pub record VmMemory (W : Type 0) : Type 0 where
  pub mem_map : (gpa size hva : ℕ) → Call W (Unit {0})
  pub unmap : (gpa size : ℕ) → Call W (Unit {0})
  pub reset : Call W (Unit {0})
  pub mark_private_memory : (gpa size : ℕ) → Bool → Call W (Unit {0})

-- `trait LayoutChanged`, `trait LayoutUpdated` and `trait MemRegionCallback`, each method with the
-- number of the object first.
pub record Callbacks (W : Type 0) : Type 0 where
  pub ram_added : ℕ → (gpa : ℕ) → ArcMemPages → Call W (Unit {0})
  pub ram_removed : ℕ → (gpa : ℕ) → ArcMemPages → Call W (Unit {0})
  pub ram_updated : ℕ → Ram → Call W (Unit {0})
  pub mapped : ℕ → (addr : ℕ) → Call W (Unit {0})
  pub unmapped : ℕ → Call W (Unit {0})
