-- ===== src/Pci/Msix.antt =====
-- The MSI-X table of alioth/src/pci/cap.rs. An entry that a device has bound to an interrupt file
-- descriptor lies with the hypervisor: `IrqFd` is its interface, with the calls that may fail.
pub mod Entry
mod Tests
use alioth.Base.{
  ℕ, ◌+◌, ◌*◌, ◌/◌, ◌%◌, ◌^◌, Bool, true, false, not, ◌||◌, List, [], ◌∷◌, Option, none, some,
  Result, ok, err, ◌>>=◌, ◌==◌, if◌then◌else◌, get_elem?, set, length, map, bit_and,
}
use alioth.Base.Word.{u32}
use alioth.Mem.Error.{Error}

-- `MsixTableEntry`; `control` is the word of `MsixVectorCtrl`, whose bit 0 is `masked`.
pub record MsixTableEntry : Type 0 where
  pub addr_lo : ℕ
  pub addr_hi : ℕ
  pub msi_data : ℕ
  pub control : ℕ

abbrev pub default_entry : MsixTableEntry
default_entry = record { addr_lo = 0; addr_hi = 0; msi_data = 0; control = 1 }

-- `MsixVectorCtrl::masked` and `set_masked`.
abbrev pub masked : ℕ → Bool
masked control = control % 2 == 1

abbrev pub with_masked : ℕ → Bool → ℕ
with_masked control val = control / 2 * 2 + (if val then 1 else 0)

-- The trait `IrqFd` of alioth/src/hv: what the table calls of it.
pub record IrqFd (F : Type 0) : Type 0 where
  pub get_addr_lo : F → ℕ
  pub get_addr_hi : F → ℕ
  pub get_data : F → ℕ
  pub get_masked : F → Bool
  pub set_addr_lo : F → ℕ → Result Error F
  pub set_addr_hi : F → ℕ → Result Error F
  pub set_data : F → ℕ → Result Error F
  pub set_masked : F → Bool → Result Error (F × Bool)

pub data MsixTableMmioEntry (F : Type 0) : Type 0 where
  entry : MsixTableEntry → MsixTableMmioEntry F
  irq_fd : F → MsixTableMmioEntry F

pub record MsixTableMmio (F : Type 0) : Type 0 where
  pub entries : List (MsixTableMmioEntry F)

abbrev pub bool_ne : Bool → Bool → Bool
bool_ne true b = not b
bool_ne false b = b

module _ {F : Type 0} (fd : IrqFd F) where
  -- The word at `field` of an entry: 0, 4, 8 or 12.
  unfoldable pub get_field : ℕ → MsixTableMmioEntry F → ℕ
  get_field field (entry e) =
      if field == 0
      then e.addr_lo
      else if field == 4
      then e.addr_hi
      else if field == 8
      then e.msi_data
      else if masked e.control
      then 1
      else 0
  get_field field (irq_fd f) =
      if field == 0
      then fd.get_addr_lo f
      else if field == 4
      then fd.get_addr_hi f
      else if field == 8
      then fd.get_data f
      else if fd.get_masked f
      then 1
      else 0

  abbrev keep : Result Error F → Result Error (MsixTableMmioEntry F × Bool)
  keep r = r >>= λ f. ok (irq_fd f, false)

  -- The entry after the write, and whether its mask was flipped.
  unfoldable pub set_field :
      ℕ → ℕ → MsixTableMmioEntry F → Result Error (MsixTableMmioEntry F × Bool)
  set_field field val (entry e) =
      if field == 0
      then ok (entry (record e { addr_lo = val }), false)
      else if field == 4
      then ok (entry (record e { addr_hi = val }), false)
      else if field == 8
      then ok (entry (record e { msi_data = val }), false)
      else ok (
        entry (record e { control = with_masked e.control (masked val) }),
        bool_ne (masked e.control) (masked val),
      )
  set_field field val (irq_fd f) =
      if field == 0
      then keep (fd.set_addr_lo f val)
      else if field == 4
      then keep (fd.set_addr_hi f val)
      else if field == 8
      then keep (fd.set_data f val)
      else fd.set_masked f (masked val) >>= λ p. ok (irq_fd p.0, p.1)

  unfoldable pub write_val : MsixTableMmio F → ℕ → ℕ → ℕ → Result Error (MsixTableMmio F × Bool)
  unfolding set_field
  write_val t offset size val =
      if not (size == 4) || not (bit_and offset 3 == 0)
      then ok (t, false)
      else elim (get_elem? t.entries (offset / 16)) [
        | none ↦ ok (t, false)
        | some e ↦ set_field (offset % 16) (u32 val) e >>= λ p.
            ok (record { entries = set t.entries (offset / 16) p.0 }, p.1)
      ]

  unfoldable pub read : MsixTableMmio F → ℕ → ℕ → ℕ
  unfolding get_field
  read t offset size =
      if not (size == 4) || not (bit_and offset 3 == 0)
      then 0
      else elim (get_elem? t.entries (offset / 16)) [
        | none ↦ 0
        | some e ↦ get_field (offset % 16) e
      ]

unfoldable pub table_size : {F : Type 0} → MsixTableMmio F → ℕ
table_size t = 16 * length t.entries

unfoldable pub reset : {F : Type 0} → MsixTableMmio F → MsixTableMmio F
reset t = record { entries = map (λ e. entry default_entry) t.entries }
