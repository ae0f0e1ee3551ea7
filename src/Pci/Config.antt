-- ===== src/Pci/Config.antt =====
-- alioth/src/pci/config.rs: the header of a device's configuration space, its base address
-- registers, and the changes of the memory layout that a write to it asks for.
pub mod Layout
pub mod Moves
pub mod Sizing
mod Tests
use alioth.Base.{
  ℕ, zero, suc, ◌+◌, ◌-◌, ◌*◌, ◌/◌, ◌%◌, ◌^◌, max, Bool, true, false, not, ◌&&◌, ◌||◌, List, [],
  ◌∷◌, ◌++◌, Option, none, some, leb, ltb, ◌==◌, if◌then◌else◌, get_or, set, bit_and, bit_or,
  bit_xor, map,
}
use alioth.Base.Word.{u16, u32, u64}
use alioth.Utils.{mask_bits}
use alioth.Mem.Addressable.{SlotBackend, size}
use alioth.Mem.Region.{MemRegion, IoRegion, region_size}
use alioth.Mem.Emulated.{to_le_bytes, read_bytes}
use alioth.Pci.Bdf.{Bdf, PciBar, empty, mem, io}

-- `Command` and `Status`.
abbrev pub command_mem : ℕ
command_mem = 2

abbrev pub command_io : ℕ
command_io = 1

abbrev pub command_writable_bits : ℕ
command_writable_bits = 2 ^ 10 + 2 ^ 8 + 2 ^ 6 + 2 ^ 2 + 2 ^ 1 + 2 ^ 0

abbrev pub status_cap : ℕ
status_cap = 2 ^ 4

abbrev pub status_rw1c_bits : ℕ
status_rw1c_bits = 2 ^ 15 + 2 ^ 14 + 2 ^ 13 + 2 ^ 12 + 2 ^ 11 + 2 ^ 8

-- The bits that `Command` and `Status` name: a complement (`!`) has no others.
abbrev pub command_bits : ℕ
command_bits = command_writable_bits

abbrev pub status_bits : ℕ
status_bits = status_rw1c_bits + 2 ^ 4 + 2 ^ 3 + 2 ^ 0

pub record CommonHeader : Type 0 where
  pub vendor : ℕ
  pub device : ℕ
  pub command : ℕ
  pub status : ℕ
  pub revision : ℕ
  pub prog_if : ℕ
  pub subclass : ℕ
  pub class_ : ℕ
  pub cache_line_size : ℕ
  pub latency_timer : ℕ
  pub header_type : ℕ
  pub bist : ℕ

pub record DeviceHeader : Type 0 where
  pub common : CommonHeader
  pub bars : List ℕ
  pub cardbus_cis_pointer : ℕ
  pub subsystem_vendor : ℕ
  pub subsystem : ℕ
  pub expansion_rom : ℕ
  pub capability_pointer : ℕ
  pub reserved : List ℕ
  pub intx_line : ℕ
  pub intx_pin : ℕ
  pub min_gnt : ℕ
  pub max_lat : ℕ

abbrev pub bars_bytes : List ℕ → List ℕ
bars_bytes [] = []
bars_bytes (b ∷ bs) = to_le_bytes 4 b ++ bars_bytes bs

-- The bytes of the header, in the order of `#[repr(C)]`.
unfoldable pub as_bytes : DeviceHeader → List ℕ
as_bytes h =
    to_le_bytes 2 h.common.vendor
    ++ to_le_bytes 2 h.common.device
    ++ to_le_bytes 2 h.common.command
    ++ to_le_bytes 2 h.common.status
    ++ (h.common.revision ∷ h.common.prog_if ∷ h.common.subclass ∷ h.common.class_ ∷ [])
    ++ (h.common.cache_line_size ∷ h.common.latency_timer ∷ h.common.header_type ∷ h.common.bist
        ∷ [])
    ++ bars_bytes h.bars
    ++ to_le_bytes 4 h.cardbus_cis_pointer
    ++ to_le_bytes 2 h.subsystem_vendor
    ++ to_le_bytes 2 h.subsystem
    ++ to_le_bytes 4 h.expansion_rom
    ++ (h.capability_pointer ∷ h.reserved)
    ++ (h.intx_line ∷ h.intx_pin ∷ h.min_gnt ∷ h.max_lat ∷ [])

abbrev pub offset_bar0 : ℕ
offset_bar0 = 0x10

abbrev pub offset_bar5 : ℕ
offset_bar5 = 0x24

abbrev pub bar_prefetchable : ℕ
bar_prefetchable = 8

abbrev pub bar_mem64 : ℕ
bar_mem64 = 4

abbrev pub bar_io : ℕ
bar_io = 1

abbrev pub bar_io_mask : ℕ
bar_io_mask = 3

abbrev pub bar_mem_mask : ℕ
bar_mem_mask = 15

-- `x & flag == flag`.
abbrev pub has : (flag x : ℕ) → Bool
has flag x = bit_and x flag == flag

-- `x & !mask` in 64 bits.
abbrev pub clear_bits : (mask x : ℕ) → ℕ
clear_bits mask x = bit_and x (2 ^ 64 - 1 - mask)

pub record HeaderData : Type 0 where
  pub header : DeviceHeader
  pub bar_masks : List ℕ
  pub bdf : Bdf

abbrev pub bar_at : HeaderData → ℕ → ℕ
bar_at d index = get_or d.header.bars index 0

-- An index above 5, which would panic, reads as 0 here and sets nothing.
unfoldable pub get_bar : HeaderData → ℕ → ℕ × ℕ
get_bar d index = (bar_at d index, get_or d.bar_masks index 0)

abbrev pub put_bar : HeaderData → ℕ → ℕ → HeaderData
put_bar d index val = record d { header = record d.header { bars = set d.header.bars index val } }

unfoldable pub set_bar : HeaderData → ℕ → ℕ → HeaderData
set_bar d index val =
    put_bar d index (mask_bits 32 (bar_at d index) val (get_or d.bar_masks index 0))

abbrev pub put_command : HeaderData → ℕ → HeaderData
put_command d val = record d {
  header = record d.header { common = record d.header.common { command = val } };
}

abbrev pub put_status : HeaderData → ℕ → HeaderData
put_status d val = record d {
  header = record d.header { common = record d.header.common { status = val } };
}

-- The two layout changes, `UpdateCommandCallback` and `MoveBarCallback`.
pub data ChangeLayout (D : Type 0) : Type 0 where
  update_command : List (PciBar D) → (bars : List ℕ) → (changed current : ℕ) → ChangeLayout D
  move_bar : (src dst : ℕ) → ChangeLayout D

unfoldable pub write_status : HeaderData → ℕ → HeaderData
write_status d val =
    put_status d (bit_and d.header.common.status (status_bits - bit_and (u16 val) status_rw1c_bits))

module _ {D : Type 0} where
  -- The write of the command register.
  unfoldable pub write_command :
      HeaderData → ℕ → List (PciBar D) → HeaderData × Option (ChangeLayout D)
  write_command d val pci_bars =
      let old = d.header.common.command in
      let kept = bit_and old (command_bits - command_writable_bits) in
      let current = bit_or kept (bit_and (u16 val) command_writable_bits) in
      let changed = bit_xor old current in
      (
        put_command d current,
        if not (bit_and changed (command_mem + command_io) == 0)
            then some (update_command pci_bars d.header.bars changed current)
            else none,
      )

  -- A new value of a base address register: at once, or by a move of what lies behind it.
  unfoldable pub update_bar :
      HeaderData → (index masked_val : ℕ) → PciBar D → HeaderData × Option (ChangeLayout D)
  update_bar d index masked_val (io region) =
      if has command_io d.header.common.command
      then (d, some (move_bar (bar_at d index) masked_val))
      else (put_bar d index masked_val, none)
  update_bar d index masked_val (mem region) =
      let hi_32 = if has bar_mem64 (bar_at d index) then bar_at d (index + 1) * 2 ^ 32 else 0 in
      if has command_mem d.header.common.command
      then (d, some (move_bar (bit_or (bar_at d index) hi_32) (bit_or masked_val hi_32)))
      else (put_bar d index masked_val, none)
  update_bar d index masked_val empty =
      let lo_32 = bar_at d (index - 1) in
      if has command_mem d.header.common.command && ltb 0 index && has bar_mem64 lo_32
      then (
        d,
        some (
            move_bar (bit_or lo_32 (bar_at d index * 2 ^ 32)) (bit_or lo_32 (masked_val * 2 ^ 32))),
      )
      else (put_bar d index masked_val, none)

  unfoldable pub write_bar :
      HeaderData → (index val : ℕ) → List (PciBar D) → HeaderData × Option (ChangeLayout D)
  unfolding update_bar
  write_bar d index val pci_bars =
      let masked_val = mask_bits 32 (bar_at d index) (u32 val) (get_or d.bar_masks index 0) in
      if bar_at d index == masked_val
      then (d, none)
      else update_bar d index masked_val (get_or pci_bars index empty)

  unfoldable pub write_header :
      HeaderData → (offset size val : ℕ) → List (PciBar D) → HeaderData × Option (ChangeLayout D)
  unfolding write_command write_status write_bar
  write_header d offset size val pci_bars =
      if offset == 4 && size == 2
      then write_command d val pci_bars
      else if offset == 6 && size == 2
      then (write_status d val, none)
      else if leb offset_bar0 offset && leb offset offset_bar5 && size == 4
      then write_bar d ((offset - offset_bar0) / 4) val pci_bars
      else (d, none)
