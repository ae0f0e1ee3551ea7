-- ===== src/Pci/Config/Layout.antt =====
-- alioth/src/pci/config.rs: what the writes to the header do to the memory layout, the masks of a
-- new header, and the configuration space with the header in front.
use alioth.Base.{
  ℕ, zero, suc, ◌+◌, ◌-◌, ◌*◌, ◌/◌, ◌^◌, max, Bool, not, List, [], ◌∷◌, Option, none, some, leb,
  ltb, if◌then◌else◌, get_or, bit_and, bit_or,
}
use alioth.Base.Word.{u16, u32}
use alioth.Mem.Call.{Call, pure, ◌>>=◌, ◌>>◌}
use alioth.Mem.Addressable.{SlotBackend, size}
use alioth.Mem.Region.{region_size, VmMemory, Callbacks}
use alioth.Mem.Memory.{State}
use alioth.Mem.Memory.Layout.{add_region, remove_region, add_io_region, remove_io_region}
use alioth.Mem.Emulated.{Action, no_action, change_layout, read_bytes}
use alioth.Pci.Bdf.{PciBar, empty, mem, io}
use alioth.Pci.Config.{
  DeviceHeader, HeaderData, ChangeLayout, update_command, move_bar, as_bytes, has, clear_bits,
  set_bar, bar_at, put_command, write_header, command_mem, command_io, bar_mem64, bar_io,
  bar_io_mask, bar_mem_mask, status_cap,
}

module _ {W D : Type 0} ⦃sb : SlotBackend D⦄ ⦃vm : VmMemory W⦄ ⦃cb : Callbacks W⦄ where
  -- One register in `UpdateCommandCallback::change`.
  unfoldable pub update_one :
      (bars : List ℕ) (changed current index : ℕ) → PciBar D → Call (State W D) (Unit {0})
  update_one bars changed current index empty = pure tt
  update_one bars changed current index (mem region) =
      let bar = get_or bars index 0 in
      let lo = bit_and bar (2 ^ 32 - 1 - bar_mem_mask) in
      let addr = if has bar_mem64 bar then bit_or lo (get_or bars (index + 1) 0 * 2 ^ 32) else lo in
      if not (has command_mem changed)
      then pure tt
      else if has command_mem current
      then add_region addr region
      else (remove_region addr >> pure tt)
  update_one bars changed current index (io region) =
      let port = u16 (bit_and (get_or bars index 0) (2 ^ 32 - 1 - bar_io_mask)) in
      if not (has command_io changed)
      then pure tt
      else if has command_io current
      then add_io_region port region
      else (remove_io_region port >> pure tt)

  unfoldable pub update_all :
      (bars : List ℕ) (changed current index : ℕ) → List (PciBar D) → Call (State W D) (Unit {0})
  unfolding update_one
  update_all bars changed current index [] = pure tt
  update_all bars changed current index (b ∷ bs) =
      update_one bars changed current index b >> update_all bars changed current (index + 1) bs

  unfoldable pub change : ChangeLayout D → Call (State W D) (Unit {0})
  unfolding update_all
  change (update_command pci_bars bars changed current) = update_all bars changed current 0 pci_bars
  change (move_bar src dst) =
      if has bar_io (u32 src)
      then (remove_io_region (u16 (clear_bits bar_io_mask src))
          >>= add_io_region (u16 (clear_bits bar_io_mask dst)))
      else (remove_region (clear_bits bar_mem_mask src)
          >>= add_region (clear_bits bar_mem_mask dst))

-- `BarCallback::mapped`.
unfoldable pub mapped : (index : ℕ) → HeaderData → (addr : ℕ) → HeaderData
mapped index d addr =
    let d' = set_bar d index (u32 addr) in
    if has bar_mem64 (bar_at d index) then set_bar d' (index + 1) (u32 (addr / 2 ^ 32)) else d'

-- `u64::next_power_of_two`: doubling from one, with the wrap past the last power.
unfoldable pub double_from : (fuel power n : ℕ) → ℕ
double_from zero power n = 0
double_from (suc fuel) power n =
    let rest = double_from fuel (power * 2) n in if leb n power then power else rest

unfoldable pub next_power_of_two : ℕ → ℕ
unfolding double_from
next_power_of_two n = double_from 64 1 n

module _ {D : Type 0} ⦃sb : SlotBackend D⦄ where
  -- The mask of a register, and the high half for the register after it.
  unfoldable pub bar_mask : PciBar D → (val mask_hi : ℕ) → ℕ × ℕ
  unfolding next_power_of_two
  bar_mask empty val mask_hi = (mask_hi, 0)
  bar_mask (io region) val mask_hi =
      (u32 (2 ^ 64 - max (next_power_of_two (size region.range)) 4), mask_hi)
  bar_mask (mem region) val mask_hi =
      let mask_64 = 2 ^ 64 - max (next_power_of_two (region_size region)) 4096 in
      (u32 mask_64, if has bar_mem64 val then mask_64 / 2 ^ 32 else mask_hi)

  unfoldable pub bar_masks_from : (mask_hi : ℕ) → List (PciBar D) → List ℕ → List ℕ
  unfolding bar_mask
  bar_masks_from mask_hi [] vals = []
  bar_masks_from mask_hi (b ∷ bs) [] = []
  bar_masks_from mask_hi (b ∷ bs) (v ∷ vs) =
      let (mask, hi) = bar_mask b v mask_hi in mask ∷ bar_masks_from hi bs vs

-- `EmulatedHeader`, with the registers' callbacks left to the regions.
pub record EmulatedHeader (D : Type 0) : Type 0 where
  pub header_data : HeaderData
  pub bars : List (PciBar D)

module _ {D : Type 0} ⦃sb : SlotBackend D⦄ where
  unfoldable pub new : DeviceHeader → List (PciBar D) → EmulatedHeader D
  unfolding bar_masks_from
  new header bars = record {
    header_data = record {
      header = header;
      bar_masks = bar_masks_from 0 bars header.bars;
      bdf = 0;
    };
    bars = bars;
  }

  unfoldable pub set_bdf : EmulatedHeader D → ℕ → EmulatedHeader D
  set_bdf h bdf = record h { header_data = record h.header_data { bdf = bdf } }

  unfoldable pub read : EmulatedHeader D → (offset size : ℕ) → ℕ
  read h offset n = read_bytes (as_bytes h.header_data.header) offset n

  abbrev asked : Option (ChangeLayout D) → Action (ChangeLayout D)
  asked none = no_action
  asked (some callback) = change_layout callback

  unfoldable pub write :
      EmulatedHeader D → (offset size val : ℕ) → EmulatedHeader D × Action (ChangeLayout D)
  write h offset n val =
      let (d, callback) = write_header h.header_data offset n val h.bars in
      (record h { header_data = d }, asked callback)

  unfoldable pub reset : EmulatedHeader D → EmulatedHeader D
  reset h = record h { header_data = put_command h.header_data 0 }

-- `EmulatedConfig`: the header below 64, the capabilities, a parameter with their own state, above.
pub record EmulatedConfig (D C : Type 0) : Type 0 where
  pub header : EmulatedHeader D
  pub caps : C

pub record PciConfigArea (D C : Type 0) : Type 0 where
  pub is_empty : C → Bool
  pub read : C → (offset size : ℕ) → ℕ
  pub write : C → (offset size val : ℕ) → C × Action (ChangeLayout D)
  pub reset : C → C

module _ {D C : Type 0} ⦃sb : SlotBackend D⦄ (area : PciConfigArea D C) where
  unfoldable pub new_device : DeviceHeader → List (PciBar D) → C → EmulatedConfig D C
  unfolding new
  new_device header bars caps =
      let with_caps = record header {
        common = record header.common { status = bit_or header.common.status status_cap };
        capability_pointer = 64;
      } in
      record { header = new (if area.is_empty caps then header else with_caps) bars; caps = caps }

  unfoldable pub config_read : EmulatedConfig D C → (offset size : ℕ) → ℕ
  unfolding read
  config_read c offset n =
      if ltb offset 64 then read c.header offset n else area.read c.caps offset n

  unfoldable pub config_write :
      EmulatedConfig D C → (offset size val : ℕ) → EmulatedConfig D C × Action (ChangeLayout D)
  unfolding write
  config_write c offset n val =
      if ltb offset 64
      then (let (h, action) = write c.header offset n val in (record c { header = h }, action))
      else (let (caps, action) = area.write c.caps offset n val in
          (record c { caps = caps }, action))

  unfoldable pub config_reset : EmulatedConfig D C → EmulatedConfig D C
  unfolding reset
  config_reset c = record { header = reset c.header; caps = area.reset c.caps }
