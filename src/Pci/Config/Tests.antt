-- ===== src/Pci/Config/Tests.antt =====
-- The theorems on config.rs at concrete headers.
use alioth.Base.{
  ℕ, ◌+◌, ◌-◌, ◌*◌, ◌/◌, ◌%◌, ◌^◌, ◌≤◌, ◌≡◌, ◌⊎◌, refl, List, [], ◌∷◌, none, some, arith,
}
use alioth.Mem.Region.{MemRegion, emulated, hidden, region_size}
use alioth.Mem.Memory.Tests.{dev_size}
use alioth.Pci.Bdf.{PciBar, empty, mem}
use alioth.Pci.Config.{
  CommonHeader, DeviceHeader, HeaderData, move_bar, bar_at, write_header, write_bar, clear_bits,
}
use alioth.Pci.Config.Layout.{new, mapped, read}
use alioth.Pci.Config.Sizing.{whole_size, write_header-size}
use alioth.Pci.Config.Moves.{address, write_bar-move}

abbrev header : (command bar : ℕ) → DeviceHeader
header command bar = record {
  common = record {
    vendor = 0x1af4;
    device = 0x1041;
    command = command;
    status = 0;
    revision = 1;
    prog_if = 0;
    subclass = 0;
    class_ = 2;
    cache_line_size = 0;
    latency_timer = 0;
    header_type = 0;
    bist = 0;
  };
  bars = bar ∷ 0 ∷ 0 ∷ 0 ∷ 0 ∷ 0 ∷ [];
  cardbus_cis_pointer = 0;
  subsystem_vendor = 0;
  subsystem = 0;
  expansion_rom = 0;
  capability_pointer = 0;
  reserved = 0 ∷ 0 ∷ 0 ∷ 0 ∷ 0 ∷ 0 ∷ 0 ∷ [];
  intx_line = 0;
  intx_pin = 0;
  min_gnt = 0;
  max_lat = 0;
}

-- A region of 0x1800 bytes, which needs 8 KiB.
abbrev region : MemRegion ℕ
region = record {
  ranges = emulated 0x1800 ∷ [];
  entries = record { size = 0x1800; type_ = hidden } ∷ [];
  callbacks = [];
}

abbrev bars : List (PciBar ℕ)
bars = mem region ∷ empty ∷ empty ∷ empty ∷ empty ∷ empty ∷ []

write_header-size_example :
    (k : ℕ) × (whole_size region ≡ 2 ^ k)
    × (region_size region ≤ 2 ^ k)
    × ((write_header (new (header 0 8) bars).header_data 16 4 0xffffffff bars).1 ≡ none)
    × (bar_at (write_header (new (header 0 8) bars).header_data 16 4 0xffffffff bars).0 0
        ≡ 0xffffffff / 2 ^ k * 2 ^ k + 8 % 2 ^ k)
unfolding region_size
write_header-size_example =
    write_header-size (header 0 8) bars 0 0xffffffff region (omega arith) refl refl (omega arith)
      (omega arith) (omega arith) (omega arith) refl

abbrev decoding : HeaderData
decoding = record {
  header = header 2 0xc0000008;
  bar_masks = 0xffffe000 ∷ 0 ∷ 0 ∷ 0 ∷ 0 ∷ 0 ∷ [];
  bdf = 8;
}

write_bar-move_example :
    ((write_bar decoding 0 0xd0000000 bars ≡ (decoding, none))
      × (0xc0000008 - 0xc0000008 % 2 ^ 13 ≡ 0xd0000000))
    ⊎ ((src : ℕ) × (dst : ℕ) × (write_bar decoding 0 0xd0000000 bars
          ≡ (decoding, some (move_bar src dst)))
        × (clear_bits 15 src ≡ address 0xc0000008)
        × (clear_bits 15 dst ≡ 0xd0000000)
        × (bar_at (mapped 0 decoding (clear_bits 15 dst)) 0 ≡ 0xd0000008))
write_bar-move_example =
    write_bar-move decoding 0 13 0xd0000000 bars region (omega arith) (omega arith) refl
      (omega arith) (omega arith) (omega arith) (omega arith) refl refl refl

vendor_read : read (new (header 0 8) bars) 0 4 ≡ 0x10411af4
unfolding read alioth.Mem.Emulated.read_bytes alioth.Pci.Config.as_bytes new
vendor_read = refl

bar_read : read (new (header 0 8) bars) 16 4 ≡ 8
unfolding read alioth.Mem.Emulated.read_bytes alioth.Pci.Config.as_bytes new
bar_read = refl

-- An I/O register of 4 ports at 0x1004 moves to 0x2000: the register after it loses its address.
abbrev io_then_memory : HeaderData
io_then_memory = record {
  header = record (header 3 0x1005) { bars = 0x1005 ∷ 0xe0000000 ∷ 0 ∷ 0 ∷ 0 ∷ 0 ∷ [] };
  bar_masks = 0xfffffffc ∷ 0xfffff000 ∷ 0 ∷ 0 ∷ 0 ∷ 0 ∷ [];
  bdf = 8;
}

next_register_lost : bar_at (mapped 0 io_then_memory 0x2000) 1 ≡ 0
unfolding mapped alioth.Pci.Config.set_bar alioth.Utils.mask_bits
next_register_lost = refl
