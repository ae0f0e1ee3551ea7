-- ===== src/Pci/Segment/Tests.antt =====
-- The theorems on segment.rs at concrete devices.
use alioth.Base.{ℕ, ◌≡◌, refl, List, [], ◌∷◌, none, some, ok, length, arith, inr}
use alioth.Mem.Emulated.{no_action}
use alioth.Pci.Config.{HeaderData, DeviceHeader, CommonHeader}
use alioth.Pci.Segment.{PciConfig, Entry, placeholder, device, PciSegment, get, add, reserve}
use alioth.Pci.Segment.Reserve.{Reserved, reserve_any}
use alioth.Pci.Segment.Assign.{Bar, sort_bars, place_bars, assign_resources}
use alioth.Pci.Segment.Assign.Written.{value_at, mask_at}
use alioth.Pci.Segment.Assign.Plan.{plan, Fits, place_all, written, place_bars-Fits}
use alioth.Pci.Segment.Assign.Packed.{pack, place_bars-pack}

-- A device is its header.
abbrev pub headers : PciConfig HeaderData (Unit {0})
headers = record {
  header = λ d. d;
  with_header = λ d h. h;
  read = λ d offset size. ok 0;
  write = λ d offset size val. ok (d, no_action);
  reset = λ d. ok d;
  reset_config = λ d. ok d;
}

abbrev common : CommonHeader
common = record {
  vendor = 0x1af4;
  device = 0x1041;
  command = 0;
  status = 0;
  revision = 1;
  prog_if = 0;
  subclass = 0;
  class_ = 2;
  cache_line_size = 0;
  latency_timer = 0;
  header_type = 0;
  bist = 0;
}

-- A 64-bit prefetchable register of 64 KiB and a 32-bit one of 4 KiB.
abbrev pub card : HeaderData
card = record {
  header = record {
    common = common;
    bars = 12 ∷ 0 ∷ 0 ∷ 0 ∷ 0 ∷ 0 ∷ [];
    cardbus_cis_pointer = 0;
    subsystem_vendor = 0;
    subsystem = 0;
    expansion_rom = 0;
    capability_pointer = 0;
    reserved = 0 ∷ 0 ∷ 0 ∷ 0 ∷ 0 ∷ 0 ∷ 0 ∷ [];
    intx_line = 0;
    intx_pin = 0;
    min_gnt = 0;
    max_lat = 0;
  };
  bar_masks = 0xffff0000 ∷ 0xffffffff ∷ 0xfffff000 ∷ 0 ∷ 0 ∷ 0 ∷ [];
  bdf = 8;
}

abbrev two_cards : PciSegment HeaderData
two_cards = record {
  devices = (0, device card) ∷ (8, device card) ∷ (16, placeholder) ∷ [];
  next_bdf = 0;
}

reserve_any_example : Reserved two_cards (reserve two_cards none)
reserve_any_example = reserve_any two_cards (omega arith)

abbrev bar : ℕ → ℕ → Bar
bar index shift = record { bdf = 8; index = index; shift = shift }

abbrev three_bars : List Bar
three_bars = bar 2 12 ∷ bar 0 16 ∷ bar 1 12 ∷ []

-- The registers of 64 bits of the two cards.
abbrev wide_bars : List Bar
wide_bars = bar 0 16 ∷ record { bdf = 0; index = 0; shift = 16 } ∷ []

place_bars-Fits_example :
    (value_at headers (place_bars headers two_cards.devices 0x400000000 0x500000000 wide_bars) 8 1
      ≡ written
          (plan 0x400000000 0x500000000 wide_bars)
          8
          1
          (value_at headers two_cards.devices 8 1))
    × Fits 0x400000000 0x500000000 (plan 0x400000000 0x500000000 wide_bars)
unfolding mask_at get
place_bars-Fits_example =
    place_bars-Fits headers two_cards.devices 0x400000000 0x500000000 wide_bars 8 1 (λ p h. refl)
      (omega arith) (omega arith) (omega arith) ((refl, inr refl), ((refl, inr refl), tt))

place_bars-pack_example :
    (place_bars headers [] 0x10000 0x30000 (sort_bars three_bars)
      ≡ place_all headers [] (pack 0x10000 (sort_bars three_bars)))
    × (length (pack 0x10000 (sort_bars three_bars)) ≡ 3)
place_bars-pack_example =
    place_bars-pack headers [] 1 16 0x10000 0x30000 three_bars (omega arith) (omega arith) refl
      (omega arith) (omega arith)

both_assigned :
    assign_resources headers
      (record { devices = (0, device card) ∷ (8, device card) ∷ []; next_bdf = 0 })
      ((0x1000, 0x2000)
        ∷ (0xc0000000, 0xc0100000)
        ∷ (0xd0000000, 0xd0000000)
        ∷ (0x400000000, 0x500000000)
        ∷ [])
    ≡ some (record {
      devices =
          (
            0,
            device (record card {
              header = record card.header { bars = 12 ∷ 4 ∷ 0xc0000000 ∷ 0 ∷ 0 ∷ 0 ∷ [] };
            }),
          )
          ∷ (
            8,
            device (record card {
              header = record card.header { bars = 0x1000c ∷ 4 ∷ 0xc0001000 ∷ 0 ∷ 0 ∷ 0 ∷ [] };
            }),
          )
          ∷ [];
      next_bdf = 0;
    })
unfolding assign_resources alioth.Pci.Config.get_bar alioth.Utils.align_up get
    alioth.Pci.Segment.insert alioth.Pci.Config.set_bar alioth.Utils.mask_bits
both_assigned = refl
