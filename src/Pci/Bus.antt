-- ===== src/Pci/Bus.antt =====
-- alioth/src/pci/bus.rs: the address and data ports of the PCI configuration space.
pub mod Ecam
mod Tests
use alioth.Base.{
  ℕ, ◌+◌, ◌*◌, ◌/◌, ◌%◌, ◌^◌, Bool, ◌&&◌, List, [], Option, none, some, Result, ok, err, leb, ◌==◌,
  if◌then◌else◌, bit_and, bit_or,
}
use alioth.Base.Word.{u32}
use mathlib.Core.Option
use alioth.Mem.Error.{Error}
use alioth.Mem.Emulated.{Action, no_action}
use alioth.Pci.Bdf
use alioth.Pci.Bdf.{Bdf}
use alioth.Pci.Segment
use alioth.Pci.Segment.{PciSegment, PciConfig, Entry}

-- `Address::enabled` and `to_ecam_addr` of the address port.
abbrev pub enabled : ℕ → Bool
enabled address = address / 2 ^ 31 % 2 == 1

unfoldable pub to_ecam_addr : ℕ → ℕ
to_ecam_addr v = bit_or (bit_and v 0xffff00 * 2 ^ 4) (bit_and v 0xfc)

-- `PciBus`: the address port of `PciIoBus`, and the segment that both share.
pub record PciBus (P : Type 0) : Type 0 where
  pub address : ℕ
  pub segment : PciSegment P

module _ {P : Type 0} where
  -- With the host bridge at 0:0.0, as on x86_64.
  unfoldable pub new : Entry P → PciBus P
  new host_bridge = record {
    address = 0;
    segment = (Segment.add Segment.new (Bdf.new 0 0 0) host_bridge).0;
  }

  unfoldable pub reserve : PciBus P → Option Bdf → Option (PciBus P × Option Bdf)
  reserve b bdf =
      Option.map (λ r. (record b { segment = r.0 }, r.1)) (Segment.reserve b.segment bdf)

  unfoldable pub add : PciBus P → Bdf → Entry P → PciBus P × Option (Entry P)
  add b bdf dev = let (s, r) = Segment.add b.segment bdf dev in (record b { segment = s }, r)

abbrev pub size : ℕ
size = 8

module _ {P C : Type 0} (cfg : PciConfig P C) where
  unfoldable pub read : PciBus P → (offset size : ℕ) → Option (Result Error ℕ)
  unfolding to_ecam_addr
  read b offset size =
      if offset == 0
      then some (ok (if size == 4 then b.address else 0))
      else if leb 4 offset && leb offset 7
      then (if enabled b.address
          then Segment.read cfg b.segment (bit_or (to_ecam_addr b.address) (bit_and offset 3)) size
          else some (ok 0))
      else some (ok 0)

  unfoldable pub write :
      PciBus P → (offset size val : ℕ) → Option (PciBus P × Result Error (Action C))
  unfolding to_ecam_addr
  write b offset size val =
      if offset == 0
      then some ((if size == 4 then record b { address = u32 val } else b), ok no_action)
      else if leb 4 offset && leb offset 7
      then (if enabled b.address
          then Option.map (λ r. (record b { segment = r.0 }, r.1))
              (Segment.write cfg b.segment (bit_or (to_ecam_addr b.address) (bit_and offset 3)) size
                val)
          else some (b, ok no_action))
      else some (b, ok no_action)
