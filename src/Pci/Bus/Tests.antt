-- ===== src/Pci/Bus/Tests.antt =====
-- The theorem on bus.rs at a concrete bus.
use alioth.Base.{◌≡◌, [], ◌∷◌, some, ok, arith}
use alioth.Mem.Emulated.{no_action}
use alioth.Pci.Segment.{device, get}
use alioth.Pci.Bus.{PciBus, read, write}
use alioth.Pci.Bus.Ecam.{port_address, read-port}
use alioth.Pci.Config.{HeaderData}
use alioth.Pci.Segment.Tests.{headers, card}

abbrev board : PciBus HeaderData
board = record {
  address = 0;
  segment = record { devices = (0, device card) ∷ (8, device card) ∷ []; next_bdf = 16 };
}

read-port_example :
    (b' : PciBus HeaderData) × (write headers board 0 4 (port_address 0 1 0 2)
      ≡ some (b', ok no_action))
    × (read headers b' 6 2 ≡ some (ok 0))
unfolding get
read-port_example =
    read-port headers board 0 1 0 2 2 2 (omega arith) (omega arith) (omega arith) (omega arith)
      (omega arith)
