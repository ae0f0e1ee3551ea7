-- ===== src/Device/FwCfg/Tests.antt =====
-- The theorems on fw_cfg.rs at a device with two small files, and runs of its DMA interface.
use alioth.Base.{ℕ, ◌≡◌, refl, List, [], ◌∷◌, Option, some, none, Result, ok, err, ◌++◌, arith}
use alioth.Mem.Addressable
use alioth.Mem.Mapped.{ArcMemPages, pages_backend, Ram, Host, Slice, get_partial_slice, load, store}
use alioth.Device.FwCfg.{FwCfg, FwCfgItem, bytes, ErrorKind, lookup, to_be_bytes, do_dma, dma_read}
use alioth.Device.FwCfg.Items.{new}
use alioth.Device.FwCfg.Ports.{write, reads, padded, reads-selected}
use alioth.Device.FwCfg.Directory.{IsDir, new-IsDir}
use alioth.Device.FwCfg.Dma.{dma_read-reads}

abbrev first : FwCfgItem
first = record { name = 0x61 ∷ []; content = bytes (1 ∷ 2 ∷ 3 ∷ 4 ∷ []) }

abbrev second : FwCfgItem
second = record { name = 0x62 ∷ []; content = bytes (9 ∷ []) }

abbrev empty : FwCfg
empty = record { selector = 0; data_offset = 0; dma_address = 0; items = []; known_items = [] }

abbrev device_of : Result ErrorKind FwCfg → FwCfg
device_of (ok d) = d
device_of (err e) = empty

abbrev device : FwCfg
device = device_of (new (first ∷ second ∷ []))

made : new (first ∷ second ∷ []) ≡ ok device
unfolding new
made = refl

new-IsDir_example : IsDir device × (device.items ≡ first ∷ second ∷ [])
new-IsDir_example = new-IsDir (first ∷ second ∷ []) device made

-- 16 bytes at 0x1000, 2 at 0x2000 and 8 at 0x2002.
abbrev ram : Ram
ram = record {
  inner = record {
    slots =
        record { addr = 0x1000; backend = record { addr = 0x100; size = 16 } }
        ∷ record { addr = 0x2000; backend = record { addr = 0x200; size = 2 } }
        ∷ record { addr = 0x2002; backend = record { addr = 0x300; size = 8 } }
        ∷ [];
  };
}

abbrev blank : Host
blank a = 0

named : lookup device 0x20 ≡ some (bytes (1 ∷ 2 ∷ 3 ∷ 4 ∷ []))
unfolding lookup new
named = refl

reads-selected_example :
    (d' : FwCfg) × (write device 0 2 0x20 ram blank ≡ some (d', blank))
    × (reads 6 d' ≡ padded 6 (1 ∷ 2 ∷ 3 ∷ 4 ∷ []))
reads-selected_example =
    reads-selected device 0x20 6 (bytes (1 ∷ 2 ∷ 3 ∷ 4 ∷ [])) ram blank (omega arith) named
      (omega arith)

abbrev selected : FwCfg
selected = record device { selector = 0x20; data_offset = 1 }

dma_read-reads_example :
    dma_read selected 0x20 8 0x2002 ram blank
    ≡ some (record selected { data_offset = 4 }, store blank 0x300 (reads 3 selected), ok tt)
unfolding lookup new get_partial_slice Addressable.search
dma_read-reads_example =
    dma_read-reads selected (bytes (1 ∷ 2 ∷ 3 ∷ 4 ∷ [])) 4 8 0x2002 ram blank
      (record { ptr = 0x300; len = 3 }) refl refl refl refl

-- A request that selects 0x20 and reads 4 bytes to an address.
abbrev request : (address : ℕ) → Host
request address =
    store blank 0x100 (to_be_bytes 4 0x20000a ++ to_be_bytes 4 4 ++ to_be_bytes 8 address)

abbrev bytes_after : (ptr : ℕ) → Option (FwCfg × Host) → List ℕ
bytes_after ptr none = []
bytes_after ptr (some (d, h)) = load h ptr 2

abbrev selector_after : Option (FwCfg × Host) → ℕ
selector_after none = 0
selector_after (some (d, h)) = d.selector

-- The select bit sets the selector to 1.
select_one :
    selector_after (do_dma (record device { dma_address = 0x1000 }) ram (request 0x2002)) ≡ 1
unfolding do_dma alioth.Mem.Mapped.read get_partial_slice Addressable.search load store new
    alioth.Mem.Mapped.Transfer.write_range alioth.Mem.Mapped.write
select_one = refl

-- Over two page ranges, both get the start of the item.
start_again :
    bytes_after 0x300 (
      do_dma
        (record device { dma_address = 0x1000; selector = 0x20 })
        ram
        (store (request 0x2000) 0x100 (to_be_bytes 4 2)))
    ≡ 1 ∷ 2 ∷ []
unfolding do_dma alioth.Mem.Mapped.read get_partial_slice Addressable.search load store new
    alioth.Mem.Mapped.Transfer.write_range alioth.Mem.Mapped.write
start_again = refl

-- A write request has no result.
write_panics :
    do_dma
      (record device { dma_address = 0x1000 })
      ram
      (store (request 0x2000) 0x100 (to_be_bytes 4 16))
    ≡ none
unfolding do_dma alioth.Mem.Mapped.read get_partial_slice Addressable.search load store
write_panics = refl
