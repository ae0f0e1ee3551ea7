-- ===== src/Virtio/Queue/Packed/Tests.antt =====
-- The theorems on packed.rs at a ring of four descriptors.
use alioth.Base.{ℕ, ◌+◌, ◌%◌, ◌^◌, ◌≡◌, ◌↔◌, refl, true, [], ◌∷◌, some, ok, arith}
use alioth.Mem.Addressable
use alioth.Mem.Mapped.{
  ArcMemPages, Ram, Host, translate_iov, get_partial_slice, slice_iter, collect,
}
use alioth.Virtio.Queue.Memory.{DescChain, finish}
use alioth.Virtio.Queue.Packed.{PackedQueue, desc_avail, flag_is_avail, interrupt_enabled}
use alioth.Virtio.Queue.Packed.Index.{InRing}
use alioth.Virtio.Queue.Packed.Interrupt.{Took, interrupt_enabled_iff}
use alioth.Virtio.Queue.Packed.Avail.{get_avail, walk, push, push_desc}
use alioth.Virtio.Queue.Packed.Ends.{Chain, get_avail-Chain}

-- AVAIL and NEXT, then AVAIL and WRITE, then two used ones.
abbrev ring : PackedQueue
ring = record {
  size = 4;
  desc =
      record { addr = 0x1000; len = 2; id = 7; flag = 2 ^ 7 + 1 }
      ∷ record { addr = 0x1002; len = 1; id = 9; flag = 2 ^ 7 + 2 }
      ∷ record { addr = 0; len = 0; id = 0; flag = 0 }
      ∷ record { addr = 0; len = 0; id = 0; flag = 0 }
      ∷ [];
  enable_event_idx = true;
  notification = record { index = 0; flag = 0 };
  interrupt = record { index = 2 ^ 15 + 1; flag = 2 };
}

abbrev pages : ArcMemPages
pages = record { addr = 0x700; size = 8 }

abbrev ram : Ram
ram = record { inner = record { slots = record { addr = 0x1000; backend = pages } ∷ [] } }

abbrev blank : Host
blank a = 0

abbrev chain : DescChain
chain = record {
  id = 9;
  delta = 2;
  readable = record { ptr = 0x700; len = 2 } ∷ [];
  writable = record { ptr = 0x702; len = 1 } ∷ [];
}

in_ring : InRing 4 (2 ^ 15 + 3)
in_ring = record { word = omega arith; inside = omega arith; small = omega arith }

interrupt_enabled_iff_example :
    (interrupt_enabled ring (2 ^ 15 + 3) 3 ≡ true) ↔ Took 4 3 (2 ^ 15 + 1) (2 ^ 15 + 3)
interrupt_enabled_iff_example =
    interrupt_enabled_iff ring (2 ^ 15 + 3) 3 refl refl in_ring
      (record { word = omega arith; inside = omega arith; small = omega arith }) (omega arith)

gives : get_avail 4 ring ram blank (2 ^ 15) ≡ some (ok (some chain))
unfolding get_avail walk push push_desc desc_avail flag_is_avail finish translate_iov
    get_partial_slice slice_iter collect Addressable.search
gives = refl

get_avail-Chain_example :
    (desc_avail ring (2 ^ 15) ≡ true) × ((n : ℕ) × Chain ring 0 n 9 × (2 ≡ n % 2 ^ 16))
get_avail-Chain_example = get_avail-Chain 4 ring ram blank (2 ^ 15) chain gives

abbrev endless : PackedQueue
endless = record ring {
  size = 1;
  desc = record { addr = 0; len = 0; id = 7; flag = 2 ^ 7 + 1 } ∷ [];
}
