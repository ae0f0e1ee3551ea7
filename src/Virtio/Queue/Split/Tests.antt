-- ===== src/Virtio/Queue/Split/Tests.antt =====
-- The theorems on split.rs at a ring of four chains.
use alioth.Base.{ℕ, suc, ◌-◌, ◌^◌, ◌<◌, ◌≡◌, ◌↔◌, refl, true, [], ◌∷◌, some, ok, get_elem?, arith}
use alioth.Mem.Addressable
use alioth.Mem.Mapped.{ArcMemPages, Ram, Host, read, get_partial_slice, slice_iter, collect, load}
use alioth.Virtio.Queue.Memory.{Fields, read_desc, parse, finish}
use alioth.Virtio.Queue.Split.{SplitQueue, Desc, get_desc, desc_avail, wrapped_index, index_add}
use alioth.Virtio.Queue.Split.Index.{InRing, queued, desc_avail_iff}
use alioth.Virtio.Queue.Split.Avail.{get_avail, lift}
use alioth.Virtio.Queue.Split.Linked.{get_avail-Linked}

abbrev first : Desc
first = record { addr = 0x1000; len = 2; flag = 1; next = 2 }

abbrev second : Desc
second = record { addr = 0x1002; len = 1; flag = 2; next = 0 }

-- An indirect table at 0x1010.
abbrev table : Desc
table = record { addr = 0x1010; len = 16; flag = 4; next = 0 }

-- The driver is one chain ahead, past the end of the 16 bits.
abbrev ring : SplitQueue
ring = record {
  size = 4;
  avail_hdr = record { flags = 0; idx = 0 };
  avail_ring = 0 ∷ 0 ∷ 0 ∷ 0 ∷ [];
  used_event = some (2 ^ 16 - 1);
  used_hdr = record { flags = 0; idx = 2 ^ 16 - 1 };
  used_ring =
      record { id = 0; len = 0 }
      ∷ record { id = 0; len = 0 }
      ∷ record { id = 0; len = 0 }
      ∷ record { id = 0; len = 0 }
      ∷ [];
  avail_event = some 0;
  desc = first ∷ table ∷ second ∷ table ∷ [];
}

abbrev last_index : ℕ
last_index = 2 ^ 16 - 1

in_ring : InRing ring last_index
in_ring = record {
  word = omega arith;
  avail_word = omega arith;
  some_room = omega arith;
  small = omega arith;
  bounded = omega arith;
}

desc_avail_iff_example :
    ((desc_avail ring last_index ≡ true) ↔ (0 < 1))
    × (desc_avail ring last_index ≡ true
        → InRing ring (index_add ring last_index 1)
          × (1 ≡ suc (queued ring (index_add ring last_index 1))))
desc_avail_iff_example = desc_avail_iff ring last_index in_ring

abbrev pages : ArcMemPages
pages = record { addr = 0x700; size = 0x40 }

abbrev ram : Ram
ram = record { inner = record { slots = record { addr = 0x1000; backend = pages } ∷ [] } }

-- Every byte of memory is 4, so every descriptor in it is INDIRECT.
abbrev fours : Host
fours a = 4

at_head : desc_avail ring last_index ≡ true
unfolding desc_avail
at_head = refl

head_at : get_elem? ring.avail_ring (wrapped_index ring last_index) ≡ some 0
unfolding wrapped_index
head_at = refl

first_at : get_desc ring 0 ≡ ok first
unfolding get_desc
first_at = refl

second_at : get_desc ring 2 ≡ ok second
unfolding get_desc
second_at = refl

get_avail-Linked_example :
    get_avail 2 ring ram fours last_index
    ≡ lift (finish ram 0 1 (record { readable = (0x1000, 2) ∷ []; writable = (0x1002, 1) ∷ [] }))
get_avail-Linked_example =
    get_avail-Linked 2 ring ram fours last_index 0 (first ∷ second ∷ []) at_head head_at
      (first_at, refl, refl, (second_at, refl, refl)) (omega arith)

abbrev nested : SplitQueue
nested = record ring { desc = table ∷ table ∷ table ∷ table ∷ [] }

nested_avail : desc_avail nested last_index ≡ true
unfolding desc_avail
nested_avail = refl

nested_head : get_elem? nested.avail_ring (wrapped_index nested last_index) ≡ some 0
unfolding wrapped_index
nested_head = refl

nested_at : get_desc nested 0 ≡ ok table
unfolding get_desc
nested_at = refl

abbrev entry : Fields
entry = record { addr = 0x404040404040404; len = 0x4040404; third = 0x404; fourth = 0x404 }

entry_at : read_desc ram fours 0x1010 ≡ some (ok entry)
unfolding read_desc parse read get_partial_slice slice_iter collect load Addressable.search
entry_at = refl
