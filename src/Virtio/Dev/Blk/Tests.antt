-- ===== src/Virtio/Dev/Blk/Tests.antt =====
-- The theorems on blk.rs at a disk of two sectors, and a sector beyond 64 bits.
use alioth.Base.{
  ◌^◌, ℕ, ◌+◌, ◌≤◌, ◌≡◌, refl, ap, inl, inr, Bool, true, false, Bool-cases, List, [], ◌∷◌, ◌++◌,
  none, some, ok, leb, ◌==◌, if◌then◌else◌, length, arith,
}
use alioth.Mem.Emulated.{to_le_bytes}
use alioth.Mem.Mapped.{Host, Slice, load, store}
use alioth.Mem.Mapped.Store.{load-store}
use alioth.Virtio.Queue.Memory.{DescChain}
use alioth.Virtio.Queue.Handle
use alioth.Virtio.Queue.Handle.{VirtQueue, Queue, Handled}
use alioth.Virtio.Dev.Blk.{File, Block, handle_chain, handle_queue, read_request}
use alioth.Virtio.Dev.Blk.Bounds.{handle_chain_bound}
use alioth.Virtio.Dev.Blk.ReadOnly.{handle_queue_same}
use alioth.Virtio.Dev.Blk.Again.{IsRequest, ReadsBack, read-after_write}

abbrev disk : File (ℕ → ℕ)
disk = record {
  read_exact_at =
      λ d n offset. if leb (offset + n) 1024 then (load d offset n, true) else ([], false);
  write_all_at = λ d bs offset.
      if leb (offset + length bs) 1024 then (store d offset bs, true) else (d, false);
  flush = λ d. (d, true);
}

disk-ReadsBack : ReadsBack disk
disk-ReadsBack = record {
  read-write = λ d bs offset worked. elim (Bool-cases (leb (offset + length bs) 1024)) [
    | inl fits ↦ rw fits (ap (λ cs. (cs, true)) (load-store d offset bs))
    | inr over ↦ absurd (ground arith)
  ];
}

abbrev zeros : Host
zeros a = 0

abbrev slice : (ptr len : ℕ) → Slice
slice ptr len = record { ptr = ptr; len = len }

-- A request in the 16 bytes at 0x100, and 4 bytes of data at 0x300.
abbrev guest : (type_ sector : ℕ) → List ℕ → Host
guest type_ sector bs =
    store (store zeros 0x100 (to_le_bytes 4 type_ ++ to_le_bytes 4 0 ++ to_le_bytes 8 sector)) 0x300
      bs

abbrev block : Bool → Block
block ro = record { name = 0x64 ∷ 0x65 ∷ []; read_only = ro }

abbrev chain : (readable writable : List Slice) → DescChain
chain readable writable = record { id = 0; delta = 1; readable = readable; writable = writable }

abbrev out_chain : DescChain
out_chain = chain (slice 0x100 16 ∷ slice 0x300 4 ∷ []) (slice 0x200 1 ∷ [])

abbrev in_chain : DescChain
in_chain = chain (slice 0x100 16 ∷ []) (slice 0x400 4 ∷ slice 0x404 1 ∷ [])

abbrev four : List ℕ
four = 5 ∷ 6 ∷ 7 ∷ 8 ∷ []

out_request : IsRequest (guest 1 1 four) out_chain 1 1 (slice 0x300 4 ∷ [])
unfolding read_request load store
out_request = record { hdr = slice 0x100 16; readable = refl; parsed = refl }

in_request : IsRequest (guest 0 1 []) in_chain 0 1 []
unfolding read_request load store
in_request = record { hdr = slice 0x100 16; readable = refl; parsed = refl }

abbrev written : ℕ → ℕ
written = (handle_chain disk (block false) zeros (guest 1 1 four) out_chain).0

written_ok : (handle_chain disk (block false) zeros (guest 1 1 four) out_chain).1 0x200 ≡ 0
unfolding handle_chain load store
written_ok = refl

read-after_write_example :
    let after = (handle_chain disk (block false) written (guest 0 1 []) in_chain).1 in
    (after 0x404 ≡ 0) × (load after 0x400 4 ≡ load (guest 1 1 four) 0x300 4)
read-after_write_example =
    read-after_write disk disk-ReadsBack (block false) zeros (guest 1 1 four) (guest 0 1 [])
      out_chain in_chain 1 (slice 0x300 4) (slice 0x200 1) (slice 0x400 4) (slice 0x404 1) refl
      out_request refl refl written_ok in_request refl refl refl (inr (omega arith))

handle_chain_bound_example : (handle_chain disk (block false) zeros (guest 8 0 []) in_chain).2 ≤ 5
handle_chain_bound_example = handle_chain_bound disk zeros (block false) (guest 8 0 []) in_chain

-- The name has two bytes.
id_length : (handle_chain disk (block false) zeros (guest 8 0 []) in_chain).2 ≡ 3
unfolding handle_chain load store
id_length = refl

-- A ring with one chain, which is at the index 0.
abbrev ring : VirtQueue ℕ DescChain ℕ
ring = record {
  init_index = 0;
  desc_avail = λ q i. i == 0;
  get_avail = λ q i. some (ok (if i == 0 then some q else none));
  set_used = λ q i id len. q;
  enable_notification = λ q b. q;
  interrupt_enabled = λ q i delta. true;
  index_add = λ q i delta. i + 1;
}

abbrev queue : Queue DescChain ℕ
queue = record { q = out_chain; avail = 0; used = 0; deferred = [] }

abbrev handled : Handled ℕ DescChain ℕ ((ℕ → ℕ) × Host)
handled = record {
  queue = record queue { avail = 1; used = 1 };
  op_state = (zeros, store (guest 1 1 four) 0x200 (1 ∷ []));
  irq = true;
  ret = ok tt;
}

refused : handle_queue disk ring (block true) 5 queue (zeros, guest 1 1 four) ≡ some handled
unfolding handle_queue Handle.handle_desc load store
refused = refl

handle_queue_same_example : handled.op_state.0 ≡ zeros
handle_queue_same_example =
    handle_queue_same disk (λ d. refl) ring (block true) refl 5 queue zeros (guest 1 1 four) handled
      refused

-- The sector 2^55 is read as the sector 0.
wrapped : (handle_chain disk (block false) (λ a. 9) (guest 0 (2 ^ 55) []) in_chain).1 0x400 ≡ 9
unfolding handle_chain load store
wrapped = refl
