-- ===== src/Virtio/Queue/Handle/Tests.antt =====
-- The theorem on queue.rs at a split ring of two chains.
use alioth.Base.{
  ℕ, zero, suc, ◌+◌, ◌<◌, ◌≡◌, ◌≢◌, ◌⊎◌, refl, true, false, [], ◌∷◌, none, some, Result, ok,
  Bool-cases, inl, inr, bit_and, arith,
}
use alioth.Base.Bits.{bit_and_low}
use alioth.Mem.Addressable
use alioth.Mem.Mapped.{
  ArcMemPages, Ram, Host, get_partial_slice, translate_iov, slice_iter, collect,
}
use alioth.Virtio.Queue.Memory.{DescChain, finish}
use alioth.Virtio.Queue.Split.{SplitQueue, QueueError, desc_avail, wrapped_index, get_desc}
use alioth.Virtio.Queue.Split.Avail.{get_avail, walk}
use alioth.Virtio.Queue.Split.Index.{InRing, queued}
use alioth.Virtio.Queue.Handle.{Queue, Handled, Status, done, handle_desc}
use alioth.Virtio.Queue.Handle.Rings.{split}
use alioth.Virtio.Queue.Handle.Drained.{handle_desc_lem}
use alioth.Virtio.Queue.Handle.SplitLaws.{notified}
use alioth.Virtio.Queue.Handle.SplitReturns.{Valid, split_returns-Laws}

abbrev pages : ArcMemPages
pages = record { addr = 0x700; size = 0x40 }

abbrev ram : Ram
ram = record { inner = record { slots = record { addr = 0x1000; backend = pages } ∷ [] } }

abbrev blank : Host
blank a = 0

-- A chain of two descriptors and one of a single descriptor.
abbrev ring : SplitQueue
ring = record {
  size = 2;
  avail_hdr = record { flags = 0; idx = 2 };
  avail_ring = 0 ∷ 1 ∷ [];
  used_event = none;
  used_hdr = record { flags = 0; idx = 0 };
  used_ring = record { id = 0; len = 0 } ∷ record { id = 0; len = 0 } ∷ [];
  avail_event = some 2;
  desc =
      record { addr = 0x1000; len = 2; flag = 1; next = 1 }
      ∷ record { addr = 0x1002; len = 4; flag = 2; next = 0 }
      ∷ [];
}

in_ring : InRing ring 0
in_ring = record {
  word = omega arith;
  avail_word = omega arith;
  some_room = omega arith;
  small = omega arith;
  bounded = omega arith;
}

either : (x : ℕ) → x < 2 → (x ≡ 0) ⊎ (x ≡ 1)
either zero h = inl refl
either (suc zero) h = inr refl
either (suc (suc x)) h = absurd (omega arith)

wrapped : (j : ℕ) → (wrapped_index ring j ≡ 0) ⊎ (wrapped_index ring j ≡ 1)
unfolding wrapped_index
wrapped j = either (bit_and j 1) (omega (arith, bit_and_low 1 j))

returns : (j : ℕ) → get_avail 3 ring ram blank j ≢ none
unfolding get_avail walk finish translate_iov get_partial_slice slice_iter collect get_desc
    Addressable.search
returns j e = elim (Bool-cases (desc_avail ring j)) [
  | inr off ↦ ground arith
  | inl on ↦ elim (wrapped j) [ inl first ↦ ground arith | inr second ↦ ground arith ]
]

-- The operation counts its calls, and gives every chain back.
abbrev count_calls : ℕ → DescChain → ℕ × Result QueueError Status
count_calls n c = (n + 1, ok (done 0))

abbrev queue : Queue SplitQueue ℕ
queue = record { q = ring; avail = 0; used = 0; deferred = [] }

handle_desc_lem_example :
    (out : Handled QueueError SplitQueue ℕ ℕ) × (handle_desc
        (split 3 ram blank)
        count_calls
        5
        queue
        0
      ≡ some out)
    × (out.ret ≡ ok tt
        → (desc_avail (out.queue.q) (out.queue.avail) ≡ false) × (notified (out.queue.q) ≡ true))
handle_desc_lem_example =
    handle_desc_lem (split 3 ram blank) (Valid 3 ram blank) queued notified
      (split_returns-Laws 3 ram blank) count_calls (λ s c e. ground arith) 5 queue 0
      (λ q i valid. valid.1 i) (in_ring, returns) refl (omega arith)
