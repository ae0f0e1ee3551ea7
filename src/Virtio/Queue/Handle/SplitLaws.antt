-- ===== src/Virtio/Queue/Handle/SplitLaws.antt =====
-- The split ring keeps the promises of a ring.
use alioth.Base.{
  ℕ, ◌≡◌, ◌≢◌, refl, sym, ◌∙◌, Bool, true, false, ◌==◌, Option, none, some, Result, ok, Bool-cases,
  Option-cases, Result-cases, inl, inr, get_elem?, [], arith,
}
use alioth.Mem.Mapped.{Ram, Host, translate_iov}
use alioth.Virtio.Queue.Memory.{DescChain, Buffers, finish}
use alioth.Virtio.Queue.Split.{
  SplitQueue, QueueError, desc_avail, wrapped_index, set_used, set_used_index, enable_notification,
  index_add,
}
use alioth.Virtio.Queue.Split.Avail.{get_avail, walk, lift}
use alioth.Virtio.Queue.Split.Index.{InRing, queued, desc_avail_iff}
use alioth.Virtio.Queue.Handle.Rings.{split}
use alioth.Virtio.Queue.Handle.Drained.{Laws}

-- Whether the driver is asked to notify: through the event index, or else through the flag.
abbrev pub notified : SplitQueue → Bool
notified q = elim q.avail_event [
  | some event ↦ event == q.avail_hdr.idx
  | none ↦ q.used_hdr.flags == 0
]

finish-some : (m : Ram) (id delta : ℕ) (b : Buffers) → lift (finish m id delta b) ≢ some (ok none)
unfolding finish
finish-some m id delta b e = elim (Option-cases (translate_iov m b.readable)) [
  | inl out ↦ ground arith
  | inr (r, p) ↦ elim (Result-cases r) [
    | inl (f, bad) ↦ ground arith
    | inr (rs, good) ↦ elim (Option-cases (translate_iov m b.writable)) [
      | inl out ↦ ground arith
      | inr (r', p') ↦ elim (Result-cases r') [
        | inl (f, bad) ↦ ground arith
        | inr (ws, good') ↦ ground arith
      ]
    ]
  ]
]

-- The rest of the ring does not matter to the indices.
same_ring :
    (q q' : SplitQueue) (i : ℕ)
    → q'.size ≡ q.size
    → q'.avail_hdr.idx ≡ q.avail_hdr.idx
    → InRing q i
    → InRing q' i
same_ring q q' i e f r = record {
  word = r.word;
  avail_word = omega (arith, r.avail_word);
  some_room = omega (arith, r.some_room);
  small = omega (arith, r.small);
  bounded = omega (arith, r.bounded);
}

notify_kept :
    (q : SplitQueue) (i : ℕ) (b : Bool)
    → InRing q i
    → InRing (enable_notification q b) i
      × (queued (enable_notification q b) i ≡ queued q i)
      × (desc_avail (enable_notification q b) i ≡ desc_avail q i)
unfolding enable_notification desc_avail
notify_kept q i b r = elim (Option-cases q.avail_event) [
  | inl off ↦ rw (off, enable_notification) (same_ring q _ i refl refl r, refl, refl)
  | inr (event, on) ↦ rw (on, enable_notification) (same_ring q _ i refl refl r, refl, refl)
]

notify_set : (q : SplitQueue) (b : Bool) → notified (enable_notification q b) ≡ b
unfolding enable_notification
notify_set q true = elim (Option-cases q.avail_event) [
  | inl off ↦ rw (off, enable_notification) (rw (off, notified) refl)
  | inr (event, on) ↦ rw (on, enable_notification) (ground arith)
]
notify_set q false = elim (Option-cases q.avail_event) [
  | inl off ↦ rw (off, enable_notification) (rw (off, notified) refl)
  | inr (event, on) ↦ rw (on, enable_notification) (ground arith)
]

module _ (rounds : ℕ) (m : Ram) (h : Host) where
  off_none :
      (q : SplitQueue) (i : ℕ) → desc_avail q i ≡ false → get_avail rounds q m h i ≡ some (ok none)
  unfolding get_avail
  off_none q i off = rw (off, get_avail) refl

  on_some :
      (q : SplitQueue) (i : ℕ) → desc_avail q i ≡ true → get_avail rounds q m h i ≢ some (ok none)
  unfolding get_avail
  on_some q i on e = elim (Option-cases (get_elem? q.avail_ring (wrapped_index q i))) [
    | inl out ↦ ground arith
    | inr (head, at) ↦
        elim (Option-cases (walk rounds q m h head (record { readable = []; writable = [] }))) [
          | inl stuck ↦ ground arith
          | inr (r, p) ↦ elim (Result-cases r) [
            | inl (f, bad) ↦ ground arith
            | inr (b, good) ↦ finish-some m head 1 b (ground arith)
          ]
        ]
  ]

  other :
      (c : DescChain)
      → ◌≢◌ {A = Option (Result QueueError (Option DescChain))}
          (some (ok none))
          (some (ok (some c)))
  other c e = absurd cc

  pub split-Laws : Laws (split rounds m h) InRing queued notified
  unfolding set_used set_used_index enable_notification index_add desc_avail
  split-Laws = record {
    empty = λ q i valid e. elim (Bool-cases (desc_avail q i)) [
      | inl on ↦ absurd (on_some q i on e)
      | inr off ↦ off
    ];
    taken = λ q i c valid e. elim (Bool-cases (desc_avail q i)) [
      | inl on ↦ let (next, one) = (desc_avail_iff q i valid).1 on in (next, omega arith)
      | inr off ↦ absurd (other c (sym (off_none q i off) ∙ e))
    ];
    used_keeps = λ q u i id len delta valid.
        (same_ring q (set_used q u id len) i refl refl valid, refl, refl);
    notify_keeps = λ q i b valid. notify_kept q i b valid;
    notify_sets = λ q b. notify_set q b;
  }
