-- ===== src/Virtio/Queue/Packed/Ends.antt =====
-- Whether the walk of `get_avail` of packed.rs ends.
use alioth.Base.{
  ◌==◌, err, ℕ, zero, suc, ◌+◌, ◌%◌, ◌≡◌, refl, true, false, List, [], ◌∷◌, Option, some, Result,
  ok, get_elem?, inl, inr, Option-cases, Result-cases, Bool-cases, sym, ap, ◌∙◌, arith,
}
use alioth.Base.Word.{u16}
use alioth.Mem.Mapped.{Ram, Host, translate_iov}
use alioth.Virtio.Queue.Flag.{contains, next, indirect}
use alioth.Virtio.Queue.Memory.{Buffers, DescChain, finish}
use alioth.Virtio.Queue.Packed.{PackedQueue, Desc, QueueError, panicked, offset, desc_avail}
use alioth.Virtio.Queue.Packed.Avail.{walk, lift, get_avail, push_desc, Walked}

-- `n` descriptors from `o` on make a chain: all but the last have NEXT, and `id` is the last one's.
pub data Chain (q : PackedQueue) : ℕ → ℕ → ℕ → Type 0 where
  final :
      {o n id : ℕ} (d : Desc)
      → get_elem? q.desc o ≡ some d
      → contains d.flag next ≡ false
      → n ≡ 1
      → id ≡ d.id
      → Chain q o n id
  more :
      {o n id : ℕ} (d : Desc) (k : ℕ)
      → get_elem? q.desc o ≡ some d
      → contains d.flag next ≡ true
      → n ≡ suc k
      → Chain q (u16 (o + 1) % q.size) k id
      → Chain q o n id

-- What the walk does at one descriptor, once its buffers are collected.
walk_final :
    (fuel : ℕ) (q : PackedQueue) (m : Ram) (h : Host) (o delta : ℕ) (b b' : Buffers) (d : Desc)
    → get_elem? q.desc o ≡ some d
    → push_desc m h d b ≡ some (ok b')
    → contains d.flag next ≡ false
    → walk (suc fuel) q m h o delta b
      ≡ some (ok (record { id = d.id; delta = u16 (delta + 1); buffers = b' }))
unfolding walk
walk_final fuel q m h o delta b b' d e p c = rw (e, walk) (rw p (rw c))

walk_more :
    (fuel : ℕ) (q : PackedQueue) (m : Ram) (h : Host) (o delta : ℕ) (b b' : Buffers) (d : Desc)
    → get_elem? q.desc o ≡ some d
    → push_desc m h d b ≡ some (ok b')
    → contains d.flag next ≡ true
    → (q.size == 0) ≡ false
    → walk (suc fuel) q m h o delta b ≡ walk fuel q m h (u16 (o + 1) % q.size) (u16 (delta + 1)) b'
unfolding walk
walk_more fuel q m h o delta b b' d e p c z = rw (e, walk) (rw p (rw c (rw z)))

-- A division by the size 0 ends it.
walk_zero :
    (fuel : ℕ) (q : PackedQueue) (m : Ram) (h : Host) (o delta : ℕ) (b b' : Buffers) (d : Desc)
    → get_elem? q.desc o ≡ some d
    → push_desc m h d b ≡ some (ok b')
    → contains d.flag next ≡ true
    → (q.size == 0) ≡ true
    → walk (suc fuel) q m h o delta b ≡ some (err panicked)
unfolding walk
walk_zero fuel q m h o delta b b' d e p c z = rw (e, walk) (rw p (rw c (rw z)))

-- A walk that ends well went over a descriptor whose buffers it collected.
walk_first :
    (fuel : ℕ) (q : PackedQueue) (m : Ram) (h : Host) (o delta : ℕ) (b : Buffers) (w : Walked)
    → walk (suc fuel) q m h o delta b ≡ some (ok w)
    → (d : Desc) × (b' : Buffers) × (get_elem? q.desc o ≡ some d)
      × (push_desc m h d b ≡ some (ok b'))
unfolding walk
walk_first fuel q m h o delta b w e = elim (Option-cases (get_elem? q.desc o)) [
  | inl out ↦ absurd (ground arith)
  | inr (d, at) ↦ elim (Option-cases (push_desc m h d b)) [
    | inl stuck ↦ absurd (ground arith)
    | inr (r, p) ↦ elim (Result-cases r) [
      | inl (f, bad) ↦ absurd (ground arith)
      | inr (b', good) ↦ (d, b', at, ground arith)
    ]
  ]
]

out_inj :
    (v w : Walked) → ◌≡◌ {A = Option (Result QueueError Walked)} (some (ok v)) (some (ok w)) → v ≡ w
out_inj v w e = cc

walk-Chain :
    (fuel : ℕ) (q : PackedQueue) (m : Ram) (h : Host) (o delta : ℕ) (b : Buffers) (w : Walked)
    → walk fuel q m h o delta b ≡ some (ok w)
    → (n : ℕ) × Chain q o n w.id × (w.delta ≡ u16 (delta + n))
unfolding walk
walk-Chain zero q m h o delta b w e = absurd (ground arith)
walk-Chain (suc fuel) q m h o delta b w e =
    let (d, b', at, p) = walk_first fuel q m h o delta b w e in
    elim (Bool-cases (contains d.flag next)) [
      | inl goes_on ↦ elim (Bool-cases (q.size == 0)) [
        | inl z ↦ absurd (ground (arith, walk_zero fuel q m h o delta b b' d at p goes_on z))
        | inr z ↦
            let step = walk_more fuel q m h o delta b b' d at p goes_on z in
            let (k, c, total) =
              walk-Chain fuel q m h (u16 (o + 1) % q.size) (u16 (delta + 1)) b' w (sym step ∙ e) in
            (suc k, more d k at goes_on refl c, omega arith)
      ]
      | inr ends ↦
          let step = walk_final fuel q m h o delta b b' d at p ends in
          let same = out_inj _ _ (sym step ∙ e) in
          (
            1,
            final d at ends refl (ap (λ (x : Walked). x.id) (sym same)),
            ap (λ (x : Walked). x.delta) (sym same),
          )
    ]

chain_inj :
    (a b : DescChain)
    → ◌≡◌ {A = Option (Result QueueError (Option DescChain))}
        (some (ok (some a)))
        (some (ok (some b)))
    → a ≡ b
chain_inj a b e = cc

finish_lem :
    (m : Ram) (id delta : ℕ) (b : Buffers) (c : DescChain)
    → lift (finish m id delta b) ≡ some (ok (some c))
    → (c.id ≡ id) × (c.delta ≡ delta)
unfolding finish
finish_lem m id delta b c e = elim (Option-cases (translate_iov m b.readable)) [
  | inl out ↦ absurd (ground arith)
  | inr (r, p) ↦ elim (Result-cases r) [
    | inl (f, bad) ↦ absurd (ground arith)
    | inr (rs, good) ↦ elim (Option-cases (translate_iov m b.writable)) [
      | inl out ↦ absurd (ground arith)
      | inr (r', p') ↦ elim (Result-cases r') [
        | inl (f, bad) ↦ absurd (ground arith)
        | inr (ws, good') ↦
            let same =
              chain_inj (record { id = id; delta = delta; readable = rs; writable = ws }) c
                (ground arith) in
            (ap (λ (x : DescChain). x.id) (sym same), ap (λ (x : DescChain). x.delta) (sym same))
      ]
    ]
  ]
]

-- A chain that `get_avail` gives is available, and made of `delta` descriptors from the index on:
-- all but the last have NEXT, and the chain's id is that of the last.
pub get_avail-Chain :
    (fuel : ℕ) (q : PackedQueue) (m : Ram) (h : Host) (index : ℕ) (c : DescChain)
    → get_avail fuel q m h index ≡ some (ok (some c))
    → (desc_avail q index ≡ true) × ((n : ℕ) × Chain q (offset index) n c.id × (c.delta ≡ u16 n))
unfolding get_avail
get_avail-Chain fuel q m h index c e = elim (Bool-cases (desc_avail q index)) [
  | inr off ↦ absurd (ground arith)
  | inl on ↦
      elim (Option-cases
        (walk fuel q m h (offset index) 0 (record { readable = []; writable = [] }))) [
          | inl out ↦ absurd (ground arith)
          | inr (r, p) ↦ elim (Result-cases r) [
            | inl (f, bad) ↦ absurd (ground arith)
            | inr (w, good) ↦
                let (n, chain, total) =
                  walk-Chain fuel q m h (offset index) 0 (record { readable = []; writable = [] }) w
                    (ground arith) in
                let (same, count) = finish_lem m w.id w.delta w.buffers c (ground arith) in
                (on, (n, rw same chain, ground arith))
          ]
        ]
]

-- Every descriptor of the ring has NEXT, and none is INDIRECT.
abbrev pub AllNext : List Desc → Type 0
AllNext [] = Unit
AllNext (d ∷ ds) = (contains d.flag next ≡ true) × (contains d.flag indirect ≡ false) × AllNext ds
