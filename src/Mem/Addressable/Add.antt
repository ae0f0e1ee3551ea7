-- ===== src/Mem/Addressable/Add.antt =====
-- `add` of addressable.rs.
use alioth.Base.{
  ℕ, zero, suc, ◌+◌, ◌-◌, ◌^◌, ◌≤◌, ◌<◌, ◌≡◌, refl, sym, ap, ◌∙◌, ◌&&◌, List, some, ltb, leb,
  Bool-cases, ◌==◌, if◌then◌else◌, arith, ◌⊎◌, inl, inr, ok, err, get_elem?, Option-cases,
  Result-cases, ◌↔◌,
}
use alioth.Mem.Error.{Error, zero_sized_slot, exceeds_limit, overlap}
use alioth.Mem.Addressable.{
  SlotBackend, Slot, Addressable, size, entry, Found, hit, miss, add, search, place, overlapped,
  insert_at, insert_slot, new_slot, binary_search, max_addr,
}
use alioth.Mem.Addressable.Owner.{
  owner_get, hit-addr, miss_next, miss_previous, IsValid, owner, Apart,
}
use alioth.Mem.Addressable.Search.{search-owner}
use alioth.Mem.Addressable.Gap.{
  gap, placed-gap, gap-Apart, Apart-gap, Sorted-insert_at, owner-insert_at,
}

module _ {B : Type 0} ⦃sb : SlotBackend B⦄ where
  abbrev pub slot : ℕ → B → Slot B
  slot addr b = record { addr = addr; backend = b }

  -- `add` succeeds only where the slot fits the address space and a gap, and puts it in that gap.
  pub add-gap :
      (m : Addressable B) (addr : ℕ) (b : B) {m' : Addressable B}
      → IsValid m
      → add m addr b ≡ ok m'
      → (i : ℕ) × (gap m.slots (slot addr b) ≡ some i)
        × (0 < size b)
        × (addr + size b ≤ 2 ^ 64)
        × (m' ≡ record { slots = insert_at m.slots i (slot addr b) })
  unfolding add insert_slot new_slot
  add-gap m addr b v e = elim (Option-cases (gap m.slots (slot addr b))) [
    | inl full ↦ absurd (ground (arith, placed-gap 0 m.slots (slot addr b) v))
    | inr (i, fit) ↦ (
      i,
      fit,
      ground (arith, placed-gap 0 m.slots (slot addr b) v),
      ground (arith, placed-gap 0 m.slots (slot addr b) v),
      ground (arith, placed-gap 0 m.slots (slot addr b) v),
    )
  ]

  add_fits :
      (m : Addressable B) (addr : ℕ) (b : B)
      → IsValid m
      → 0 < size b
      → addr + size b ≤ 2 ^ 64
      → Apart (slot addr b) m.slots
      → (m' : Addressable B) × (add m addr b ≡ ok m')
  unfolding add insert_slot new_slot
  add_fits m addr b v p k a = elim (Option-cases (gap m.slots (slot addr b))) [
    | inl full ↦ absurd (Apart-gap 0 m.slots (slot addr b) a full)
    | inr (i, fit) ↦ (
      record { slots = insert_at m.slots i (slot addr b) },
      ground (arith, placed-gap 0 m.slots (slot addr b) v),
    )
  ]

  -- `add` keeps the vector sorted, its ranges disjoint, not empty and within 64 bits.
  pub add-IsValid :
      (m : Addressable B) (addr : ℕ) (b : B) {m' : Addressable B}
      → IsValid m
      → add m addr b ≡ ok m'
      → IsValid m'
  add-IsValid m addr b v e =
      let (i, fit, p, k, q) = add-gap m addr b v e in
      rw q (Sorted-insert_at 0 m.slots (slot addr b) i v fit (omega arith) p k)

  -- `add` succeeds exactly if the backend is not empty, its range ends within the 64-bit space,
  -- and it shares no address with a slot.
  pub add_iff :
      (m : Addressable B) (addr : ℕ) (b : B)
      → IsValid m
      → ((m' : Addressable B) × (add m addr b ≡ ok m'))
        ↔ ((0 < size b) × (addr + size b ≤ 2 ^ 64) × Apart (slot addr b) m.slots)
  add_iff m addr b v = (there, back)
    where
      there :
          (m' : Addressable B) × (add m addr b ≡ ok m')
          → (0 < size b) × (addr + size b ≤ 2 ^ 64) × Apart (slot addr b) m.slots
      there (m', e) =
          let (i, fit, p, k, q) = add-gap m addr b v e in
          (p, k, gap-Apart 0 m.slots (slot addr b) i v fit)

      back :
          (0 < size b) × (addr + size b ≤ 2 ^ 64) × Apart (slot addr b) m.slots
          → (m' : Addressable B) × (add m addr b ≡ ok m')
      back (p, k, a) = add_fits m addr b v p k a

  -- After `add`, an address of the new range leads to the new backend, any other where it led.
  pub search-add :
      (m : Addressable B) (addr : ℕ) (b : B) (a : ℕ) {m' : Addressable B}
      → IsValid m
      → add m addr b ≡ ok m'
      → search m' a ≡ (if leb addr a && ltb a (addr + size b) then some (addr, b) else search m a)
  search-add m addr b a {m'} v e =
      let (i, fit, p, k, q) = add-gap m addr b v e in
      search-owner 0 m'.slots a (add-IsValid m addr b v e)
      ∙ ap (λ x. owner x.slots a) q
      ∙ owner-insert_at 0 m.slots (slot addr b) i a v fit
      ∙ ap (λ r. if leb addr a && ltb a (addr + size b) then some (addr, b) else r)
          (sym (search-owner 0 m.slots a v))

  -- What the error of `add` names: a slot, by its bounds, that meets the range of the new one.
  abbrev pub Collides : Addressable B → Slot B → Slot B → Type 0
  Collides m s c =
      (search m c.addr ≡ some (entry c)) × (c.addr ≤ max_addr s) × (s.addr ≤ max_addr c)

  get-Collides :
      (m : Addressable B) (s c : Slot B) (i : ℕ)
      → IsValid m
      → get_elem? m.slots i ≡ some c
      → c.addr ≤ max_addr s
      → s.addr ≤ max_addr c
      → Collides m s c
  get-Collides m s c i v g h k =
      (search-owner 0 m.slots c.addr v ∙ owner_get 0 m.slots c i v g, h, k)

  -- The two neighbours against which a slot that is not found is checked.
  neighbour :
      (ss : List (Slot B)) (s c : Slot B) (i : ℕ)
      → place ss (miss (suc i)) s ≡ err c
      → ((get_elem? ss (suc i) ≡ some c) × (c.addr ≤ max_addr s))
        ⊎ ((get_elem? ss i ≡ some c) × (s.addr ≤ max_addr c))
  unfolding place overlapped max_addr
  neighbour ss s c i p = ground arith

  place-Collides :
      (m : Addressable B) (s c : Slot B) (f : Found)
      → IsValid m
      → binary_search m.slots s.addr ≡ f
      → place m.slots f s ≡ err c
      → Collides m s c
  unfolding place overlapped max_addr
  place-Collides m s c (hit i) v e p =
      get-Collides m s c i v (ground arith) (ground (arith, hit-addr m.slots c s.addr i))
        (ground (arith, hit-addr m.slots c s.addr i))
  place-Collides m s c (miss zero) v e p =
      get-Collides m s c 0 v (ground arith) (ground arith)
        (ground (arith, miss_next m.slots c s.addr 0))
  place-Collides m s c (miss (suc i)) v e p = elim (neighbour m.slots s c i p) [
    | inl (g, h) ↦
        get-Collides m s c (suc i) v g h (ground (arith, miss_next m.slots c s.addr (suc i)))
    | inr (g, h) ↦ get-Collides m s c i v g (ground (arith, miss_previous m.slots c s.addr i)) h
  ]

  -- A failing `add` says why: an empty backend, a range that passes the end of the address space,
  -- or the bounds of the new range and of a slot of the vector that it meets.
  add_err :
      (m : Addressable B) (addr : ℕ) (b : B) (e : Error)
      → IsValid m
      → add m addr b ≡ err e
      → ((e ≡ zero_sized_slot) × (size b ≡ 0))
        ⊎ ((e ≡ exceeds_limit addr (size b)) × (2 ^ 64 < addr + size b))
        ⊎ ((c : Slot B) × (e ≡ overlap addr (addr + size b - 1) c.addr (max_addr c))
            × (search m c.addr ≡ some (entry c))
            × (c.addr ≤ addr + size b - 1)
            × (addr ≤ max_addr c))
  unfolding add insert_slot new_slot max_addr
  add_err m addr b e v r = elim (Bool-cases (size b == 0)) [
    | inl z ↦ inl (ground arith, ground arith)
    | inr z ↦ elim (Bool-cases (leb (2 ^ 64) (size b - 1 + addr))) [
      | inl far ↦ inr (inl (ground arith, ground arith))
      | inr near ↦ elim (Result-cases (place m.slots (binary_search m.slots addr) (slot addr b))) [
        | inl (c, q) ↦
            let (f, h, k) =
              place-Collides m (slot addr b) c (binary_search m.slots addr) v refl q in
            inr (inr (c, ground arith, f, ground arith, k))
        | inr (i, q) ↦ absurd (ground arith)
      ]
    ]
  ]
