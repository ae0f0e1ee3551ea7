-- ===== src/Mem/Addressable/Remove.antt =====
-- `remove` of addressable.rs.
use alioth.Base.{
  ℕ, zero, suc, ◌+◌, ◌-◌, ◌≡◌, sym, ap, ◌∙◌, ◌&&◌, List, [], ◌∷◌, none, some, ltb, leb,
  if◌then◌else◌, arith, inl, inr, ok, err, get_elem?, Option-cases, ◌≢◌, ◌↔◌,
}
use alioth.Mem.Error.{not_mapped}
use alioth.Mem.Addressable.{
  SlotBackend, Slot, Addressable, size, Found-cases, hit, miss, add, remove, search, remove_at,
  binary_search,
}
use alioth.Mem.Addressable.Owner.{
  get-above, owner_get, hit-addr, Sorted, IsValid, owner, owner_below, Sorted-mono,
}
use alioth.Mem.Addressable.Search.{search-owner}
use alioth.Mem.Addressable.Gap.{refind-insert_at}
use alioth.Mem.Addressable.Add.{slot, add-gap}

module _ {B : Type 0} ⦃sb : SlotBackend B⦄ where
  remove_at-Sorted :
      (lo : ℕ) (ss : List (Slot B)) (i : ℕ) → Sorted lo ss → Sorted lo (remove_at ss i)
  unfolding remove_at
  remove_at-Sorted lo [] i v = tt
  remove_at-Sorted lo (t ∷ ss) zero v =
      Sorted-mono {lo = lo} {hi = t.addr + size t.backend} ss (omega arith) v.3
  remove_at-Sorted lo (t ∷ ss) (suc i) v =
      (v.0, v.1, v.2, remove_at-Sorted (t.addr + size t.backend) ss i v.3)

  owner-remove_at :
      (lo : ℕ) (ss : List (Slot B)) (s : Slot B) (i a : ℕ)
      → Sorted lo ss
      → get_elem? ss i ≡ some s
      → owner (remove_at ss i) a
        ≡ (if leb s.addr a && ltb a (s.addr + size s.backend) then none else owner ss a)
  unfolding remove_at owner
  owner-remove_at lo [] s i a v g = ground arith
  owner-remove_at lo (t ∷ ss) s zero a v g =
      ground (arith, owner_below (t.addr + size t.backend) ss a)
  owner-remove_at lo (t ∷ ss) s (suc i) a v g = ground (
    arith,
    owner-remove_at (t.addr + size t.backend) ss s i a,
    get-above (t.addr + size t.backend) ss s i,
  )

  hit-get : (ss : List (Slot B)) (a i : ℕ) → binary_search ss a ≡ hit i → get_elem? ss i ≢ none
  unfolding binary_search
  hit-get [] a i e = ground arith
  hit-get (t ∷ ss) a zero e = ground arith
  hit-get (t ∷ ss) a (suc i) e = ground (arith, hit-get ss a i)

  owner-binary_search :
      (lo : ℕ) (ss : List (Slot B)) (a i : ℕ) (b : B)
      → Sorted lo ss
      → binary_search ss a ≡ miss i
      → owner ss a ≢ some (a, b)
  unfolding binary_search owner
  owner-binary_search lo [] a i b v e = ground arith
  owner-binary_search lo (t ∷ ss) a i b v e = ground (
    arith,
    owner-binary_search (t.addr + size t.backend) ss a (i - 1) b,
    owner_below (t.addr + size t.backend) ss a,
  )

  hit-slot :
      (m : Addressable B) (addr i : ℕ)
      → binary_search m.slots addr ≡ hit i
      → (b : B) × (get_elem? m.slots i ≡ some (slot addr b))
        × (remove m addr ≡ ok (record { slots = remove_at m.slots i }, b))
  unfolding remove
  hit-slot m addr i h = elim (Option-cases (get_elem? m.slots i)) [
    | inl out ↦ absurd (hit-get m.slots addr i h out)
    | inr (s, g) ↦ let e = hit-addr m.slots s addr i h g in (s.backend, ground arith, ground arith)
  ]

  miss-slot :
      (m : Addressable B) (addr i : ℕ)
      → binary_search m.slots addr ≡ miss i
      → remove m addr ≡ err (not_mapped addr)
  unfolding remove
  miss-slot m addr i h = ground arith

  remove-hit :
      (m : Addressable B) (addr : ℕ) (b : B) {m' : Addressable B}
      → remove m addr ≡ ok (m', b)
      → (i : ℕ) × (get_elem? m.slots i ≡ some (slot addr b))
        × (m' ≡ record { slots = remove_at m.slots i })
  remove-hit m addr b e = elim (Found-cases (binary_search m.slots addr)) [
    | inl (i, h) ↦ let (c, g, r) = hit-slot m addr i h in (i, ground arith, ground arith)
    | inr (i, h) ↦ absurd (ground (arith, miss-slot m addr i))
  ]

  -- `remove` takes out the backend at exactly that start address: the vector stays valid, the
  -- addresses that led to the backend lead nowhere, and all others lead where they led.
  pub remove_lem :
      (m : Addressable B) (addr a : ℕ) (b : B) {m' : Addressable B}
      → IsValid m
      → remove m addr ≡ ok (m', b)
      → IsValid m'
        × (search m addr ≡ some (addr, b))
        × (search m' a ≡ (if leb addr a && ltb a (addr + size b) then none else search m a))
  remove_lem m addr a b v e =
      let (i, g, q) = remove-hit m addr b e in
      let kept = remove_at-Sorted 0 m.slots i v in
      (
        rw q kept,
        search-owner 0 m.slots addr v ∙ owner_get 0 m.slots (slot addr b) i v g,
        rw q (
            search-owner 0 (remove_at m.slots i) a kept
            ∙ owner-remove_at 0 m.slots (slot addr b) i a v g
            ∙ ap (λ r. if leb addr a && ltb a (addr + size b) then none else r)
                (sym (search-owner 0 m.slots a v))),
      )

  -- `remove` fails with `NotMapped` exactly if no slot starts at the address.
  remove_err_iff :
      (m : Addressable B) (addr : ℕ)
      → IsValid m
      → (remove m addr ≡ err (not_mapped addr)) ↔ ((b : B) → search m addr ≢ some (addr, b))
  remove_err_iff m addr v = elim (Found-cases (binary_search m.slots addr)) [
    | inl (i, h) ↦
        let (c, g, r) = hit-slot m addr i h in
        let found = search-owner 0 m.slots addr v ∙ owner_get 0 m.slots (slot addr c) i v g in
        (λ e. absurd (ground arith), λ f. absurd (f c found))
    | inr (i, h) ↦ (
      λ _ b f. owner-binary_search 0 m.slots addr i b v h (sym (search-owner 0 m.slots addr v) ∙ f),
      λ _. miss-slot m addr i h,
    )
  ]

  -- What `add` put in, `remove` takes out, and leaves the vector as it was.
  remove-add :
      (m : Addressable B) (addr : ℕ) (b : B) {m' : Addressable B}
      → IsValid m
      → add m addr b ≡ ok m'
      → remove m' addr ≡ ok (m, b)
  unfolding remove
  remove-add m addr b v e =
      let (i, fit, p, k, q) = add-gap m addr b v e in
      rw q (ground (arith, refind-insert_at 0 m.slots (slot addr b) i v p fit))
