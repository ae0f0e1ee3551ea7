-- ===== src/Mem/Addressable/Search.antt =====
-- `search` and `search_next` of addressable.rs against the function view.
use alioth.Base.{ℕ, ◌+◌, ◌≡◌, refl, List, [], ◌∷◌, none, if◌then◌else◌, arith}
use alioth.Mem.Addressable.{SlotBackend, Slot, Addressable, size, search, search_next}
use alioth.Mem.Addressable.Owner.{Sorted, IsValid, owner, owner_below, reaching, below_first}

module _ {B : Type 0} ⦃sb : SlotBackend B⦄ where
  abbrev wrap : List (Slot B) → Addressable B
  wrap ss = record { slots = ss }

  -- One slot further on, `search` is `search` in the rest unless it ends at this slot.
  pub search-owner :
      (lo : ℕ) (ss : List (Slot B)) (a : ℕ) → Sorted lo ss → search (wrap ss) a ≡ owner ss a
  unfolding search owner
  search-owner lo [] a v = refl
  search-owner lo (s ∷ []) a v = ground arith
  search-owner lo (s ∷ t ∷ ss) a v = ground (
    arith,
    search-owner (s.addr + size s.backend) (t ∷ ss) a,
    owner_below (s.addr + size s.backend) (t ∷ ss) a,
  )

  pub search_next-reaching :
      (lo : ℕ) (ss : List (Slot B)) (a : ℕ)
      → Sorted lo ss
      → search_next (wrap ss) a ≡ (if below_first ss a then none else reaching ss a)
  unfolding search_next reaching below_first
  search_next-reaching lo [] a v = refl
  search_next-reaching lo (s ∷ []) a v = ground arith
  search_next-reaching lo (s ∷ t ∷ ss) a v =
      ground (arith, search_next-reaching (s.addr + size s.backend) (t ∷ ss) a)

  -- `search` finds the backend whose range holds the address, and nothing elsewhere.
  pub search-eq-owner : (m : Addressable B) (a : ℕ) → IsValid m → search m a ≡ owner m.slots a
  search-eq-owner m a v = search-owner 0 m.slots a v

  -- `search_next` finds the first slot that ends after the address, but nothing where the address
  -- lies below every slot.
  pub search_next-eq-reaching :
      (m : Addressable B) (a : ℕ)
      → IsValid m
      → search_next m a ≡ (if below_first m.slots a then none else reaching m.slots a)
  search_next-eq-reaching m a v = search_next-reaching 0 m.slots a v
