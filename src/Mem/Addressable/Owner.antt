-- ===== src/Mem/Addressable/Owner.antt =====
-- The address space as a function: which backend serves an address.
use alioth.Base.{
  ℕ, zero, suc, ◌+◌, ◌^◌, ◌≤◌, ◌<◌, ◌≡◌, refl, ◌&&◌, List, [], ◌∷◌, Option, none, some, ltb, leb,
  get_elem?, if◌then◌else◌, arith, Bool, true, ◌⊎◌,
}
use alioth.Mem.Addressable.{SlotBackend, Slot, Addressable, size, entry, hit, miss, binary_search}

module _ {B : Type 0} ⦃sb : SlotBackend B⦄ where
  -- From `lo` on, the ranges follow one another, are not empty, and end within the address space.
  abbrev pub Sorted : ℕ → List (Slot B) → Type 0
  Sorted lo [] = Unit
  Sorted lo (s ∷ ss) =
      (lo ≤ s.addr)
      × (0 < size s.backend)
      × (s.addr + size s.backend ≤ 2 ^ 64)
      × Sorted (s.addr + size s.backend) ss

  abbrev pub IsValid : Addressable B → Type 0
  IsValid m = Sorted 0 m.slots

  -- The backend whose range holds `a`, with the start of that range.
  unfoldable pub owner : List (Slot B) → ℕ → Option (ℕ × B)
  owner [] a = none
  owner (s ∷ ss) a =
      if leb s.addr a && ltb a (s.addr + size s.backend) then some (entry s) else owner ss a

  pub owner_below :
      (lo : ℕ) (ss : List (Slot B)) (a : ℕ) → Sorted lo ss → a < lo → owner ss a ≡ none
  unfolding owner
  owner_below lo [] a v h = refl
  owner_below lo (s ∷ ss) a v h = ground (arith, owner_below (s.addr + size s.backend) ss a)

  -- A valid suffix may be read from any lower bound.
  pub Sorted-mono : {lo hi : ℕ} (ss : List (Slot B)) → lo ≤ hi → Sorted hi ss → Sorted lo ss
  Sorted-mono [] h v = tt
  Sorted-mono (s ∷ ss) h v = (omega arith, v.1, v.2, v.3)

  -- The first slot that ends after `a`: the one that holds `a`, or else the next one up.
  unfoldable pub reaching : List (Slot B) → ℕ → Option (ℕ × B)
  reaching [] a = none
  reaching (s ∷ ss) a = if ltb a (s.addr + size s.backend) then some (entry s) else reaching ss a

  -- `a` lies below every slot.
  unfoldable pub below_first : List (Slot B) → ℕ → Bool
  below_first [] a = true
  below_first (s ∷ ss) a = ltb a s.addr

  -- `s` shares no address with any slot.
  abbrev pub Apart : Slot B → List (Slot B) → Type 0
  Apart s [] = Unit
  Apart s (t ∷ ss) =
      ((s.addr + size s.backend ≤ t.addr) ⊎ (t.addr + size t.backend ≤ s.addr)) × Apart s ss

  pub get-above :
      (lo : ℕ) (ss : List (Slot B)) (s : Slot B) (i : ℕ)
      → Sorted lo ss
      → get_elem? ss i ≡ some s
      → (lo ≤ s.addr) × (0 < size s.backend)
  get-above lo [] s i v g = ground arith
  get-above lo (t ∷ ss) s zero v g = ground arith
  get-above lo (t ∷ ss) s (suc i) v g = ground (arith, get-above (t.addr + size t.backend) ss s i)

  pub owner_get :
      (lo : ℕ) (ss : List (Slot B)) (s : Slot B) (i : ℕ)
      → Sorted lo ss
      → get_elem? ss i ≡ some s
      → owner ss s.addr ≡ some (entry s)
  unfolding owner
  owner_get lo [] s i v g = ground arith
  owner_get lo (t ∷ ss) s zero v g = ground arith
  owner_get lo (t ∷ ss) s (suc i) v g = ground (
    arith,
    owner_get (t.addr + size t.backend) ss s i,
    get-above (t.addr + size t.backend) ss s i,
  )

  -- A hit is at a slot with the address that was looked for, and a slot's address is hit.
  pub hit-addr :
      (ss : List (Slot B)) (s : Slot B) (a i : ℕ)
      → binary_search ss a ≡ hit i
      → get_elem? ss i ≡ some s
      → s.addr ≡ a
  unfolding binary_search
  hit-addr [] s a i e g = ground arith
  hit-addr (t ∷ ss) s a zero e g = ground (arith)
  hit-addr (t ∷ ss) s a (suc i) e g = ground (arith, hit-addr ss s a i)

  -- A miss is at the boundary between the smaller and the greater addresses.
  pub miss_next :
      (ss : List (Slot B)) (c : Slot B) (a i : ℕ)
      → binary_search ss a ≡ miss i
      → get_elem? ss i ≡ some c
      → a < c.addr
  unfolding binary_search
  miss_next [] c a i e g = ground arith
  miss_next (t ∷ ss) c a zero e g = ground arith
  miss_next (t ∷ ss) c a (suc i) e g = ground (arith, miss_next ss c a i)

  pub miss_previous :
      (ss : List (Slot B)) (c : Slot B) (a i : ℕ)
      → binary_search ss a ≡ miss (suc i)
      → get_elem? ss i ≡ some c
      → c.addr < a
  unfolding binary_search
  miss_previous [] c a i e g = ground arith
  miss_previous (t ∷ ss) c a zero e g = ground arith
  miss_previous (t ∷ ss) c a (suc i) e g = ground (arith, miss_previous ss c a i)

  -- The backend that serves an address serves its whole range.
  pub owner_range :
      (lo : ℕ) (ss : List (Slot B)) (a start : ℕ) (b : B)
      → Sorted lo ss
      → owner ss a ≡ some (start, b)
      → (lo ≤ start) × (start ≤ a) × (a < start + size b) × (start + size b ≤ 2 ^ 64)
  unfolding owner
  owner_range lo [] a start b v e = ground arith
  owner_range lo (s ∷ ss) a start b v e =
      ground (arith, owner_range (s.addr + size s.backend) ss a start b)

  pub owner_same :
      (lo : ℕ) (ss : List (Slot B)) (a a' start : ℕ) (b : B)
      → Sorted lo ss
      → owner ss a ≡ some (start, b)
      → start ≤ a'
      → a' < start + size b
      → owner ss a' ≡ some (start, b)
  unfolding owner
  owner_same lo [] a a' start b v e h k = ground arith
  owner_same lo (s ∷ ss) a a' start b v e h k = ground (
    arith,
    owner_same (s.addr + size s.backend) ss a a' start b,
    owner_range (s.addr + size s.backend) ss a start b,
  )
