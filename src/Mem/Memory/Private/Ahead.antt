-- ===== src/Mem/Memory/Private/Ahead.antt =====
-- `search_next` on valid slots moves on: fewer of them end after the one it found.
use alioth.Base.{
  ℕ, ◌+◌, ◌^◌, ◌<◌, ◌≤◌, ◌≡◌, List, [], ◌∷◌, some, ltb, if◌then◌else◌, arith, length, inl, inr,
  Bool-cases,
}
use alioth.Mem.Addressable.{SlotBackend, Slot, Addressable, size, search_next}
use alioth.Mem.Addressable.Owner.{Sorted, IsValid, reaching}
use alioth.Mem.Addressable.Search.{search_next-eq-reaching}
use alioth.Mem.Memory.{region_backend}

module _ {B : Type 0} ⦃sb : SlotBackend B⦄ where
  -- The slots that end after an address.
  abbrev pub ahead : List (Slot B) → ℕ → ℕ
  ahead [] a = 0
  ahead (s ∷ ss) a = (if ltb a (s.addr + size s.backend) then 1 else 0) + ahead ss a

  pub ahead-le-length : (ss : List (Slot B)) (a : ℕ) → ahead ss a ≤ length ss
  ahead-le-length [] a = omega arith
  ahead-le-length (s ∷ ss) a = ground (arith, ahead-le-length ss a)

  ahead_mono : (ss : List (Slot B)) (a b : ℕ) → a ≤ b → ahead ss b ≤ ahead ss a
  ahead_mono [] a b h = omega arith
  ahead_mono (s ∷ ss) a b h = ground (arith, ahead_mono ss a b)

  reaching-ahead :
      (lo : ℕ) (ss : List (Slot B)) (a start : ℕ) (b : B)
      → Sorted lo ss
      → reaching ss a ≡ some (start, b)
      → (a < start + size b) × (start + size b ≤ 2 ^ 64) × (ahead ss (start + size b) < ahead ss a)
  unfolding reaching
  reaching-ahead lo [] a start b v e = absurd (ground arith)
  reaching-ahead lo (s ∷ ss) a start b v e = elim (Bool-cases (ltb a (s.addr + size s.backend))) [
    | inl y ↦ ground (arith, ahead_mono ss a (s.addr + size s.backend))
    | inr n ↦ ground (arith, reaching-ahead (s.addr + size s.backend) ss a start b v.3)
  ]

module _ {B : Type 0} ⦃sb : SlotBackend B⦄ where
  -- Every slot ends below the end of the address space.
  abbrev pub Inside : List (Slot B) → Type 0
  Inside [] = Unit
  Inside (s ∷ ss) = (s.addr + size s.backend < 2 ^ 64) × Inside ss

  reaching-Inside :
      (ss : List (Slot B)) (a start : ℕ) (b : B)
      → Inside ss
      → reaching ss a ≡ some (start, b)
      → start + size b < 2 ^ 64
  unfolding reaching
  reaching-Inside [] a start b i e = absurd (ground arith)
  reaching-Inside (s ∷ ss) a start b i e = ground (arith, reaching-Inside ss a start b)

  pub next-ahead :
      (m : Addressable B) (a start : ℕ) (b : B)
      → Inside m.slots
      → IsValid m
      → search_next m a ≡ some (start, b)
      → (a < start + size b)
        × (start + size b < 2 ^ 64)
        × (ahead m.slots (start + size b) < ahead m.slots a)
  next-ahead m a start b i v e =
      let r : reaching m.slots a ≡ some (start, b) =
        ground (arith, search_next-eq-reaching m a v) in
      let (later, _, fewer) = reaching-ahead 0 m.slots a start b v r in
      (later, reaching-Inside m.slots a start b i r, fewer)
