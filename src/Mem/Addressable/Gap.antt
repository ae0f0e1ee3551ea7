-- ===== src/Mem/Addressable/Gap.antt =====
-- Where `add` of addressable.rs puts a slot: its binary search against one pass over the slots.
use alioth.Base.{
  ℕ, suc, ◌+◌, ◌-◌, ◌^◌, ◌≤◌, ◌<◌, ◌≡◌, refl, ◌&&◌, List, [], ◌∷◌, Option, none, some, ltb, leb,
  if◌then◌else◌, arith, inl, Result, ◌≢◌, ok, err, get_elem?,
}
use mathlib.Core.Option
use alioth.Mem.Addressable.{
  SlotBackend, Slot, size, entry, hit, place, insert_at, remove_at, entry, binary_search,
}
use alioth.Mem.Addressable.Owner.{Sorted, owner, Apart}

module _ {B : Type 0} ⦃sb : SlotBackend B⦄ where
  abbrev pub to_option : Result (Slot B) ℕ → Option ℕ
  to_option (ok i) = some i
  to_option (err c) = none

  -- The index where `s` fits between its neighbours, by one pass over the slots.
  pub gap : List (Slot B) → Slot B → Option ℕ
  gap [] s = some 0
  gap (t ∷ ss) s =
      if leb (s.addr + size s.backend) t.addr
      then some 0
      else if leb (t.addr + size t.backend) s.addr
      then Option.map suc (gap ss s)
      else none

  abbrev pub placed : List (Slot B) → Slot B → Option ℕ
  placed ss s = to_option (place ss (binary_search ss s.addr) s)

  placed-gap_step :
      (t u : Slot B) (ss : List (Slot B)) (s : Slot B)
      → t.addr + size t.backend ≤ u.addr
      → 0 < size t.backend
      → 0 < size u.backend
      → 0 < size s.backend
      → placed (u ∷ ss) s ≡ gap (u ∷ ss) s
      → placed (t ∷ u ∷ ss) s ≡ gap (t ∷ u ∷ ss) s
  unfolding place binary_search gap
  placed-gap_step t u ss s h pt pu ps ih = ground arith

  pub placed-gap :
      (lo : ℕ) (ss : List (Slot B)) (s : Slot B)
      → Sorted lo ss
      → 0 < size s.backend
      → placed ss s ≡ gap ss s
  unfolding place binary_search gap
  placed-gap lo [] s v p = refl
  placed-gap lo (t ∷ []) s v p = ground arith
  placed-gap lo (t ∷ u ∷ ss) s v p =
      placed-gap_step t u ss s v.3.0 v.1 v.3.1 p
        (placed-gap (t.addr + size t.backend) (u ∷ ss) s v.3 p)

  Apart-above :
      (lo : ℕ) (ss : List (Slot B)) (s : Slot B)
      → Sorted lo ss
      → s.addr + size s.backend ≤ lo
      → Apart s ss
  Apart-above lo [] s v h = tt
  Apart-above lo (t ∷ ss) s v h =
      (inl (omega arith), Apart-above (t.addr + size t.backend) ss s v.3 (omega arith))

  pub gap-Apart :
      (lo : ℕ) (ss : List (Slot B)) (s : Slot B) (i : ℕ)
      → Sorted lo ss
      → gap ss s ≡ some i
      → Apart s ss
  unfolding gap
  gap-Apart lo [] s i v e = tt
  gap-Apart lo (t ∷ ss) s i v e = ground (
    arith,
    Apart-above (t.addr + size t.backend) ss s,
    gap-Apart (t.addr + size t.backend) ss s (i - 1),
  )

  pub Apart-gap : (lo : ℕ) (ss : List (Slot B)) (s : Slot B) → Apart s ss → gap ss s ≢ none
  unfolding gap
  Apart-gap lo [] s a = ground arith
  Apart-gap lo (t ∷ ss) s a = ground (arith, Apart-gap lo ss s)

  pub Sorted-insert_at :
      (lo : ℕ) (ss : List (Slot B)) (s : Slot B) (i : ℕ)
      → Sorted lo ss
      → gap ss s ≡ some i
      → lo ≤ s.addr
      → 0 < size s.backend
      → s.addr + size s.backend ≤ 2 ^ 64
      → Sorted lo (insert_at ss i s)
  unfolding gap insert_at
  Sorted-insert_at lo [] s i v e h p k = ground arith
  Sorted-insert_at lo (t ∷ ss) s i v e h p k =
      ground (arith, Sorted-insert_at (t.addr + size t.backend) ss s (i - 1))

  pub owner-insert_at :
      (lo : ℕ) (ss : List (Slot B)) (s : Slot B) (i a : ℕ)
      → Sorted lo ss
      → gap ss s ≡ some i
      → owner (insert_at ss i s) a
        ≡ (if leb s.addr a && ltb a (s.addr + size s.backend) then some (entry s) else owner ss a)
  unfolding gap insert_at owner
  owner-insert_at lo [] s i a v e = ground arith
  owner-insert_at lo (t ∷ ss) s i a v e =
      ground (arith, owner-insert_at (t.addr + size t.backend) ss s (i - 1) a)

  -- The new slot is found again, at its index.
  pub refind-insert_at :
      (lo : ℕ) (ss : List (Slot B)) (s : Slot B) (i : ℕ)
      → Sorted lo ss
      → 0 < size s.backend
      → gap ss s ≡ some i
      → (binary_search (insert_at ss i s) s.addr ≡ hit i)
        × (get_elem? (insert_at ss i s) i ≡ some s)
        × (remove_at (insert_at ss i s) i ≡ ss)
  unfolding gap insert_at binary_search remove_at
  refind-insert_at lo [] s i v p e = ground arith
  refind-insert_at lo (t ∷ ss) s i v p e =
      ground (arith, refind-insert_at (t.addr + size t.backend) ss s (i - 1))
