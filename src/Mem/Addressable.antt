-- ===== src/Mem/Addressable.antt =====
-- alioth/src/mem/addressable.rs: backends at disjoint ranges of the 64-bit address space, in a
-- vector sorted by address.
pub mod Owner
pub mod Gap
pub mod Add
pub mod Remove
mod Tests
pub mod Search
use alioth.Base.{
  ℕ, zero, suc, ◌+◌, ◌-◌, ◌^◌, ◌≤◌, ◌<◌, compare, Ordering, ◌≡◌, refl, ◌⊎◌, inl, inr, Bool, ◌&&◌,
  List, [], ◌∷◌, map, Option, none, some, Result, ok, err, ◌>>=◌, ltb, leb, ◌==◌, if◌then◌else◌,
  get_elem?, last?,
}
use mathlib.Core.Option
use alioth.Mem.Error.{Error, zero_sized_slot, exceeds_limit, overlap, not_mapped}

-- `trait SlotBackend`.
pub record SlotBackend {ℓ} (B : Type ℓ) : Type ℓ where
  pub size : B → ℕ

abbrev pub size {ℓ} : {B : Type ℓ} ⦃sb : SlotBackend B⦄ → B → ℕ
size ⦃sb⦄ = sb.size

pub record Slot {ℓ} (B : Type ℓ) : Type ℓ where
  pub addr : ℕ
  pub backend : B

-- `slots: Vec<Slot<B>>`.
pub record Addressable {ℓ} (B : Type ℓ) : Type ℓ where
  pub slots : List (Slot B)

-- What `binary_search_by_key` returns: `Ok(index)` or `Err(index)`.
pub data Found : Type 0 where
  hit : ℕ → Found
  miss : ℕ → Found

pub Found-cases : (f : Found) → ((i : ℕ) × (f ≡ hit i)) ⊎ ((i : ℕ) × (f ≡ miss i))
Found-cases (hit i) = inl (i, refl)
Found-cases (miss i) = inr (i, refl)

abbrev pub shift : Found → Found
shift (hit i) = hit (suc i)
shift (miss i) = miss (suc i)

module _ {ℓ} {B : Type ℓ} where
  abbrev pub entry : Slot B → ℕ × B
  entry s = (s.addr, s.backend)

  -- `[T]::binary_search_by_key` at `|s| s.addr`, by its documented result on a sorted slice: the
  -- index of the slot with that address, or else the index where such a slot would go.
  pub binary_search : List (Slot B) → ℕ → Found
  binary_search [] a = miss 0
  binary_search (s ∷ ss) a = elim (compare s.addr a) [
    | Ordering.eq ↦ hit 0
    | Ordering.gt ↦ miss 0
    | Ordering.lt ↦ shift (binary_search ss a)
  ]

  -- `Vec::insert` and `Vec::remove`.
  pub insert_at : List (Slot B) → ℕ → Slot B → List (Slot B)
  insert_at ss zero s = s ∷ ss
  insert_at [] (suc i) s = s ∷ []
  insert_at (x ∷ ss) (suc i) s = x ∷ insert_at ss i s

  pub remove_at : List (Slot B) → ℕ → List (Slot B)
  remove_at [] i = []
  remove_at (x ∷ ss) zero = ss
  remove_at (x ∷ ss) (suc i) = x ∷ remove_at ss i

  unfoldable pub new : Addressable B
  new = record { slots = [] }

  unfoldable pub is_empty : Addressable B → Bool
  is_empty m = elim m.slots [ [] ↦ Bool.true | _ ↦ Bool.false ]

  unfoldable pub iter : Addressable B → List (ℕ × B)
  iter m = map entry m.slots

  unfoldable pub last : Addressable B → Option (ℕ × B)
  last m = Option.map entry (last? m.slots)

module _ {ℓ} {B : Type ℓ} ⦃sb : SlotBackend B⦄ where
  -- `Slot::new`; `checked_add` fails where the sum does not fit 64 bits.
  pub new_slot : ℕ → B → Result Error (Slot B)
  new_slot addr b =
      if size b == 0
      then err zero_sized_slot
      else if leb (2 ^ 64) (size b - 1 + addr)
      then err (exceeds_limit addr (size b))
      else ok (record { addr = addr; backend = b })

  pub max_addr : Slot B → ℕ
  max_addr s = size s.backend - 1 + s.addr

  -- The slots before and from `index` on against which `add` checks the new one. An index out of
  -- range, which would panic, reads as no slot here; `binary_search` returns none such.
  pub overlaps_previous : List (Slot B) → ℕ → Slot B → Option (Slot B)
  unfolding max_addr
  overlaps_previous ss zero s = none
  overlaps_previous ss (suc i) s = elim (get_elem? ss i) [
    | none ↦ none
    | some p ↦ if leb s.addr (max_addr p) then some p else none
  ]

  pub overlapped : List (Slot B) → ℕ → Slot B → Option (Slot B)
  unfolding overlaps_previous
  overlapped ss i s = elim (get_elem? ss i) [
    | none ↦ overlaps_previous ss i s
    | some n ↦ if leb n.addr (max_addr s) then some n else overlaps_previous ss i s
  ]

  -- `result` in `add`: the existing slot in the way, or the index to insert at.
  pub place : List (Slot B) → Found → Slot B → Result (Slot B) ℕ
  unfolding overlapped
  place ss (hit i) s = elim (get_elem? ss i) [ none ↦ ok i | some c ↦ err c ]
  place ss (miss i) s = elim (overlapped ss i s) [ none ↦ ok i | some c ↦ err c ]

  pub insert_slot : List (Slot B) → Slot B → Result Error (Addressable B)
  unfolding place binary_search insert_at
  insert_slot ss s = elim (place ss (binary_search ss s.addr) s) [
    | ok i ↦ ok (record { slots = insert_at ss i s })
    | err c ↦ err (overlap s.addr (max_addr s) c.addr (max_addr c))
  ]

  unfoldable pub add : Addressable B → ℕ → B → Result Error (Addressable B)
  unfolding new_slot insert_slot
  add m addr b = do s ← new_slot addr b; insert_slot m.slots s

  -- The new state and the backend taken out.
  unfoldable pub remove : Addressable B → ℕ → Result Error (Addressable B × B)
  unfolding binary_search remove_at
  remove m addr = elim (binary_search m.slots addr) [
    | miss i ↦ err (not_mapped addr)
    | hit i ↦ elim (get_elem? m.slots i) [
      | none ↦ err (not_mapped addr)
      | some s ↦ ok (record { slots = remove_at m.slots i }, s.backend)
    ]
  ]

  unfoldable pub search : Addressable B → ℕ → Option (ℕ × B)
  unfolding binary_search max_addr
  search m addr = elim (binary_search m.slots addr) [
    | hit i ↦ Option.map entry (get_elem? m.slots i)
    | miss zero ↦ none
    | miss (suc i) ↦ elim (get_elem? m.slots i) [
      | none ↦ none
      | some c ↦ if leb addr (max_addr c) then some (entry c) else none
    ]
  ]

  unfoldable pub search_next : Addressable B → ℕ → Option (ℕ × B)
  unfolding binary_search max_addr
  search_next m addr = elim (binary_search m.slots addr) [
    | hit i ↦ Option.map entry (get_elem? m.slots i)
    | miss zero ↦ none
    | miss (suc i) ↦ elim (get_elem? m.slots i) [
      | none ↦ none
      | some c ↦
          if leb addr (max_addr c)
          then some (entry c)
          else Option.map entry (get_elem? m.slots (suc i))
    ]
  ]
