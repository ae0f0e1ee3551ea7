-- ===== src/Pci/Segment/Assign/Masks.antt =====
-- The masks of the registers that `assign_resources` of segment.rs writes addresses to.
use alioth.Base.{
  ℕ, ◌+◌, ◌^◌, ◌≤◌, ◌≡◌, Bool, true, false, List, [], ◌∷◌, if◌then◌else◌, arith, inl, inr, ◌-◌, ◌⊎◌,
  min, leb, sym, ◌∙◌,
}
use alioth.Pci.Bdf.{Bdf}
use alioth.Pci.Segment.Assign.{Bar, bar_size}

-- The mask of a register is that of its size, and that of the next one, which an address from 2^32
-- on is written to, that of the high half.
abbrev pub MaskedOne : (mask : Bdf → ℕ → ℕ) → (end : ℕ) → Bar → Type 0
MaskedOne mask end b =
    (mask b.bdf b.index ≡ 2 ^ 32 - 2 ^ min b.shift 32)
    × ((end ≤ 2 ^ 32) ⊎ (mask b.bdf (b.index + 1) ≡ 2 ^ 32 - 2 ^ (b.shift - 32)))

abbrev pub Masked : (mask : Bdf → ℕ → ℕ) → (end : ℕ) → List Bar → Type 0
Masked mask end [] = Unit {0}
Masked mask end (b ∷ bs) = MaskedOne mask end b × Masked mask end bs

abbrev pub MaskedPlan : (mask : Bdf → ℕ → ℕ) → (end : ℕ) → List (Bar × ℕ) → Type 0
MaskedPlan mask end [] = Unit {0}
MaskedPlan mask end ((b, a) ∷ ps) = ((b.shift ≤ 62) × MaskedOne mask end b) × MaskedPlan mask end ps

pub MaskedPlan-if :
    (mask : Bdf → ℕ → ℕ) (end : ℕ) (full : Bool) (p : Bar × ℕ) (ps : List (Bar × ℕ))
    → (p.0.shift ≤ 62) × MaskedOne mask end p.0
    → MaskedPlan mask end ps
    → MaskedPlan mask end (if full then ps else p ∷ ps)
MaskedPlan-if mask end true p ps one h = h
MaskedPlan-if mask end false p ps one h = (one, h)

pub MaskedPlan-≡ :
    (f g : Bdf → ℕ → ℕ) (end : ℕ) (ps : List (Bar × ℕ))
    → ((c : Bdf) (i : ℕ) → f c i ≡ g c i)
    → MaskedPlan f end ps
    → MaskedPlan g end ps
MaskedPlan-≡ f g end [] e m = tt
MaskedPlan-≡ f g end ((b, a) ∷ ps) e m =
    let (k, (low, high)) = m.0 in
    (
      (
        k,
        (
          sym (e b.bdf b.index) ∙ low,
          elim high [ inl h ↦ inl h | inr h ↦ inr (sym (e b.bdf (b.index + 1)) ∙ h) ],
        ),
      ),
      MaskedPlan-≡ f g end ps e m.1,
    )

-- A register with an address from 2^32 on is in a window that ends above.
pub wide_mask :
    (mask : ℕ) (b : Bar) (end a : ℕ)
    → 1 ≤ bar_size b
    → a + bar_size b ≤ end
    → (end ≤ 2 ^ 32) ⊎ (mask ≡ 2 ^ 32 - 2 ^ (b.shift - 32))
    → leb (2 ^ 32) a ≡ true
    → mask ≡ 2 ^ 32 - 2 ^ (b.shift - 32)
wide_mask mask b end a one f (inr h) y = h
wide_mask mask b end a one f (inl h) y = absurd (low a (bar_size b) end one f h y)
  where
    low : (a size end : ℕ) → 1 ≤ size → a + size ≤ end → end ≤ 2 ^ 32 → ¬ (leb (2 ^ 32) a ≡ true)
    low a size end one f h y = ground (arith, y)
