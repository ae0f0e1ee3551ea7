-- ===== src/Mem/Memory/Private/Marks.antt =====
-- What `mark_private_memory` of mem.rs marks, and that its walk over the regions ends.
use alioth.Base.{
  ℕ, zero, suc, ◌+◌, ◌-◌, ◌<◌, ◌≤◌, ◌≡◌, ◌≢◌, refl, Bool, true, false, List, [], ◌∷◌, Option, none,
  leb, if◌then◌else◌, Result, ok, err, arith, inl, inr, sym, subst, Option-cases, max, min,
}
use alioth.Base.Word.{u64}
use alioth.Mem.Error.{Error}
use alioth.Mem.Call.{Call, pure, ◌>>◌, resume}
use alioth.Mem.Addressable.{SlotBackend, Addressable, search_next}
use alioth.Mem.Addressable.Owner.{IsValid}
use alioth.Mem.Mapped.{ArcMemPages}
use alioth.Mem.Region.{MemRange, ram, dev_mem, emulated, span, MemRegion, region_size, VmMemory}
use alioth.Mem.Memory.{region_backend}
use alioth.Mem.Memory.Private.Ahead.{Inside, ahead, next-ahead}
use alioth.Mem.Memory.Private.{
  Walk, go, out, mark_pages, mark_range, mark_ranges, proceed, mark_from,
}

leb-false : (a b : ℕ) → leb a b ≡ false → b < a
leb-false a b h = ground arith

-- The walk comes back with the bound kept, on a world of which `P` still holds.
module _ {W : Type 0} (P : W → Type 0) (lo : ℕ) where
  abbrev From : Result Error Walk → Type 0
  From (ok (go addr start)) = lo ≤ start
  From (ok out) = Unit
  From (err e) = Unit

  abbrev Safe : Result Error Walk × W → Type 0
  Safe r = From r.0 × P r.1

  Safe-marked :
      (addr start : ℕ) (r : Result Error (Unit {0}) × W)
      → lo ≤ start
      → P r.1
      → Safe (resume (λ _. pure (go addr start)) r)
  Safe-marked addr start (ok u, w) h p = (h, p)
  Safe-marked addr start (err e, w) h p = (tt, p)

  Safe-if :
      (b : Bool) (f g : Call W Walk) (w : W)
      → (b ≡ true → Safe (f w))
      → (b ≡ false → Safe (g w))
      → Safe ((if b then f else g) w)
  Safe-if true f g w h k = h refl
  Safe-if false f g w h k = k refl

module _ {W : Type 0} ⦃vm : VmMemory W⦄ (private : Bool) (lo end : ℕ) (P : W → Type 0)
    (keep : (gpa n : ℕ) (w : W)
      → lo ≤ gpa
      → gpa + n ≤ end
      → P w
      → P (vm.mark_private_memory gpa n private w).1) where
  mark_pages-Safe :
      (addr start : ℕ) (r : ArcMemPages) (w : W)
      → lo ≤ start
      → P w
      → Safe P lo (mark_pages private end addr start r w)
  unfolding mark_pages
  mark_pages-Safe addr start r w h p =
      let range_end = u64 (addr + r.size) in
      let gpa_start = max addr start in
      let gpa_end = min end range_end in
      let marked : Call W Walk =
        vm.mark_private_memory gpa_start (gpa_end - gpa_start) private >> pure (go addr gpa_end) in
      Safe-if P lo (leb range_end start) (pure (go range_end start))
        (if leb gpa_end gpa_start then pure out else marked) w (λ _. (h, p))
        (λ _.
          Safe-if P lo (leb gpa_end gpa_start) (pure out) marked w (λ _. (tt, p))
            (λ b.
              let room : gpa_start < gpa_end = ground (arith, leb-false gpa_end gpa_start b) in
              Safe-marked P lo addr gpa_end
                (vm.mark_private_memory gpa_start (gpa_end - gpa_start) private w) (omega arith)
                (keep gpa_start (gpa_end - gpa_start) w (omega arith) (omega arith) p)))

  module _ {D : Type 0} ⦃sb : SlotBackend D⦄ where
    mark_range-Safe :
        (addr start : ℕ) (r : MemRange D) (w : W)
        → lo ≤ start
        → P w
        → Safe P lo (mark_range private end addr start r w)
    unfolding mark_range
    mark_range-Safe addr start (ram r) w h p = mark_pages-Safe addr start r w h p
    mark_range-Safe addr start (dev_mem r) w h p = mark_pages-Safe addr start r w h p
    mark_range-Safe addr start (emulated r) w h p = (h, p)
    mark_range-Safe addr start (span n) w h p = (h, p)

    later-Safe :
        (rs : List (MemRange D)) (r : Result Error Walk × W)
        → ((at : Walk) (w : W)
            → From P lo (ok at)
            → P w
            → Safe P lo (mark_ranges private end at rs w))
        → Safe P lo r
        → Safe P lo (resume (λ at. mark_ranges private end at rs) r)
    later-Safe rs (ok at, w) k h = k at w h.0 h.1
    later-Safe rs (err e, w) k h = (tt, h.1)

    mark_ranges-Safe :
        (rs : List (MemRange D)) (at : Walk) (w : W)
        → From P lo (ok at)
        → P w
        → Safe P lo (mark_ranges private end at rs w)
    unfolding mark_ranges
    mark_ranges-Safe rs out w h p = (tt, p)
    mark_ranges-Safe [] (go addr start) w h p = (h, p)
    mark_ranges-Safe (r ∷ rs) (go addr start) w h p =
        later-Safe rs (mark_range private end addr start r w)
          (λ at w h p. mark_ranges-Safe rs at w h p) (mark_range-Safe addr start r w h p)

-- What follows the ranges of one region.
module _ {W : Type 0} (P : W → Type 0) (lo : ℕ) where
  abbrev Kept : Result Error (Option (Unit {0})) × W → Type 0
  Kept r = P r.1

  proceed-Kept :
      (done : Bool) (rest : Call W (Option (Unit {0}))) (r : Result Error Walk × W)
      → ((w : W) → P w → Kept (rest w))
      → Safe P lo r
      → Kept (resume (proceed done rest) r)
  unfolding proceed
  proceed-Kept done rest (err e, w) k h = h.1
  proceed-Kept done rest (ok out, w) k h = h.1
  proceed-Kept true rest (ok (go a s), w) k h = h.1
  proceed-Kept false rest (ok (go a s), w) k h = k w h.1

module _ {W D : Type 0} ⦃sb : SlotBackend D⦄ ⦃vm : VmMemory W⦄ (private : Bool) (lo end : ℕ)
    (P : W → Type 0)
    (keep : (gpa n : ℕ) (w : W)
      → lo ≤ gpa
      → gpa + n ≤ end
      → P w
      → P (vm.mark_private_memory gpa n private w).1) where
  pub mark_from-Kept :
      (fuel : ℕ) (regions : Addressable (MemRegion D)) (start : ℕ) (w : W)
      → lo ≤ start
      → Inside regions.slots
      → IsValid regions
      → P w
      → P (mark_from private end fuel regions start w).1
  unfolding mark_from
  mark_from-Kept zero regions start w h i v p = p
  mark_from-Kept (suc fuel) regions start w h i v p =
      elim (Option-cases (search_next regions start)) [
        | inl q ↦ rw (q, mark_from) p
        | inr ((addr, region), q) ↦
            let (later, far, _) = next-ahead regions start addr region i v q in
            rw (q, mark_from)
              (proceed-Kept P lo (leb end (u64 (addr + region_size region)))
                (mark_from private end fuel regions (u64 (addr + region_size region)))
                (mark_ranges private end (go addr start) region.ranges w)
                (λ w' p'.
                  mark_from-Kept fuel regions (u64 (addr + region_size region)) w' (omega arith) i v
                    p')
                (mark_ranges-Safe private lo end P keep region.ranges (go addr start) w h p))
      ]

module _ {W : Type 0} where
  proceed-returns :
      (done : Bool) (rest : Call W (Option (Unit {0}))) (r : Result Error Walk × W)
      → ((w : W) → (rest w).0 ≢ ok none)
      → (resume (proceed done rest) r).0 ≢ ok none
  unfolding proceed
  proceed-returns done rest (err e, w) k h = absurd (ground arith)
  proceed-returns done rest (ok out, w) k h = absurd (ground arith)
  proceed-returns true rest (ok (go a s), w) k h = absurd (ground arith)
  proceed-returns false rest (ok (go a s), w) k h = k w h

module _ {W D : Type 0} ⦃sb : SlotBackend D⦄ ⦃vm : VmMemory W⦄ (private : Bool) (end : ℕ) where
  pub mark_from-returns :
      (fuel : ℕ) (regions : Addressable (MemRegion D)) (start : ℕ) (w : W)
      → ahead regions.slots start < fuel
      → Inside regions.slots
      → IsValid regions
      → (mark_from private end fuel regions start w).0 ≢ ok none
  unfolding mark_from
  mark_from-returns zero regions start w h i v = absurd (omega arith)
  mark_from-returns (suc fuel) regions start w h i v =
      elim (Option-cases (search_next regions start)) [
        | inl q ↦ rw (q, mark_from) (λ e. absurd (ground arith))
        | inr ((addr, region), q) ↦
            let (_, far, fewer) = next-ahead regions start addr region i v q in
            let next : ℕ = u64 (addr + region_size region) in
            let same : next ≡ addr + region_size region = omega arith in
            rw (q, mark_from)
              (proceed-returns (leb end next) (mark_from private end fuel regions next)
                (mark_ranges private end (go addr start) region.ranges w)
                (λ w'.
                  mark_from-returns fuel regions next w'
                    (subst (λ x. ahead regions.slots x < fuel) (sym same) (omega arith)) i v))
      ]
