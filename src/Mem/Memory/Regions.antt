-- ===== src/Mem/Memory/Regions.antt =====
-- `add_region` and `handle_mmio` of mem.rs together: which device the guest reaches.
use alioth.Base.{
  ℕ, ◌+◌, ◌-◌, ◌^◌, ◌<◌, ◌≤◌, ◌≡◌, refl, Bool, List, [], ◌∷◌, Option, none, some, ok, arith,
  Result-cases, inl, inr, ap, sym, ◌∙◌, subst,
}
use alioth.Base.Word.{u64}
use alioth.Mem.Call.{Call, pure, ◌>>=◌, ◌>>◌, resume-ok, for_each}
use alioth.Mem.Addressable
use alioth.Mem.Addressable.{SlotBackend, size}
use alioth.Mem.Addressable.Owner.{IsValid}
use alioth.Mem.Addressable.Add.{add_iff}
use alioth.Mem.Emulated
use alioth.Mem.Emulated.{Mmio, MmioBus, search}
use alioth.Mem.Region.{
  MemRange, MemRegion, range_size, region_size, sum_from, validate, VmMemory, Callbacks,
}
use alioth.Mem.Memory.{State, in_world, region_backend, take_in}
use alioth.Mem.Memory.Frame.{Keeps-world, Keeps-each, Keeps-bind}
use alioth.Mem.Memory.Layout.{notify_updated, add_ranges, add_region}
use alioth.Mem.Memory.Access.{VmEntry, mmio, handle_mmio}
use alioth.Mem.Memory.Serves.{
  or_else, total, device_at, KeepsBus, notify_updated-KeepsBus, Serves, Serves-moved,
  add_ranges-Serves,
}

module _ {D : Type 0} ⦃sb : SlotBackend D⦄ where
  sum-total :
      (n : ℕ) (rs : List (MemRange D))
      → n + total rs < 2 ^ 64
      → sum_from range_size n rs ≡ n + total rs
  sum-total n [] h = omega arith
  sum-total n (r ∷ rs) h = omega (arith, sum-total (u64 (n + range_size r)) rs)

  validate-total :
      (region : MemRegion D)
      → total region.ranges < 2 ^ 64
      → validate region ≡ ok tt
      → total region.ranges ≤ region_size region
  unfolding validate
  validate-total region h e = ground (arith, sum-total 0 region.ranges)

module _ {W D : Type 0} ⦃sb : SlotBackend D⦄ ⦃vm : VmMemory W⦄ ⦃cb : Callbacks W⦄ where
  -- `regions.add` says that the region fits, and leaves the bus of the devices alone.
  take_in-ok :
      (addr : ℕ) (region : MemRegion D) (s s' : State W D) (u : Unit {0})
      → IsValid s.0.regions
      → take_in addr region s ≡ (ok u, s')
      → (addr + region_size region ≤ 2 ^ 64)
        × (0 < region_size region)
        × (s'.0.mmio_bus ≡ s.0.mmio_bus)
  unfolding take_in
  take_in-ok addr region (m, w) s' u v e =
      elim (Result-cases (Addressable.add m.regions addr region)) [
        | inl (x, q) ↦ absurd (ground arith)
        | inr (regions, q) ↦
            let (p, fits, _) = (add_iff m.regions addr region v).0 (regions, q) in
            (fits, p, ground arith)
      ]

  -- The callbacks at the end of `add_region`.
  finish-KeepsBus :
      (addr : ℕ) (region : MemRegion D) (x : Bool)
      → KeepsBus {D = D}
          (notify_updated x >> for_each region.callbacks (λ c. in_world (cb.mapped c addr)))
  finish-KeepsBus addr region x =
      Keeps-bind (λ m. m.mmio_bus) (notify_updated x)
        (λ _. for_each region.callbacks (λ c. in_world (cb.mapped c addr)))
        (notify_updated-KeepsBus x)
        (λ _.
          Keeps-each (λ m. m.mmio_bus) region.callbacks (λ c. in_world (cb.mapped c addr))
            (λ c. Keeps-world (λ m. m.mmio_bus) (cb.mapped c addr)))

  pub add_region-Serves :
      (addr : ℕ) (region : MemRegion D) (s s' : State W D)
      → IsValid s.0.regions
      → IsValid (s.0.mmio_bus.inner)
      → total region.ranges < 2 ^ 64
      → add_region addr region s ≡ (ok tt, s')
      → Serves addr region.ranges s.0.mmio_bus s'.0.mmio_bus
  unfolding add_region
  add_region-Serves addr region s s' v b h e =
      let mapped : Call (State W D) (Unit {0}) =
        for_each region.callbacks (λ c. in_world (cb.mapped c addr)) in
      let told : Bool → Call (State W D) (Unit {0}) = λ u. notify_updated u >> mapped in
      let filled : Call (State W D) (Unit {0}) = add_ranges addr 0 region.ranges >>= told in
      let (_, s₀, checked, e₀) =
        resume-ok (λ _. take_in addr region >> filled) (validate region, s) tt s' e in
      let (u, s₁, taken, e₁) = resume-ok (λ _. filled) (take_in addr region s₀) tt s' e₀ in
      let (x, s₂, ranged, e₂) = resume-ok told (add_ranges addr 0 region.ranges s₁) tt s' e₁ in
      let same₀ : s₀ ≡ s = ap (λ r. r.1) (sym checked) in
      let (fits, _, same₁) =
        take_in-ok addr region s₀ s₁ u (subst (λ z. IsValid z.0.regions) (sym same₀) v) taken in
      let before : s₁.0.mmio_bus ≡ s.0.mmio_bus = same₁ ∙ ap (λ z. z.0.mmio_bus) same₀ in
      let within = validate-total region h (ap (λ r. r.0) checked) in
      let after : s'.0.mmio_bus ≡ s₂.0.mmio_bus =
        ap (λ r. r.1.0.mmio_bus) (sym e₂) ∙ finish-KeepsBus addr region x s₂ in
      let done =
        add_ranges-Serves addr 0 region.ranges s₁ s₂ x (omega arith) (omega arith)
          (subst (λ z. IsValid z.inner) (sym before) b) ranged in
      subst (λ z. Serves addr region.ranges s.0.mmio_bus z) (sym after)
        (subst (λ z. Serves addr region.ranges z s₂.0.mmio_bus) before
          (Serves-moved (addr + 0) addr region.ranges s₁.0.mmio_bus s₂.0.mmio_bus s₂.0.mmio_bus
            (omega arith) refl done))

-- What the guest's access is answered by: a device, with the address where it begins, or nothing.
module _ {W C D : Type 0} ⦃sb : SlotBackend D⦄ (mm : Mmio W C D)
    (change : C → Call (State W D) (Unit {0})) where
  abbrev pub answer : Option (ℕ × D) → (a n : ℕ) → Call (State W D) VmEntry
  answer none a n s = (ok (mmio (2 ^ 64 - 1)), s)
  answer (some (start, dev)) a n s =
      (in_world (mm.read dev (a - start) n) >>= λ value. pure (mmio value)) s

  handle_mmio-answer :
      (a n : ℕ) (s : State W D)
      → handle_mmio mm change a none n s ≡ answer (search s.0.mmio_bus a) a n s
  unfolding handle_mmio Emulated.read
  handle_mmio-answer a n (m, w) = ground arith

module _ {W C D : Type 0} ⦃sb : SlotBackend D⦄ ⦃vm : VmMemory W⦄ ⦃cb : Callbacks W⦄
    (mm : Mmio W C D) (change : C → Call (State W D) (Unit {0})) where
  -- After `add_region`, a read of the guest goes to the device of the region at that address, or
  -- else where it went before.
  pub handle_mmio-add_region :
      (addr : ℕ) (region : MemRegion D) (s s' : State W D) (a n : ℕ)
      → IsValid s.0.regions
      → IsValid (s.0.mmio_bus.inner)
      → total region.ranges < 2 ^ 64
      → add_region addr region s ≡ (ok tt, s')
      → handle_mmio mm change a none n s'
        ≡ answer mm change (or_else (device_at addr region.ranges a) (search s.0.mmio_bus a)) a n s'
  handle_mmio-add_region addr region s s' a n v b h e =
      handle_mmio-answer mm change a n s'
      ∙ ap (λ o. answer mm change o a n s') ((add_region-Serves addr region s s' v b h e).1 a)
