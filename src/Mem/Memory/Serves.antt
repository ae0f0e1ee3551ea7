-- ===== src/Mem/Memory/Serves.antt =====
-- Where the ranges of a region lead, and what `add_region` and `remove_region` of mem.rs do to the
-- bus of the devices.
use alioth.Base.{
  ℕ, ◌+◌, ◌^◌, ◌<◌, ◌≤◌, ◌≡◌, refl, ◌&&◌, ◌||◌, Bool, true, false, List, [], ◌∷◌, Option, none,
  some, leb, ltb, if◌then◌else◌, ok, arith, Result-cases, ap, inl, inr, sym, subst, ◌∙◌,
}
use alioth.Base.Word.{u64}
use alioth.Mem.Call.{Call, pure, ◌>>=◌, ◌>>◌, resume-ok, for_each}
use alioth.Mem.Addressable
use alioth.Mem.Addressable.{SlotBackend, size}
use alioth.Mem.Addressable.Owner.{IsValid}
use alioth.Mem.Addressable.Add.{add-IsValid, search-add, add_iff}
use alioth.Mem.Emulated
use alioth.Mem.Emulated.{MmioBus, search}
use alioth.Mem.Mapped
use alioth.Mem.Mapped.{ArcMemPages}
use alioth.Mem.Region.{MemRange, ram, dev_mem, emulated, span, range_size, VmMemory, Callbacks}
use alioth.Mem.Memory.{Memory, State, in_world, add_mmio, add_ram}
use alioth.Mem.Memory.Frame.{Keeps, Keeps-bind, Keeps-world, Keeps-each}
use alioth.Mem.Memory.Layout.{map_to_vm, notify_updated, add_range, add_ranges}

abbrev pub or_else : {A : Type 0} → Option A → Option A → Option A
or_else (some a) o = some a
or_else none o = o

module _ {D : Type 0} ⦃sb : SlotBackend D⦄ where
  abbrev pub total : List (MemRange D) → ℕ
  total [] = 0
  total (r ∷ rs) = range_size r + total rs

  -- The device that the ranges, laid out from `start` on, put at an address.
  unfoldable pub device_at : ℕ → List (MemRange D) → ℕ → Option (ℕ × D)
  device_at start [] a = none
  device_at start (emulated d ∷ rs) a =
      if leb start a && ltb a (start + size d)
      then some (start, d)
      else device_at (start + size d) rs a
  device_at start (ram p ∷ rs) a = device_at (start + p.size) rs a
  device_at start (dev_mem p ∷ rs) a = device_at (start + p.size) rs a
  device_at start (span n ∷ rs) a = device_at (start + n) rs a

  device_at_below :
      (start : ℕ) (rs : List (MemRange D)) (a : ℕ) → a < start → device_at start rs a ≡ none
  unfolding device_at
  device_at_below start [] a h = refl
  device_at_below start (emulated d ∷ rs) a h =
      ground (arith, device_at_below (start + size d) rs a)
  device_at_below start (ram p ∷ rs) a h = device_at_below (start + p.size) rs a (omega arith)
  device_at_below start (dev_mem p ∷ rs) a h = device_at_below (start + p.size) rs a (omega arith)
  device_at_below start (span n ∷ rs) a h = device_at_below (start + n) rs a (omega arith)

  -- What one range does to the bus of the devices, by the address where it begins.
  abbrev pub Serves : ℕ → List (MemRange D) → MmioBus D → MmioBus D → Type 0
  Serves start rs bus bus' =
      IsValid bus'.inner × ((a : ℕ) → search bus' a ≡ or_else (device_at start rs a) (search bus a))

  Serves-same :
      (start : ℕ) (bus bus' : MmioBus D) → IsValid bus.inner → bus' ≡ bus → Serves start [] bus bus'
  unfolding device_at
  Serves-same start bus bus' v e = rw e (v, λ a. refl)

  Serves-added :
      (start : ℕ) (d : D) (bus bus' : MmioBus D) (gpa : ℕ)
      → IsValid bus.inner
      → start ≤ 2 ^ 64
      → gpa ≡ u64 start
      → start + size d ≤ 2 ^ 64
      → Addressable.add bus.inner gpa d ≡ ok bus'.inner
      → Serves start (emulated d ∷ []) bus bus'
  unfolding device_at
  Serves-added start d bus bus' gpa v h g k e =
      let (p, _, _) = (add_iff bus.inner gpa d v).0 (bus'.inner, e) in
      let at_start : gpa ≡ start = omega arith in
      (add-IsValid bus.inner gpa d v e, λ a. ground (arith, search-add bus.inner gpa d a v e))

  pub Serves-moved :
      (start start' : ℕ) (rs : List (MemRange D)) (b c c' : MmioBus D)
      → start ≡ start'
      → c ≡ c'
      → Serves start rs b c
      → Serves start' rs b c'
  Serves-moved start start' rs b c c' e q h =
      subst (λ x. Serves x rs b c') e (subst (λ x. Serves start rs b x) q h)

  Serves-trans :
      (start : ℕ) (r : MemRange D) (rs : List (MemRange D)) (b b' b'' : MmioBus D)
      → Serves start (r ∷ []) b b'
      → Serves (start + range_size r) rs b' b''
      → Serves start (r ∷ rs) b b''
  unfolding device_at
  Serves-trans start (emulated d) rs b b' b'' h k =
      (k.0, λ a. ground (arith, h.1 a, k.1 a, device_at_below (start + size d) rs a))
  Serves-trans start (ram p) rs b b' b'' h k = (k.0, λ a. ground (arith, h.1 a, k.1 a))
  Serves-trans start (dev_mem p) rs b b' b'' h k = (k.0, λ a. ground (arith, h.1 a, k.1 a))
  Serves-trans start (span n) rs b b' b'' h k = (k.0, λ a. ground (arith, h.1 a, k.1 a))

module _ {W D : Type 0} ⦃sb : SlotBackend D⦄ ⦃vm : VmMemory W⦄ ⦃cb : Callbacks W⦄ where
  -- Only an emulated range changes the bus of the devices.
  abbrev pub KeepsBus : {A : Type 0} → Call (State W D) A → Type 0
  KeepsBus c = Keeps (λ m. m.mmio_bus) c

  add_ram-KeepsBus : (gpa : ℕ) (p : ArcMemPages) → KeepsBus (add_ram gpa p)
  unfolding add_ram
  add_ram-KeepsBus gpa p (m, w) = elim (Result-cases (Mapped.add m.ram_bus gpa p)) [
    | inl (e, q) ↦ rw q
    | inr (x, q) ↦ rw q
  ]

  pub notify_updated-KeepsBus : (u : Bool) → KeepsBus (notify_updated u)
  unfolding notify_updated
  notify_updated-KeepsBus true (m, w) =
      Keeps-each (λ m. m.mmio_bus) m.updated (λ c. in_world (cb.ram_updated c m.ram_bus))
        (λ c. Keeps-world (λ m. m.mmio_bus) (cb.ram_updated c m.ram_bus)) (m, w)
  notify_updated-KeepsBus false s = refl

  add_range-ram-KeepsBus : (gpa : ℕ) (p : ArcMemPages) → KeepsBus (add_range gpa (ram p))
  unfolding add_range map_to_vm
  add_range-ram-KeepsBus gpa p (m, w) =
      let f : Memory D → MmioBus D = λ m. m.mmio_bus in
      let told : ℕ → Call (State W D) (Unit {0}) = λ c. in_world (cb.ram_added c gpa p) in
      Keeps-bind f (map_to_vm gpa p >> for_each m.changed told >> add_ram gpa p) (λ _. pure true)
        (Keeps-bind f (map_to_vm gpa p >> for_each m.changed told) (λ _. add_ram gpa p)
          (Keeps-bind f (map_to_vm gpa p) (λ _. for_each m.changed told)
            (Keeps-world f (vm.mem_map gpa p.size p.addr))
            (λ _. Keeps-each f m.changed told (λ c. Keeps-world f (cb.ram_added c gpa p))))
          (λ _. add_ram-KeepsBus gpa p))
        (λ _ s. refl) (m, w)

  add_range-dev_mem-KeepsBus : (gpa : ℕ) (p : ArcMemPages) → KeepsBus (add_range gpa (dev_mem p))
  unfolding add_range map_to_vm
  add_range-dev_mem-KeepsBus gpa p =
      Keeps-bind (λ m. m.mmio_bus) (map_to_vm gpa p) (λ _. pure false)
        (Keeps-world (λ m. m.mmio_bus) (vm.mem_map gpa p.size p.addr)) (λ _ s. refl)

  add_mmio-ok :
      (gpa : ℕ) (d : D) (s s' : State W D) (u : Unit {0})
      → add_mmio gpa d s ≡ (ok u, s')
      → (bus : MmioBus D) × (Addressable.add s.0.mmio_bus.inner gpa d ≡ ok bus.inner)
        × (s'.0.mmio_bus ≡ bus)
  unfolding add_mmio Emulated.add
  add_mmio-ok gpa d (m, w) s' u e = elim (Result-cases (Addressable.add m.mmio_bus.inner gpa d)) [
    | inl (x, q) ↦ absurd (ground arith)
    | inr (inner, q) ↦ (record { inner = inner }, q, ground arith)
  ]

  -- One range, by its kind.
  add_range-Serves :
      (start : ℕ) (r : MemRange D) (s s' : State W D) (u : Bool)
      → start + range_size r ≤ 2 ^ 64
      → IsValid (s.0.mmio_bus.inner)
      → add_range (u64 start) r s ≡ (ok u, s')
      → Serves start (r ∷ []) s.0.mmio_bus s'.0.mmio_bus
  unfolding add_range device_at
  add_range-Serves start (emulated d) s s' u h v e =
      let (_, s₁, added, done) = resume-ok (λ _. pure false) (add_mmio (u64 start) d s) u s' e in
      let (bus, q, same) = add_mmio-ok (u64 start) d s s₁ tt added in
      Serves-moved start start (emulated d ∷ []) s.0.mmio_bus bus s'.0.mmio_bus refl
        (sym (ap (λ r. r.1.0.mmio_bus) (sym done) ∙ same))
        (Serves-added start d s.0.mmio_bus bus (u64 start) v (omega arith) refl h q)
  add_range-Serves start (ram p) s s' u h v e =
      Serves-same start s.0.mmio_bus s'.0.mmio_bus v
        (ap (λ r. r.1.0.mmio_bus) (sym e) ∙ add_range-ram-KeepsBus (u64 start) p s)
  add_range-Serves start (dev_mem p) s s' u h v e =
      Serves-same start s.0.mmio_bus s'.0.mmio_bus v
        (ap (λ r. r.1.0.mmio_bus) (sym e) ∙ add_range-dev_mem-KeepsBus (u64 start) p s)
  add_range-Serves start (span n) s s' u h v e =
      Serves-same start s.0.mmio_bus s'.0.mmio_bus v (ap (λ r. r.1.0.mmio_bus) (sym e))

  pub add_ranges-Serves :
      (addr offset : ℕ) (rs : List (MemRange D)) (s s' : State W D) (u : Bool)
      → addr + offset + total rs ≤ 2 ^ 64
      → offset + total rs < 2 ^ 64
      → IsValid (s.0.mmio_bus.inner)
      → add_ranges addr offset rs s ≡ (ok u, s')
      → Serves (addr + offset) rs s.0.mmio_bus s'.0.mmio_bus
  unfolding add_ranges
  add_ranges-Serves addr offset [] s s' u h k v e =
      Serves-same (addr + offset) s.0.mmio_bus s'.0.mmio_bus v (ap (λ r. r.1.0.mmio_bus) (sym e))
  add_ranges-Serves addr offset (r ∷ rs) s s' u h k v e =
      let more : Bool → Call (State W D) Bool =
        λ x. add_ranges addr (u64 (offset + range_size r)) rs >>= λ y. pure (x || y) in
      let (x, s₁, first, later) = resume-ok more (add_range (u64 (addr + offset)) r s) u s' e in
      let (y, s₂, rest, done) =
        resume-ok (λ y. pure (x || y)) (add_ranges addr (u64 (offset + range_size r)) rs s₁) u s'
          later in
      let one = add_range-Serves (addr + offset) r s s₁ x (omega arith) v first in
      let others =
        add_ranges-Serves addr (u64 (offset + range_size r)) rs s₁ s₂ y (omega arith) (omega arith)
          one.0 rest in
      Serves-trans (addr + offset) r rs s.0.mmio_bus s₁.0.mmio_bus s'.0.mmio_bus one (
        Serves-moved (addr + u64 (offset + range_size r)) (addr + offset + range_size r) rs
          s₁.0.mmio_bus s₂.0.mmio_bus s'.0.mmio_bus (omega arith) (ap (λ r. r.1.0.mmio_bus) done)
          others)
