-- ===== src/Pci/Segment/Reserve.antt =====
-- `reserve` of segment.rs: which number it finds, and that it always comes back.
use alioth.Base.{
  ℕ, zero, suc, ◌+◌, ◌*◌, ◌^◌, ◌<◌, ◌≡◌, refl, Bool, true, false, Option, none, some, ◌==◌,
  if◌then◌else◌, arith, Bool-cases, inl, inr, ap, sym, subst, ==_iff,
}
use alioth.Base.Word.{u16}
use alioth.Pci.Bdf.{Bdf}
use alioth.Pci.Segment.{placeholder, PciSegment, get, insert, reserve_from, reserve}
use alioth.Pci.Segment.Numbers.{IsFree, IsTaken, Entry-cases, add-free, add-taken}

module _ {P : Type 0} (s : PciSegment P) where
  -- The numbers of function 0 in the order of the search.
  abbrev pub nth_bdf : ℕ → Bdf
  nth_bdf k = u16 (s.next_bdf + 8 * k)

  abbrev Looked : ℕ → Type 0
  Looked k = (j : ℕ) → j < k → IsTaken (get s.devices (nth_bdf j))

  -- Where the search ends: at the first free number of the order, or after all of them.
  abbrev pub Reserved : Option (PciSegment P × Option Bdf) → Type 0
  Reserved none = ⊥
  Reserved (some (s', some b)) =
      (k : ℕ) × (k < 8192)
      × (b ≡ nth_bdf k)
      × Looked k
      × IsFree (get s.devices b)
      × (s' ≡ record { devices = insert s.devices b placeholder; next_bdf = nth_bdf (suc k) })
  Reserved (some (s', none)) = (s' ≡ s) × Looked 8192

  Looked-suc : (k : ℕ) → Looked k → IsTaken (get s.devices (nth_bdf k)) → Looked (suc k)
  Looked-suc k h t j lt = elim (Bool-cases (j == k)) [
    | inl y ↦ subst (λ i. IsTaken (get s.devices (nth_bdf i))) (sym ((==_iff j k).0 y)) t
    | inr n ↦ h j (ground arith)
  ]

  Reserved-if :
      (b : Bool) (x y : Option (PciSegment P × Option Bdf))
      → (b ≡ true → Reserved x)
      → (b ≡ false → Reserved y)
      → Reserved (if b then x else y)
  Reserved-if true x y h k = h refl
  Reserved-if false x y h k = k refl

  -- The search is back where it began after exactly all numbers.
  last : (k : ℕ) → s.next_bdf < 2 ^ 16 → k < 8192 → u16 (nth_bdf k + 8) ≡ s.next_bdf → suc k ≡ 8192
  last k w h e = omega arith

  more :
      (k fuel : ℕ)
      → s.next_bdf < 2 ^ 16
      → suc fuel + k ≡ 8192
      → (u16 (nth_bdf k + 8) == s.next_bdf) ≡ false
      → 0 < fuel
  more k fuel w f n = ground arith

  reserve_from-Reserved :
      (fuel k : ℕ)
      → s.next_bdf < 2 ^ 16
      → fuel + k ≡ 8192
      → 0 < fuel
      → Looked k
      → Reserved
          (reserve_from fuel s.next_bdf (record { devices = s.devices; next_bdf = nth_bdf k }))
  unfolding reserve_from
  reserve_from-Reserved zero k w f p h = absurd (omega arith)
  reserve_from-Reserved (suc fuel) k w f p h =
      let at : PciSegment P = record { devices = s.devices; next_bdf = u16 (nth_bdf k + 8) } in
      let next : u16 (nth_bdf k + 8) ≡ nth_bdf (suc k) = omega arith in
      elim (Entry-cases (get s.devices (nth_bdf k))) [
        | inl free ↦
            rw (add-free at (nth_bdf k) placeholder free, reserve_from)
              (
                k,
                omega arith,
                refl,
                h,
                free,
                ap
                    (λ n. record {
                      devices = insert s.devices (nth_bdf k) placeholder;
                      next_bdf = n;
                    })
                    next,
              )
        | inr (d, e) ↦
            rw (add-taken at (nth_bdf k) placeholder d e, reserve_from)
              (Reserved-if (u16 (nth_bdf k + 8) == s.next_bdf) (some (at, none))
                (reserve_from fuel s.next_bdf at)
                (λ y. (
                  ap (λ n. record { devices = s.devices; next_bdf = n })
                      ((==_iff (u16 (nth_bdf k + 8)) s.next_bdf).0 y),
                  subst Looked
                      (last k w (omega arith) ((==_iff (u16 (nth_bdf k + 8)) s.next_bdf).0 y))
                      (Looked-suc k h (d, e)),
                ))
                (λ n.
                  subst
                    (λ b.
                      Reserved (
                        reserve_from fuel s.next_bdf
                          (record { devices = s.devices; next_bdf = b })))
                    (sym next)
                    (reserve_from-Reserved fuel (suc k) w (omega arith) (more k fuel w f n)
                      (Looked-suc k h (d, e)))))
      ]

  -- `reserve` with no number asked for gives the first free number of function 0 from `next_bdf`
  -- on, or, if a device is at each of them, none; it always comes back.
  pub reserve_any : s.next_bdf < 2 ^ 16 → Reserved (reserve s none)
  unfolding reserve
  reserve_any w =
      subst
        (λ b.
          Reserved (reserve_from 8192 s.next_bdf (record { devices = s.devices; next_bdf = b })))
        first (reserve_from-Reserved 8192 0 w refl (omega arith) (λ j lt. absurd (omega arith)))
    where
      first : nth_bdf 0 ≡ s.next_bdf
      first = omega arith
