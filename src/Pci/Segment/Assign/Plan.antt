-- ===== src/Pci/Segment/Assign/Plan.antt =====
-- The addresses that `assign_resources` of segment.rs gives to the registers of one list.
use alioth.Base.{
  ℕ, ◌+◌, ◌%◌, ◌^◌, ◌<◌, ◌≤◌, ◌≡◌, refl, Bool, true, false, List, [], ◌∷◌, ltb, if◌then◌else◌,
  arith, Bool-cases, inl, inr, subst, sym, ap, ◌∙◌, Option,
}
use native.Mathlib.Nat.{one-le-pow, pow-le-pow_right}
use alioth.Base.Word.{u64}
use alioth.Utils.{align_up}
use alioth.Utils.Halves.{align_up_lem}
use alioth.Pci.Bdf.{Bdf}
use alioth.Pci.Config.{HeaderData}
use alioth.Pci.Segment.{Entry, PciConfig}
use alioth.Pci.Segment.Assign.{Bar, bar_size, place_bar, place_next, place_bars}
use alioth.Pci.Segment.Assign.Placed.{written_one}
use alioth.Pci.Segment.Assign.Written.{value_at, mask_at, value_at-place_bar, mask_at-place_bar}
use alioth.Pci.Segment.Assign.Masks.{Masked, MaskedPlan, MaskedPlan-if, MaskedPlan-≡, wide_mask}

-- The registers that fit, with their addresses.
unfoldable pub plan : (addr end : ℕ) → List Bar → List (Bar × ℕ)
plan addr end [] = []
plan addr end (b ∷ bs) =
    let aligned_addr = align_up addr b.shift in
    let full = ltb end (u64 (aligned_addr + bar_size b)) in
    let rest = plan (if full then addr else u64 (aligned_addr + bar_size b)) end bs in
    if full then rest else (b, aligned_addr) ∷ rest

-- From `lo` on, each register is aligned to its size and ends before the next and by `end`.
abbrev pub Fits : (lo end : ℕ) → List (Bar × ℕ) → Type 0
Fits lo end [] = Unit
Fits lo end ((b, a) ∷ ps) =
    (lo ≤ a) × (a % bar_size b ≡ 0) × (a + bar_size b ≤ end) × Fits (a + bar_size b) end ps

-- No register is larger than `2 ^ k`.
abbrev pub AtMost : ℕ → List Bar → Type 0
AtMost k [] = Unit
AtMost k (b ∷ bs) = (b.shift ≤ k) × AtMost k bs

small_size : (b : Bar) → b.shift ≤ 62 → (1 ≤ bar_size b) × (bar_size b ≤ 2 ^ 62)
small_size b h = (one-le-pow b.shift 2 (omega arith), pow-le-pow_right {n = 2} (omega arith) h)

Fits-if :
    (full : Bool) (lo end : ℕ) (p : Bar × ℕ) (ps : List (Bar × ℕ))
    → (full ≡ true → Fits lo end ps)
    → (full ≡ false → Fits lo end (p ∷ ps))
    → Fits lo end (if full then ps else p ∷ ps)
Fits-if true lo end p ps h k = h refl
Fits-if false lo end p ps h k = k refl

plan-Fits :
    (addr end : ℕ) (bars : List Bar)
    → addr < 2 ^ 63
    → end < 2 ^ 63
    → AtMost 62 bars
    → Fits addr end (plan addr end bars)
unfolding plan
plan-Fits addr end [] a e s = tt
plan-Fits addr end (b ∷ bs) a e s =
    let (one, small) = small_size b s.0 in
    let (aligned, above, close) = align_up_lem addr b.shift (omega arith) (omega arith) in
    let past : u64 (align_up addr b.shift + bar_size b) ≡ align_up addr b.shift + bar_size b =
      omega arith in
    Fits-if (ltb end (u64 (align_up addr b.shift + bar_size b))) addr end (b, align_up addr b.shift)
      (plan
        (if ltb end (u64 (align_up addr b.shift + bar_size b))
          then addr
          else u64 (align_up addr b.shift + bar_size b))
        end bs)
      (λ y. rw y (plan-Fits addr end bs a e s.1))
      (λ n. (
        above,
        aligned,
        room end (align_up addr b.shift + bar_size b) (omega arith) n,
        rw n (
            subst (λ x. Fits x end (plan (u64 (align_up addr b.shift + bar_size b)) end bs)) past
              (plan-Fits (u64 (align_up addr b.shift + bar_size b)) end bs
                (small_next end (align_up addr b.shift + bar_size b) n e) e s.1)),
      ))
  where
    room : (end x : ℕ) → x < 2 ^ 64 → ltb end (u64 x) ≡ false → x ≤ end
    room end x h n = ground arith

    small_next : (end x : ℕ) → ltb end (u64 x) ≡ false → end < 2 ^ 63 → u64 x < 2 ^ 63
    small_next end x n h = ground arith

-- What the writes of a plan leave in a register that holds `v`.
abbrev pub written : List (Bar × ℕ) → Bdf → ℕ → Option ℕ → Option ℕ
written [] c i v = v
written ((b, a) ∷ ps) c i v = written ps c i (written_one b a c i v)

plan-MaskedPlan :
    (mask : Bdf → ℕ → ℕ) (addr end top : ℕ) (bars : List Bar)
    → AtMost 62 bars
    → Masked mask top bars
    → MaskedPlan mask top (plan addr end bars)
unfolding plan
plan-MaskedPlan mask addr end top [] s m = tt
plan-MaskedPlan mask addr end top (b ∷ bs) s m =
    MaskedPlan-if mask top (ltb end (u64 (align_up addr b.shift + bar_size b)))
      (b, align_up addr b.shift) _ (s.0, m.0)
      (plan-MaskedPlan mask
        (if ltb end (u64 (align_up addr b.shift + bar_size b))
          then addr
          else u64 (align_up addr b.shift + bar_size b))
        end top bs s.1 m.1)

module _ {P C : Type 0} (cfg : PciConfig P C) where
  -- The writes of a plan.
  abbrev pub place_all : List (Bdf × Entry P) → List (Bar × ℕ) → List (Bdf × Entry P)
  place_all devices [] = devices
  place_all devices ((b, a) ∷ ps) = place_all (place_bar cfg devices b a) ps

  place_all-if :
      (full : Bool) (devices : List (Bdf × Entry P)) (p : Bar × ℕ) (ps : List (Bar × ℕ))
      → place_all devices (if full then ps else p ∷ ps)
        ≡ place_all (if full then devices else place_bar cfg devices p.0 p.1) ps
  place_all-if true devices p ps = refl
  place_all-if false devices p ps = refl

  pub place_bars-plan :
      (devices : List (Bdf × Entry P)) (addr end : ℕ) (bars : List Bar)
      → place_bars cfg devices addr end bars ≡ place_all devices (plan addr end bars)
  unfolding place_bars place_next plan
  place_bars-plan devices addr end [] = refl
  place_bars-plan devices addr end (b ∷ bs) =
      elim (Bool-cases (ltb end (u64 (align_up addr b.shift + bar_size b)))) [
        | inl y ↦ rw (y, place_next, plan) (place_bars-plan devices addr end bs)
        | inr n ↦
            rw (n, place_next, plan)
              (place_bars-plan (place_bar cfg devices b (align_up addr b.shift))
                (u64 (align_up addr b.shift + bar_size b)) end bs)
      ]

  place_all-written :
      (devices : List (Bdf × Entry P)) (lo end : ℕ) (ps : List (Bar × ℕ)) (c : Bdf) (i : ℕ)
      → ((p : P) (h : HeaderData) → cfg.header (cfg.with_header p h) ≡ h)
      → end < 2 ^ 63
      → Fits lo end ps
      → MaskedPlan (mask_at cfg devices) end ps
      → value_at cfg (place_all devices ps) c i ≡ written ps c i (value_at cfg devices c i)
  place_all-written devices lo end [] c i law e f m = refl
  place_all-written devices lo end ((b, a) ∷ ps) c i law e f m =
      let (k, (low, high)) = m.0 in
      let one = one-le-pow b.shift 2 (omega arith) in
      let wide = wide_mask (mask_at cfg devices b.bdf (b.index + 1)) b end a one f.2 high in
      let next = place_bar cfg devices b a in
      place_all-written next (a + bar_size b) end ps c i law e f.3 (
        MaskedPlan-≡ (mask_at cfg devices) (mask_at cfg next) end ps
          (λ d j. sym (mask_at-place_bar cfg devices b a d j law)) m.1)
      ∙ ap (written ps c i) (value_at-place_bar cfg devices b a c i law k (omega arith) (low, wide))

  -- In a window below 2^63, where a device has the header that it was given, and each register of
  -- the list has at most 2^62 bytes and the mask of its size (and the one after it that of the high
  -- half, unless the window ends by 2^32): each register that fits gets an address in the window,
  -- aligned to its size, and no two share an address. It holds the address from the bit of its size
  -- on, the high half in the register after it where the address is from 2^32 on, with its low bits
  -- kept; every other register of every device is as before.
  pub place_bars-Fits :
      (devices : List (Bdf × Entry P)) (start end : ℕ) (bars : List Bar) (c : Bdf) (i : ℕ)
      → ((p : P) (h : HeaderData) → cfg.header (cfg.with_header p h) ≡ h)
      → start < 2 ^ 63
      → end < 2 ^ 63
      → AtMost 62 bars
      → Masked (mask_at cfg devices) end bars
      → (value_at cfg (place_bars cfg devices start end bars) c i
          ≡ written (plan start end bars) c i (value_at cfg devices c i))
        × Fits start end (plan start end bars)
  place_bars-Fits devices start end bars c i law a e s m =
      let fits = plan-Fits start end bars a e s in
      (
        ap (λ ds. value_at cfg ds c i) (place_bars-plan devices start end bars)
            ∙ place_all-written devices start end (plan start end bars) c i law e fits
                (plan-MaskedPlan (mask_at cfg devices) start end end bars s m),
        fits,
      )
