-- ===== src/Pci/Config/Sizing.antt =====
-- How a driver finds the size of a base address register of config.rs: it writes all ones and
-- reads back the bits that it can change.
use alioth.Base.{
  ℕ, zero, suc, ◌+◌, ◌-◌, ◌*◌, ◌/◌, ◌%◌, ◌^◌, ◌<◌, ◌≤◌, ◌≡◌, refl, false, List, [], ◌∷◌, none, some,
  leb, ◌==◌, get_or, bit_and, bit_or, length, arith, ap, ap₂, sym, ◌∙◌, Bool-cases, inl, inr, max,
  ◌⊎◌, get_or-set_self, get_elem?, some_inj, leb→le, ==_iff,
}
use native.Mathlib.Nat.{
  one-le-pow, pow-le-pow_right, pow-suc, mod-lt, mod-eq-sub-div-mul, div-mul-le_self,
}
use alioth.Base.Word.{u32}
use alioth.Base.Bits.{bit_and_low, bit_and_high, bit_or-low_high}
use alioth.Mem.Addressable.{SlotBackend}
use alioth.Mem.Region.{MemRegion, region_size}
use alioth.Utils.{mask_bits}
use alioth.Pci.Bdf.{PciBar, empty, mem}
use alioth.Pci.Config.{
  DeviceHeader, HeaderData, bar_at, write_header, write_bar, update_bar, has, command_mem, put_bar,
}
use alioth.Pci.Config.Layout.{new, bar_mask, bar_masks_from, next_power_of_two, double_from}

-- Under the mask of a register of `2 ^ k` bytes, the high bits come from the new value and the low
-- bits stay.
pub mask_bits_high :
    (k old val : ℕ)
    → k ≤ 32
    → val < 2 ^ 32
    → mask_bits 32 old val (2 ^ 32 - 2 ^ k) ≡ val / 2 ^ k * 2 ^ k + old % 2 ^ k
unfolding mask_bits
mask_bits_high k old val h v =
    let small : 2 ^ k ≤ 2 ^ 32 = pow-le-pow_right {n = 2} (omega arith) h in
    let one = one-le-pow k 2 (omega arith) in
    let inverse : 2 ^ 32 - 1 - (2 ^ 32 - 2 ^ k) ≡ 2 ^ k - 1 = omega arith in
    let kept : bit_and old (2 ^ 32 - 1 - (2 ^ 32 - 2 ^ k)) ≡ old % 2 ^ k =
      ap (bit_and old) inverse ∙ bit_and_low k old in
    let new : bit_and val (2 ^ 32 - 2 ^ k) ≡ val / 2 ^ k * 2 ^ k =
      bit_and_high k 32 val h v
      ∙ omega (arith, mod-eq-sub-div-mul val (2 ^ k), div-mul-le_self val (2 ^ k)) in
    ap₂ bit_or kept new
    ∙ bit_or-low_high k (val / 2 ^ k) (old % 2 ^ k) (omega (arith, mod-lt old {m = 2 ^ k} one))

double_from-power :
    (fuel j n : ℕ)
    → fuel + j ≡ 64
    → n ≤ 2 ^ 63
    → j ≤ 63
    → (k : ℕ) × (double_from fuel (2 ^ j) n ≡ 2 ^ k)
      × (k ≤ 63)
      × (n ≤ 2 ^ k)
      × ((k ≡ j) ⊎ (2 ^ k < 2 * n))
unfolding double_from
double_from-power zero j n f h g = absurd (omega arith)
double_from-power (suc fuel) j n f h g = elim (Bool-cases (leb n (2 ^ j))) [
  | inl y ↦ rw (y, double_from) (j, refl, g, leb→le n (2 ^ j) y, inl refl)
  | inr m ↦
      let short : 2 ^ j < n = ground (arith, m) in
      let below : j < 63 = below_63 j n g short h in
      let (k, e, b, c, d) = double_from-power fuel (suc j) n (omega arith) h (omega arith) in
      rw (m, double_from)
        (k, ap (λ x. double_from fuel x n) (sym (pow-suc 2 j)) ∙ e, b, c, inr (close k j n d short))
]
  where
    below_63 : (j n : ℕ) → j ≤ 63 → 2 ^ j < n → n ≤ 2 ^ 63 → j < 63
    below_63 j n g s h = elim (Bool-cases (j == 63)) [
      | inl y ↦ absurd (omega (arith, ap (λ (t : ℕ). 2 ^ t) ((==_iff j 63).0 y)))
      | inr m ↦ ground (arith, m)
    ]

    close : (k j n : ℕ) → (k ≡ suc j) ⊎ (2 ^ k < 2 * n) → 2 ^ j < n → 2 ^ k < 2 * n
    close k j n (inl e) s = omega (arith, ap (λ (t : ℕ). 2 ^ t) e, pow-suc 2 j)
    close k j n (inr l) s = l

-- `next_power_of_two` is the least power of two that is not below the number.
next_power_of_two-power :
    (n : ℕ)
    → n ≤ 2 ^ 63
    → (k : ℕ) × (next_power_of_two n ≡ 2 ^ k) × (k ≤ 63) × (n ≤ 2 ^ k) × ((k ≡ 0) ⊎ (2 ^ k < 2 * n))
unfolding next_power_of_two
next_power_of_two-power n h = double_from-power 64 0 n refl h (omega arith)

module _ {D : Type 0} where
  update_bar-off :
      (d : HeaderData) (i x : ℕ) (region : MemRegion D)
      → has command_mem d.header.common.command ≡ false
      → update_bar d i x (mem region) ≡ (put_bar d i x, none)
  unfolding update_bar
  update_bar-off d i x region off = rw (off, update_bar) refl

  -- A write of a register while its space is off.
  write_bar-off :
      (d : HeaderData) (i k val : ℕ) (pci_bars : List (PciBar D)) (region : MemRegion D)
      → k ≤ 32
      → get_or d.bar_masks i 0 ≡ 2 ^ 32 - 2 ^ k
      → i < length d.header.bars
      → bar_at d i < 2 ^ 32
      → val < 2 ^ 32
      → get_or pci_bars i empty ≡ mem region
      → has command_mem d.header.common.command ≡ false
      → ((write_bar d i val pci_bars).1 ≡ none)
        × (bar_at (write_bar d i val pci_bars).0 i ≡ val / 2 ^ k * 2 ^ k + bar_at d i % 2 ^ k)
  unfolding write_bar
  write_bar-off d i k val pci_bars region h m l o v b off =
      let masked : mask_bits 32 (bar_at d i) (u32 val) (get_or d.bar_masks i 0)
          ≡ val / 2 ^ k * 2 ^ k + bar_at d i % 2 ^ k =
        ap₂ (λ x y. mask_bits 32 (bar_at d i) x y) {y = val} (omega arith) m
        ∙ mask_bits_high k (bar_at d i) val h v in
      let x = mask_bits 32 (bar_at d i) (u32 val) (get_or d.bar_masks i 0) in
      elim (Bool-cases (bar_at d i == x)) [
        | inl y ↦ rw (y, write_bar) (refl, (==_iff (bar_at d i) x).0 y ∙ masked)
        | inr n ↦
            rw (n, b, update_bar-off d i x region off, write_bar)
              (refl, get_or-set_self d.header.bars i x 0 l ∙ masked)
      ]

module _ {D : Type 0} ⦃sb : SlotBackend D⦄ where
  abbrev pub whole_size : MemRegion D → ℕ
  whole_size region = max (next_power_of_two (region_size region)) 4096

  get_or-elem :
      (bars : List (PciBar D)) (i : ℕ) (b : PciBar D)
      → get_elem? bars i ≡ some b
      → get_or bars i empty ≡ b
  get_or-elem [] i b e = absurd (ground arith)
  get_or-elem (c ∷ bars) zero b e = ground arith
  get_or-elem (c ∷ bars) (suc i) b e = get_or-elem bars i b e

  get-bar_masks :
      (hi : ℕ) (bars : List (PciBar D)) (vals : List ℕ) (i : ℕ) (region : MemRegion D)
      → get_elem? bars i ≡ some (mem region)
      → i < length vals
      → get_or (bar_masks_from hi bars vals) i 0 ≡ u32 (2 ^ 64 - whole_size region)
  unfolding bar_masks_from bar_mask
  get-bar_masks hi [] vals i region e h = absurd (ground arith)
  get-bar_masks hi (b ∷ bars) [] i region e h = absurd (omega arith)
  get-bar_masks hi (b ∷ bars) (v ∷ vals) zero region e h = rw (some_inj b (mem region) e) refl
  get-bar_masks hi (b ∷ bars) (v ∷ vals) (suc i) region e h =
      get-bar_masks (bar_mask b v hi).1 bars vals i region e (omega arith)

  write_header-bar :
      (d : HeaderData) (i val : ℕ) (bars : List (PciBar D))
      → i < 6
      → write_header d (16 + 4 * i) 4 val bars ≡ write_bar d i val bars
  unfolding write_header
  write_header-bar d i val bars h =
      let index : (16 + 4 * i - 16) / 4 ≡ i = omega arith in
      opened d i val bars h ∙ ap (λ x. write_bar d x val bars) index
    where
      opened :
          (d : HeaderData) (i val : ℕ) (bars : List (PciBar D))
          → i < 6
          → write_header d (16 + 4 * i) 4 val bars ≡ write_bar d ((16 + 4 * i - 16) / 4) val bars
      opened d i val bars h = ground arith

  whole_size-power :
      (region : MemRegion D)
      → 0 < region_size region
      → region_size region ≤ 2 ^ 31
      → (k : ℕ) × (k ≤ 32) × (whole_size region ≡ 2 ^ k) × (region_size region ≤ 2 ^ k)
  whole_size-power region p s =
      let (j, e, _, c, d) = next_power_of_two-power (region_size region) (omega arith) in
      elim (Bool-cases (leb 12 j)) [
        | inl y ↦ (
          j,
          short j (region_size region) d s,
          max_left (2 ^ j) (pow-le-pow_right {n = 2} (omega arith) {i = 12} {j = j} (leb→le 12 j y))
              e,
          c,
        )
        | inr n ↦ (
          12,
          omega arith,
          max_right j e (ground (arith, n)),
          omega (arith, c, pow_small j (ground (arith, n))),
        )
      ]
    where
      short : (j n : ℕ) → (j ≡ 0) ⊎ (2 ^ j < 2 * n) → n ≤ 2 ^ 31 → j ≤ 32
      short j n (inl z) h = omega arith
      short j n (inr l) h = elim (Bool-cases (leb 33 j)) [
        | inl y ↦
            absurd (
              omega
                (arith, pow-le-pow_right {n = 2} (omega arith) {i = 33} {j = j} (leb→le 33 j y)))
        | inr m ↦ ground (arith, m)
      ]

      pow_small : (j : ℕ) → j < 12 → 2 ^ j ≤ 4096
      pow_small j h = pow-le-pow_right {n = 2} (omega arith) {i = j} {j = 12} (omega arith)

      max_left : {p : ℕ} (x : ℕ) → 4096 ≤ x → p ≡ x → max p 4096 ≡ x
      max_left x h e = omega arith

      max_right : {p : ℕ} (j : ℕ) → p ≡ 2 ^ j → j < 12 → max p 4096 ≡ 4096
      max_right j e h = omega (arith, pow_small j h)

  -- In a new header, with memory decoding off, a 4-byte write to the register of a memory region of
  -- at most 2^31 bytes asks for no change of the layout. The register keeps its bits below the size
  -- `p`, a power of two that holds the region, and takes the bits of the value from there on.
  pub write_header-size :
      (header : DeviceHeader) (bars : List (PciBar D)) (i val : ℕ) (region : MemRegion D)
      → i < 6
      → length header.bars ≡ 6
      → get_elem? bars i ≡ some (mem region)
      → 0 < region_size region
      → region_size region ≤ 2 ^ 31
      → get_or header.bars i 0 < 2 ^ 32
      → val < 2 ^ 32
      → has command_mem header.common.command ≡ false
      → (k : ℕ) × (whole_size region ≡ 2 ^ k)
        × (region_size region ≤ 2 ^ k)
        × ((write_header (new header bars).header_data (16 + 4 * i) 4 val bars).1 ≡ none)
        × (bar_at (write_header (new header bars).header_data (16 + 4 * i) 4 val bars).0 i
            ≡ val / 2 ^ k * 2 ^ k + get_or header.bars i 0 % 2 ^ k)
  unfolding write_header new
  write_header-size header bars i val region hi hl hb hp hs ho hv off =
      let d = (new header bars).header_data in
      let (k, kb, whole, fits) = whole_size-power region hp hs in
      let one = one-le-pow k 2 (omega arith) in
      let small : 2 ^ k ≤ 2 ^ 32 = pow-le-pow_right {n = 2} (omega arith) kb in
      let mask : get_or d.bar_masks i 0 ≡ 2 ^ 32 - 2 ^ k =
        get-bar_masks 0 bars header.bars i region hb (omega arith)
        ∙ ap (λ x. u32 (2 ^ 64 - x)) whole
        ∙ omega arith in
      let (quiet, value) =
        write_bar-off d i k val bars region kb mask (omega arith) ho hv
          (get_or-elem bars i (mem region) hb) off in
      let same = write_header-bar d i val bars hi in
      (k, whole, fits, ap (λ r. r.1) same ∙ quiet, ap (λ r. bar_at r.0 i) same ∙ value)
