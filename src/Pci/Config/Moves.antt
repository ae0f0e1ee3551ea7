-- ===== src/Pci/Config/Moves.antt =====
-- What a write to the base address register of mapped memory does in config.rs: the memory is
-- asked to move the region, and the register follows once the region is mapped again.
use alioth.Base.{
  ℕ, ◌+◌, ◌-◌, ◌*◌, ◌/◌, ◌%◌, ◌^◌, ◌<◌, ◌≤◌, ◌≡◌, refl, true, false, List, none, some, ◌==◌, get_or,
  bit_or, length, arith, ap, ap₂, ◌∙◌, ◌⊎◌, inl, inr, Bool-cases, ==_iff, get_or-set_self,
}
use native.Mathlib.Nat.{
  one-le-pow, pow-le-pow_right, mul-add-mod_self_right, mod-eq_of_lt, div-mul-le_self, mul-div_left,
}
use alioth.Base.Word.{u32}
use alioth.Base.Bits.Pow.{multiple_down}
use alioth.Base.Bits.Step.{bit_or-zero}
use alioth.Base.Bits.{bit_and_high}
use alioth.Utils.{mask_bits}
use alioth.Mem.Region.{MemRegion}
use alioth.Pci.Bdf.{PciBar, empty, mem}
use alioth.Pci.Config.{
  HeaderData, move_bar, bar_at, set_bar, write_bar, update_bar, has, clear_bits, command_mem,
  bar_mem64,
}
use alioth.Pci.Config.Layout.{mapped}
use alioth.Pci.Config.Sizing.{mask_bits_high}

-- The address in a register of at most 32 bits.
abbrev pub address : ℕ → ℕ
address bar = bar - bar % 16

clear_low : (x : ℕ) → x < 2 ^ 64 → clear_bits 15 x ≡ address x
clear_low x h = omega (arith, bit_and_high 4 64 x (omega arith) h)

mapped-set_bar :
    (d : HeaderData) (i addr : ℕ)
    → has bar_mem64 (bar_at d i) ≡ false
    → i < length d.header.bars
    → bar_at (mapped i d addr) i ≡ mask_bits 32 (bar_at d i) (u32 addr) (get_or d.bar_masks i 0)
unfolding mapped set_bar
mapped-set_bar d i addr narrow h = rw (narrow, mapped) (get_or-set_self d.header.bars i _ 0 h)

-- Type bits over an address of at least 16 bytes.
address-add : (q k r : ℕ) → 4 ≤ k → r < 16 → address (q * 2 ^ k + r) ≡ q * 2 ^ k
address-add q k r h l = omega (
  arith,
  multiple_down q k 4 h,
  mul-add-mod_self_right (q * 2 ^ (k - 4)) 16 r,
  mod-eq_of_lt {n = r} {m = 16} l,
)

module _ {D : Type 0} where
  update_bar-on :
      (d : HeaderData) (i x : ℕ) (region : MemRegion D)
      → has command_mem d.header.common.command ≡ true
      → has bar_mem64 (bar_at d i) ≡ false
      → update_bar d i x (mem region) ≡ (d, some (move_bar (bit_or (bar_at d i) 0) (bit_or x 0)))
  unfolding update_bar
  update_bar-on d i x region on narrow = rw (on, narrow, update_bar) refl

  -- With memory decoding on, a write to the 32-bit register of a region of `2 ^ k` bytes that holds
  -- an aligned address either changes none of the bits that can change, or leaves the header alone
  -- and asks for a move from the register's address to that of the value; when the region is mapped
  -- there, the register holds that address, with its type bits as they were.
  pub write_bar-move :
      (d : HeaderData) (i k val : ℕ) (pci_bars : List (PciBar D)) (region : MemRegion D)
      → 4 ≤ k
      → k ≤ 32
      → get_or d.bar_masks i 0 ≡ 2 ^ 32 - 2 ^ k
      → i < length d.header.bars
      → bar_at d i < 2 ^ 32
      → bar_at d i % 2 ^ k < 16
      → val < 2 ^ 32
      → get_or pci_bars i empty ≡ mem region
      → has command_mem d.header.common.command ≡ true
      → has bar_mem64 (bar_at d i) ≡ false
      → ((write_bar d i val pci_bars ≡ (d, none))
          × (bar_at d i - bar_at d i % 2 ^ k ≡ val / 2 ^ k * 2 ^ k))
        ⊎ ((src : ℕ) × (dst : ℕ) × (write_bar d i val pci_bars ≡ (d, some (move_bar src dst)))
            × (clear_bits 15 src ≡ address (bar_at d i))
            × (clear_bits 15 dst ≡ val / 2 ^ k * 2 ^ k)
            × (bar_at (mapped i d (clear_bits 15 dst)) i
                ≡ val / 2 ^ k * 2 ^ k + bar_at d i % 2 ^ k))
  unfolding write_bar
  write_bar-move d i k val pci_bars region k4 k32 m l o al v b on narrow =
      let old = bar_at d i in
      let x = mask_bits 32 old (u32 val) (get_or d.bar_masks i 0) in
      let new = val / 2 ^ k * 2 ^ k in
      let masked : x ≡ new + old % 2 ^ k =
        ap₂ (λ y z. mask_bits 32 old y z) {y = val} (omega arith) m
        ∙ mask_bits_high k old val k32 v in
      let below : new ≤ val = div-mul-le_self val (2 ^ k) in
      let one = one-le-pow k 2 (omega arith) in
      let small : 2 ^ k ≤ 2 ^ 32 = pow-le-pow_right {n = 2} (omega arith) k32 in
      let address_of : clear_bits 15 (bit_or x 0) ≡ new =
        ap (clear_bits 15) (bit_or-zero x ∙ masked)
        ∙ clear_low (new + old % 2 ^ k) (omega arith)
        ∙ address-add (val / 2 ^ k) k (old % 2 ^ k) k4 al in
      let whole : new / 2 ^ k * 2 ^ k ≡ new =
        ap (λ q. q * 2 ^ k) (mul-div_left (val / 2 ^ k) {n = 2 ^ k} one) in
      elim (Bool-cases (old == x)) [
        | inl y ↦ inl (rw (y, write_bar) refl, omega (arith, (==_iff old x).0 y, masked))
        | inr n ↦ inr (
          bit_or old 0,
          bit_or x 0,
          rw (n, b, update_bar-on d i x region on narrow, write_bar) refl,
          ap (clear_bits 15) (bit_or-zero old) ∙ clear_low old (omega arith),
          address_of,
          ap (λ a. bar_at (mapped i d a) i) address_of
              ∙ mapped-set_bar d i new narrow l
              ∙ ap₂ (λ y z. mask_bits 32 old y z) {y = new} (omega arith) m
              ∙ mask_bits_high k old new k32 (omega arith)
              ∙ ap (λ y. y + old % 2 ^ k) whole,
        )
      ]
