-- ===== src/Pci/Msi/Synced.antt =====
-- The interrupt file descriptors stay in step with the registers of the MSI capability.
use alioth.Base.{
  ℕ, zero, suc, ◌-◌, ◌*◌, ◌/◌, ◌^◌, ◌≡◌, refl, ap, sym, subst, ◌∙◌, ◌⊎◌, inl, inr, Bool, true,
  false, not, ◌&&◌, ◌||◌, Bool-cases, List, [], ◌∷◌, ok, ◌==◌, if◌then◌else◌, get_or, set, min,
  arith,
}
use alioth.Base.Word.{u16, u32}
use alioth.Utils.{mask_bits}
use alioth.Pci.Msix.{IrqFd}
use alioth.Pci.Msi.{
  MsiCap, MsiMsgCtrl, word, active, write_ctrl, write_word, write_reg, from_bits, is_ctrl, is_word,
  is_msg, update_msi, if_needed, write,
}
use alioth.Pci.Msi.Update.{Laws, Follows, FollowsFrom, update_from-Follows}

-- The descriptors need not follow a change of the registers: there is none, or MSI is off before
-- and after it.
abbrev Idle : (c c' : MsiCap) → Type 0
Idle c c' = (c' ≡ c) ⊎ ((c.control.enable ≡ false) × (c'.control.enable ≡ false))

set-get_or : (xs : List ℕ) (i d : ℕ) → set xs i (get_or xs i d) ≡ xs
set-get_or [] i d = refl
set-get_or (x ∷ xs) zero d = refl
set-get_or (x ∷ xs) (suc i) d = ap (λ ys. x ∷ ys) (set-get_or xs i d)

write_word-Idle :
    (c : MsiCap) (index val : ℕ)
    → (write_word c index val).1 ≡ false
    → Idle c (write_word c index val).0
unfolding write_word
write_word-Idle c index val e = elim (Bool-cases c.control.enable) [
  | inr off ↦ inr (off, off)
  | inl on ↦ inl (
      let same : val ≡ word c index = ground arith in
      ap (λ v. record c { body = set c.body index v }) same
      ∙ ap (λ b. record c { body = b }) (set-get_or c.body index 0))
]

ctrl_same :
    (c : MsiCap) (enable ext : Bool) (multi_msg : ℕ)
    → enable ≡ c.control.enable
    → ext ≡ c.control.ext_msg_data
    → multi_msg ≡ c.control.multi_msg
    → record c {
      control = record c.control { enable = enable; multi_msg = multi_msg; ext_msg_data = ext };
    }
      ≡ c
ctrl_same c enable ext multi_msg p q r =
    ap
      (λ b. record c {
        control = record c.control { enable = b; multi_msg = multi_msg; ext_msg_data = ext };
      })
      p
    ∙ ap (λ b. record c { control = record c.control { multi_msg = multi_msg; ext_msg_data = b } })
        q
    ∙ ap (λ m. record c { control = record c.control { multi_msg = m } }) r

write_ctrl-Idle :
    (c : MsiCap) (new_ctrl : MsiMsgCtrl)
    → (write_ctrl c new_ctrl).1 ≡ false
    → Idle c (write_ctrl c new_ctrl).0
unfolding write_ctrl
write_ctrl-Idle c new_ctrl e = elim (Bool-cases c.control.enable) [
  | inr off ↦ elim (Bool-cases new_ctrl.enable) [
    | inr off' ↦ inr (off, off')
    | inl on' ↦ absurd (ground arith)
  ]
  | inl on ↦ elim (Bool-cases new_ctrl.enable) [
    | inr off' ↦ absurd (ground arith)
    | inl on' ↦ inl (
        ctrl_same c new_ctrl.enable (c.control.ext_msg_data_cap && new_ctrl.ext_msg_data)
          (if not c.control.enable || not new_ctrl.enable
            then min c.control.multi_msg_cap new_ctrl.multi_msg
            else c.control.multi_msg)
          (on' ∙ sym on) (ground arith) (rw (on, on') refl))
  ]
]

abbrev Quiet : MsiCap → MsiCap × Bool → Type 0
Quiet c w = w.1 ≡ false → Idle c w.0

write_reg-Idle : (c : MsiCap) (offset size val : ℕ) → Quiet c (write_reg c offset size val)
unfolding write_reg
write_reg-Idle c offset size val =
    let index = (offset - 4) / 4 in
    let mask : ℕ = if size == 4 && c.control.ext_msg_data_cap then 0xffffffff else 0xffff in
    elim (Bool-cases (is_ctrl offset size)) [
      | inl is ↦
          let new_ctrl = from_bits (u16 (val / 2 ^ ((2 - offset) * 8))) in
          let same : write_reg c offset size val ≡ write_ctrl c new_ctrl = rw is refl in
          subst (Quiet c) (sym same) (write_ctrl-Idle c new_ctrl)
      | inr other ↦ elim (Bool-cases (is_word c offset size)) [
        | inl is ↦
            let same : write_reg c offset size val ≡ write_word c index (u32 val) =
              rw other (rw is refl) in
            subst (Quiet c) (sym same) (write_word-Idle c index (u32 val))
        | inr other' ↦ elim (Bool-cases (is_msg c offset size)) [
          | inl is ↦
              let masked = mask_bits 32 (word c index) (u32 val) mask in
              let same : write_reg c offset size val ≡ write_word c index masked =
                rw other (rw other' (rw is refl)) in
              subst (Quiet c) (sym same) (write_word-Idle c index masked)
          | inr rest ↦
              let same : write_reg c offset size val ≡ (c, false) =
                rw other (rw other' (rw rest refl)) in
              subst (Quiet c) (sym same) (λ e. inl refl)
        ]
      ]
    ]

module _ {F : Type 0} (fd : IrqFd F) where
  inactive : (c : MsiCap) (index : ℕ) → c.control.enable ≡ false → active c index ≡ false
  unfolding active
  inactive c index off = rw off refl

  off-Follows :
      (c c' : MsiCap) (index : ℕ) (f : F)
      → c.control.enable ≡ false
      → c'.control.enable ≡ false
      → Follows fd c index f
      → Follows fd c' index f
  off-Follows c c' index f off off' v = record {
    masked = v.masked ∙ ap not (inactive c index off ∙ sym (inactive c' index off'));
    programmed = λ on. absurd (ground (arith, inactive c' index off'));
  }

  off-FollowsFrom :
      (c c' : MsiCap) (index : ℕ) (fs : List F)
      → c.control.enable ≡ false
      → c'.control.enable ≡ false
      → FollowsFrom fd c index fs
      → FollowsFrom fd c' index fs
  off-FollowsFrom c c' index [] off off' v = tt
  off-FollowsFrom c c' index (f ∷ fs) off off' (v, vs) =
      (off-Follows c c' index f off off' v, off-FollowsFrom c c' (suc index) fs off off' vs)

  if_needed-InStep :
      Laws fd
      → (c : MsiCap) (fds : List F) (w : MsiCap × Bool) → FollowsFrom fd c 0 fds
      → (w.1 ≡ false → Idle c w.0)
      → (if_needed fd w fds).2 ≡ ok tt
      → FollowsFrom fd (if_needed fd w fds).0 0 (if_needed fd w fds).1
  unfolding update_msi
  if_needed-InStep law c fds (c', true) v idle e = update_from-Follows fd law c' 0 fds e
  if_needed-InStep law c fds (c', false) v idle e = elim (idle refl) [
    | inl same ↦ subst (λ x. FollowsFrom fd x 0 fds) (sym same) v
    | inr (off, off') ↦ off-FollowsFrom c c' 0 fds off off' v
  ]

  -- If the interrupt file descriptors do what the registers say, each masked exactly if its vector is not
  -- active and holding the message otherwise, they do so after any register write that
  -- succeeds.
  pub write-FollowsFrom :
      Laws fd
      → (c : MsiCap) (irqfds : List F) (offset size val : ℕ) → FollowsFrom fd c 0 irqfds
      → (write fd c irqfds offset size val).2 ≡ ok tt
      → FollowsFrom fd (write fd c irqfds offset size val).0 0 (write fd c irqfds offset size val).1
  unfolding write
  write-FollowsFrom law c irqfds offset size val v e =
      if_needed-InStep law c irqfds (write_reg c offset size val) v
        (write_reg-Idle c offset size val) e
