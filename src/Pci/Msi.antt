-- ===== src/Pci/Msi.antt =====
-- The MSI capability of alioth/src/pci/cap.rs: its registers, and the interrupt file descriptors
-- that follow them. A device has at most 32 of these, as the standard says.
pub mod Update
pub mod Synced
mod Tests
use alioth.Base.{
  ℕ, zero, suc, ◌+◌, ◌-◌, ◌*◌, ◌/◌, ◌%◌, ◌^◌, Bool, true, false, not, ◌&&◌, ◌||◌, min, List, [],
  ◌∷◌, Result, ok, err, ◌==◌, ltb, if◌then◌else◌, get_or, set, bit_and, bit_or, replicate,
}
use alioth.Base.Word.{u16, u32}
use alioth.Base.Bits.{bit}
use alioth.Utils.{mask_bits}
use alioth.Mem.Error.{Error}
use alioth.Mem.Call.{Call, pure, ◌>>◌}
use alioth.Pci.Msix.{IrqFd, bool_ne}

-- `MsiMsgCtrl` by its fields; `reserved` is what lies above them.
pub record MsiMsgCtrl : Type 0 where
  pub enable : Bool
  pub multi_msg_cap : ℕ
  pub multi_msg : ℕ
  pub addr_64_cap : Bool
  pub per_vector_masking_cap : Bool
  pub ext_msg_data_cap : Bool
  pub ext_msg_data : Bool
  pub reserved : ℕ

abbrev flag : (k bits : ℕ) → Bool
flag k bits = bit k bits == 1

unfoldable pub from_bits : ℕ → MsiMsgCtrl
from_bits bits = record {
  enable = flag 0 bits;
  multi_msg_cap = bits / 2 % 8;
  multi_msg = bits / 16 % 8;
  addr_64_cap = flag 7 bits;
  per_vector_masking_cap = flag 8 bits;
  ext_msg_data_cap = flag 9 bits;
  ext_msg_data = flag 10 bits;
  reserved = bits / 2048;
}

unfoldable pub cap_size : MsiMsgCtrl → ℕ
cap_size c = 12 + (if c.addr_64_cap then 4 else 0) + (if c.per_vector_masking_cap then 8 else 0)

-- `MsiCapHdr` and `MsiCapBody`, whose four words are `body`.
pub record MsiCap : Type 0 where
  pub next : ℕ
  pub control : MsiMsgCtrl
  pub body : List ℕ

unfoldable pub new : MsiMsgCtrl → MsiCap
new ctrl = record { next = 0; control = ctrl; body = replicate 4 0 }

abbrev pub word : MsiCap → (index : ℕ) → ℕ
word c index = get_or c.body index 0

-- What `update_msi` reads of the registers.
abbrev pub msg_mask : MsiCap → ℕ
msg_mask c = if c.control.ext_msg_data then 0xffffffff else 0xffff

abbrev pub msi_addr : MsiCap → ℕ
msi_addr c = if c.control.addr_64_cap then bit_or (word c 1 * 2 ^ 32) (word c 0) else word c 0

abbrev pub msi_data : MsiCap → ℕ
msi_data c = bit_and (if c.control.addr_64_cap then word c 2 else word c 1) (msg_mask c)

abbrev pub vector_mask : MsiCap → ℕ
vector_mask c =
    if c.control.per_vector_masking_cap
    then (if c.control.addr_64_cap then word c 3 else word c 2)
    else 0

-- Whether the vector is in use and not masked.
unfoldable pub active : MsiCap → (index : ℕ) → Bool
active c index =
    c.control.enable && ltb index (2 ^ c.control.multi_msg) && not (bit index (vector_mask c) == 1)

-- The write to the message control.
unfoldable pub write_ctrl : MsiCap → MsiMsgCtrl → MsiCap × Bool
write_ctrl c new_ctrl =
    let ctrl = c.control in
    let multi_msg =
      if not ctrl.enable || not new_ctrl.enable
      then min ctrl.multi_msg_cap new_ctrl.multi_msg
      else ctrl.multi_msg in
    let ext_msg_data = ctrl.ext_msg_data_cap && new_ctrl.ext_msg_data in
    (
      record c {
        control = record ctrl {
          enable = new_ctrl.enable;
          multi_msg = multi_msg;
          ext_msg_data = ext_msg_data;
        };
      },
      new_ctrl.enable && bool_ne ctrl.ext_msg_data ext_msg_data
          || bool_ne ctrl.enable new_ctrl.enable,
    )

-- The write of a word of the body.
unfoldable pub write_word : MsiCap → (index val : ℕ) → MsiCap × Bool
write_word c index val =
    (record c { body = set c.body index val }, c.control.enable && not (word c index == val))

abbrev pub is_ctrl : (offset size : ℕ) → Bool
is_ctrl offset size = offset == 2 && size == 2 || offset == 0 && size == 4

abbrev pub is_word : MsiCap → (offset size : ℕ) → Bool
is_word c offset size =
    let wide = c.control.addr_64_cap in
    let masks = c.control.per_vector_masking_cap in
    size == 4
    && (offset == 4
        || offset == 8 && wide
        || offset == 0xc && not wide && masks
        || offset == 0x10 && wide && masks)

abbrev pub is_msg : MsiCap → (offset size : ℕ) → Bool
is_msg c offset size =
    let wide = c.control.addr_64_cap in
    (size == 2 || size == 4) && (offset == 8 && not wide || offset == 0xc && wide)

-- The registers after a write, and whether the descriptors have to follow.
unfoldable pub write_reg : MsiCap → (offset size val : ℕ) → MsiCap × Bool
unfolding write_ctrl write_word from_bits
write_reg c offset size val =
    let index = (offset - 4) / 4 in
    let mask = if size == 4 && c.control.ext_msg_data_cap then 0xffffffff else 0xffff in
    if is_ctrl offset size
    then write_ctrl c (from_bits (u16 (val / 2 ^ ((2 - offset) * 8))))
    else if is_word c offset size
    then write_word c index (u32 val)
    else if is_msg c offset size
    then write_word c index (mask_bits 32 (word c index) (u32 val) mask)
    else (c, false)

module _ {F : Type 0} (fd : IrqFd F) where
  -- A setter of a descriptor, which stays as it was where that fails.
  abbrev settle : F → Result Error F → Result Error (Unit {0}) × F
  settle f (ok f') = (ok tt, f')
  settle f (err e) = (err e, f)

  abbrev pub act : (F → Result Error F) → Call F (Unit {0})
  act g f = settle f (g f)

  abbrev first : Result Error (F × Bool) → Result Error F
  first (ok (f, changed)) = ok f
  first (err e) = err e

  abbrev pub set_masked : Bool → F → Result Error F
  set_masked b f = first (fd.set_masked f b)

  -- The message goes to the descriptor between masking and unmasking.
  abbrev pub program : MsiCap → (index : ℕ) → Call F (Unit {0})
  program c index =
      act (λ f. fd.set_addr_hi f (u32 (msi_addr c / 2 ^ 32)))
      >> act (λ f. fd.set_addr_lo f (u32 (msi_addr c)))
      >> act (λ f. fd.set_data f (bit_or (msi_data c) index))
      >> act (set_masked false)

  abbrev pub if_active : Bool → MsiCap → (index : ℕ) → Call F (Unit {0})
  if_active true c index = program c index
  if_active false c index = pure tt

  unfoldable pub update_one : MsiCap → (index : ℕ) → Call F (Unit {0})
  unfolding active
  update_one c index = act (set_masked true) >> if_active (active c index) c index

  -- An error ends the loop.
  abbrev pub after_one :
      Result Error (Unit {0}) × F
      → List F
      → Result Error (Unit {0}) × List F
      → Result Error (Unit {0}) × List F
  after_one (ok u, f) fs (r, fs') = (r, f ∷ fs')
  after_one (err e, f) fs rest = (err e, f ∷ fs)

  unfoldable pub update_from : MsiCap → (index : ℕ) → List F → Result Error (Unit {0}) × List F
  unfolding update_one
  update_from c index [] = (ok tt, [])
  update_from c index (f ∷ fs) = after_one (update_one c index f) fs (update_from c (suc index) fs)

  unfoldable pub update_msi : MsiCap → List F → Result Error (Unit {0}) × List F
  unfolding update_from
  update_msi c irqfds = update_from c 0 irqfds

  abbrev pub if_needed : MsiCap × Bool → List F → MsiCap × List F × Result Error (Unit {0})
  if_needed (c, true) irqfds = let (r, fds) = update_msi c irqfds in (c, fds, r)
  if_needed (c, false) irqfds = (c, irqfds, ok tt)

  unfoldable pub write :
      MsiCap → List F → (offset size val : ℕ) → MsiCap × List F × Result Error (Unit {0})
  unfolding write_reg update_msi
  write c irqfds offset size val = if_needed (write_reg c offset size val) irqfds

  unfoldable pub reset : MsiCap → List F → MsiCap × List F × Result Error (Unit {0})
  unfolding update_msi
  reset c irqfds =
      if_needed (record c { control = record c.control { enable = false } }, true) irqfds

abbrev pub set_next : MsiCap → ℕ → MsiCap
set_next c val = record c { next = val }
