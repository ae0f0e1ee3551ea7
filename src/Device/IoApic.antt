-- ===== src/Device/IoApic.antt =====
-- alioth/src/device/ioapic.rs, with the register layouts of alioth/src/arch/x86_64/ioapic.rs and
-- intr.rs: the redirection table and the message that a pin sends. The sender of messages is the
-- hypervisor's; here the message is the result.
pub mod Entry
pub mod Message
mod Tests
use alioth.Base.{
  ℕ, ◌+◌, ◌-◌, ◌*◌, ◌/◌, ◌%◌, ◌^◌, Bool, true, false, not, ◌&&◌, ◌||◌, List, [], ◌∷◌, Option, none,
  some, leb, ◌==◌, if◌then◌else◌, get_elem?, set, replicate, bit_and, bit_or,
}
use alioth.Base.Word.{u8, u32, u64}

pub record IoApicRegs : Type 0 where
  pub id : ℕ
  pub redirtbl : List ℕ
  pub select : ℕ

abbrev pub num_pins : ℕ
num_pins = 24

unfoldable pub default_regs : IoApicRegs
default_regs = record { id = 0; redirtbl = replicate num_pins 0; select = 0 }

-- The accessors of a `bitfield!`: bits `msb` to `lsb`, read and replaced.
abbrev pub get_bits : ℕ → ℕ → ℕ → ℕ
get_bits msb lsb x = x / 2 ^ lsb % 2 ^ (msb + 1 - lsb)

abbrev pub set_bits : ℕ → ℕ → ℕ → ℕ → ℕ
set_bits msb lsb x v =
    x / 2 ^ (msb + 1) * 2 ^ (msb + 1) + v % 2 ^ (msb + 1 - lsb) * 2 ^ lsb + x % 2 ^ lsb

-- `RedirectEntry`.
abbrev pub vector : ℕ → ℕ
vector = get_bits 7 0

abbrev pub delivery_mode : ℕ → ℕ
delivery_mode = get_bits 10 8

abbrev pub dest_mode : ℕ → Bool
dest_mode e = get_bits 11 11 e == 1

abbrev pub trigger_mode : ℕ → Bool
trigger_mode e = get_bits 15 15 e == 1

abbrev pub masked : ℕ → Bool
masked e = get_bits 16 16 e == 1

abbrev pub virt_dest_id_hi : ℕ → ℕ
virt_dest_id_hi = get_bits 55 49

abbrev pub dest_id : ℕ → ℕ
dest_id = get_bits 63 56

abbrev pub apic_start : ℕ
apic_start = 0xfee00000

-- `MsiAddrLo`, with both parts of the destination set.
unfoldable pub msi_addr_lo : ℕ → ℕ
msi_addr_lo e = set_bits 11 5 (set_bits 19 12 apic_start (dest_id e)) (virt_dest_id_hi e)

-- `MsiData::new(vector, delivery_mode, level, trigger_mode)`.
unfoldable pub msi_data : ℕ → ℕ → Bool → Bool → ℕ
msi_data v d level trigger =
    set_bits 15 15 (set_bits 14 14 (set_bits 11 8 (set_bits 7 0 0 v) d) (if level then 1 else 0))
      (if trigger then 1 else 0)

-- The message that a pin sends, if any: address and data.
unfoldable pub service_pin : IoApicRegs → ℕ → Option (ℕ × ℕ)
unfolding msi_addr_lo msi_data
service_pin r pin = elim (get_elem? r.redirtbl pin) [
  | none ↦ none
  | some e ↦
      if masked e
      then none
      else if dest_mode e
      then none
      else if trigger_mode e
      then none
      else some (msi_addr_lo e, msi_data (vector e) (delivery_mode e) false (trigger_mode e))
]

-- `RegVer::new(IOAPIC_VER, NUM_PINS - 1)`.
abbrev pub reg_ver : ℕ
reg_ver = 0x11 + (num_pins - 1) * 2 ^ 16

-- `IOREDTBL_BASE` and `IOREDTBL_MAX`.
abbrev pub in_table : ℕ → Bool
in_table select = leb 0x10 select && leb select 0x3f

unfoldable pub read_reg : IoApicRegs → ℕ
read_reg r =
    if r.select == 0 || r.select == 2
    then r.id
    else if r.select == 1
    then reg_ver
    else if in_table r.select
    then elim (get_elem? r.redirtbl ((r.select - 0x10) / 2)) [
      | none ↦ 0
      | some e ↦ if r.select % 2 == 0 then u32 e else u32 (e / 2 ^ 32)
    ]
    else 0

-- One half of a table entry.
unfoldable pub set_half : ℕ → ℕ → ℕ → ℕ
set_half select e val =
    if select % 2 == 0
    then bit_or (bit_and e (2 ^ 64 - 2 ^ 32)) val
    else bit_or (bit_and e (2 ^ 32 - 1)) (u64 (val * 2 ^ 32))

unfoldable pub write_reg : IoApicRegs → ℕ → IoApicRegs
unfolding set_half
write_reg r val =
    if r.select == 0
    then record r { id = set_bits 27 24 r.id (get_bits 27 24 val) }
    else if r.select == 1 || r.select == 2
    then r
    else if in_table r.select
    then elim (get_elem? r.redirtbl ((r.select - 0x10) / 2)) [
      | none ↦ r
      | some e ↦ record r {
        redirtbl = set r.redirtbl ((r.select - 0x10) / 2) (set_half r.select e val);
      }
    ]
    else r

unfoldable pub read : IoApicRegs → ℕ → ℕ → ℕ
unfolding read_reg
read r offset size =
    if not (size == 4)
    then 0
    else if offset == 0
    then r.select
    else if offset == 0x10
    then read_reg r
    else 0

unfoldable pub write : IoApicRegs → ℕ → ℕ → ℕ → IoApicRegs
unfolding write_reg
write r offset size val =
    if not (size == 4)
    then r
    else if offset == 0
    then record r { select = u8 val }
    else if offset == 0x10
    then write_reg r (u32 val)
    else r
