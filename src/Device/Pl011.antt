-- ===== src/Device/Pl011.antt =====
-- alioth/src/device/pl011.rs: the registers of the PL011 serial port. What the port gives to the
-- console and whether it sends its interrupt are results. The lock makes each access one step.
pub mod Ready
pub mod Fifo
mod Tests
use alioth.Base.{
  ℕ, ◌+◌, ◌-◌, ◌≡◌, Bool, true, false, not, List, [], ◌∷◌, ◌++◌, Option, none, some, ◌==◌,
  if◌then◌else◌, bit_and, bit_or,
}
use alioth.Base.Word.{u8, u16, u32}

pub record Pl011Reg : Type 0 where
  pub rx_data : List ℕ
  pub flag : ℕ
  pub lcr : ℕ
  pub rsr : ℕ
  pub cr : ℕ
  pub dmacr : ℕ
  pub ilpr : ℕ
  pub ibrd : ℕ
  pub fbrd : ℕ
  pub ifl : ℕ
  pub interrupt_mask : ℕ
  pub interrupt_status : ℕ

-- `insert` and `remove` of 16-bit flags.
abbrev pub insert : (flags other : ℕ) → ℕ
insert flags other = bit_or flags other

abbrev pub remove : (flags other : ℕ) → ℕ
remove flags other = bit_and flags (0xffff - other)

abbrev pub txfe : ℕ
txfe = 0x80

abbrev pub rxfe : ℕ
rxfe = 0x10

abbrev pub txris : ℕ
txris = 0x20

abbrev pub rxris : ℕ
rxris = 0x10

-- The bits that `Interrupt` has.
abbrev pub interrupt_bits : ℕ
interrupt_bits = 0x7ff

unfoldable pub new : Pl011Reg
new = record {
  rx_data = [];
  flag = bit_or rxfe txfe;
  lcr = 0;
  rsr = 0;
  cr = 0;
  dmacr = 0;
  ilpr = 0;
  ibrd = 0;
  fbrd = 0;
  ifl = 0;
  interrupt_mask = 0;
  interrupt_status = 0;
}

-- Whether the interrupt is sent.
unfoldable pub update_interrupt : Pl011Reg → Bool
update_interrupt r = not (bit_and r.interrupt_status r.interrupt_mask == 0)

-- The registers after an access, what is read or goes to the console, and whether the interrupt
-- is sent.
pub record Access (A : Type 0) : Type 0 where
  pub reg : Pl011Reg
  pub value : A
  pub irq : Bool

-- What follows the `pop_front` of the data register.
abbrev pub popped : Pl011Reg → List ℕ → Pl011Reg
popped r [] = record r {
  rx_data = [];
  flag = insert r.flag rxfe;
  interrupt_status = remove r.interrupt_status rxris;
}
popped r (b ∷ bs) = record r { rx_data = b ∷ bs }

abbrev pub rest : List ℕ → List ℕ
rest [] = []
rest (b ∷ bs) = bs

-- `pop_front().unwrap_or(0)`
abbrev pub front : List ℕ → ℕ
front [] = 0
front (b ∷ bs) = b

unfoldable pub read_dr : Pl011Reg → Access ℕ
unfolding update_interrupt
read_dr r =
    let r' = popped r (rest r.rx_data) in
    record { reg = r'; value = front r.rx_data; irq = update_interrupt r' }

-- The identification registers.
abbrev read_id : (offset : ℕ) → ℕ
read_id offset =
    if offset == 0xfe0
    then 0x11
    else if offset == 0xfe4
    then 0x10
    else if offset == 0xfe8
    then 0x14
    else if offset == 0xfec
    then 0
    else if offset == 0xff0
    then 0x0d
    else if offset == 0xff4
    then 0xf0
    else if offset == 0xff8
    then 0x05
    else if offset == 0xffc
    then 0xb1
    else 0

-- The registers other than the data register.
unfoldable pub read_other : Pl011Reg → (offset : ℕ) → ℕ
read_other r offset =
    if offset == 0x4
    then r.rsr
    else if offset == 0x18
    then r.flag
    else if offset == 0x20
    then r.ilpr
    else if offset == 0x24
    then r.ibrd
    else if offset == 0x28
    then r.fbrd
    else if offset == 0x2c
    then r.lcr
    else if offset == 0x30
    then r.cr
    else if offset == 0x34
    then r.ifl
    else if offset == 0x38
    then r.interrupt_mask
    else if offset == 0x3c
    then r.interrupt_status
    else if offset == 0x40
    then bit_and r.interrupt_mask r.interrupt_status
    else if offset == 0x44
    then 0
    else if offset == 0x48
    then r.dmacr
    else read_id offset

unfoldable pub read : Pl011Reg → (offset : ℕ) → Access ℕ
unfolding read_dr read_other
read r offset =
    if offset == 0 then read_dr r else record { reg = r; value = read_other r offset; irq = false }

-- `receive` of the console thread.
unfoldable pub receive : Pl011Reg → List ℕ → Access (Option ℕ)
unfolding update_interrupt
receive r bytes =
    let r' = record r {
      rx_data = r.rx_data ++ bytes;
      interrupt_status = insert r.interrupt_status rxris;
      flag = remove r.flag rxfe;
    } in
    record { reg = r'; value = none; irq = update_interrupt r' }

unfoldable pub write_dr : Pl011Reg → (val : ℕ) → Access (Option ℕ)
unfolding update_interrupt
write_dr r val =
    let r' = record r {
      interrupt_status = insert r.interrupt_status txris;
      flag = insert r.flag txfe;
    } in
    record { reg = r'; value = some (u8 val); irq = update_interrupt r' }

unfoldable pub write_other : Pl011Reg → (offset val : ℕ) → Pl011Reg
write_other r offset val =
    if offset == 0x4
    then record r { rsr = 0 }
    else if offset == 0x20
    then record r { ilpr = u32 val }
    else if offset == 0x24
    then record r { ibrd = u32 val }
    else if offset == 0x28
    then record r { fbrd = u32 val }
    else if offset == 0x2c
    then record r { lcr = u32 val }
    else if offset == 0x30
    then record r { cr = u32 val }
    else if offset == 0x34
    then record r { ifl = u32 val }
    else if offset == 0x38
    then record r { interrupt_mask = bit_and (u16 val) interrupt_bits }
    else if offset == 0x44
    then record r {
      interrupt_status =
          bit_and r.interrupt_status (interrupt_bits - bit_and (u16 val) interrupt_bits);
    }
    else if offset == 0x48
    then record r { dmacr = u32 val }
    else r

unfoldable pub write : Pl011Reg → (offset val : ℕ) → Access (Option ℕ)
unfolding write_dr write_other
write r offset val =
    if offset == 0
    then write_dr r val
    else record { reg = write_other r offset val; value = none; irq = false }
