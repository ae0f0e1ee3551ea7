-- ===== src/Device/Serial.antt =====
-- alioth/src/device/serial.rs: the registers of the 8250 serial port. What the port gives to the
-- console and whether it raises its pin are results; console and interrupt controller are not
-- modelled. The lock makes each access one step.
pub mod Ready
pub mod Fifo
pub mod Irq
mod Tests
use alioth.Base.{
  ℕ, ◌+◌, ◌*◌, ◌/◌, ◌%◌, ◌^◌, Bool, true, false, not, ◌&&◌, List, [], ◌∷◌, ◌++◌, Option, none, some,
  leb, ◌==◌, if◌then◌else◌, length, bit_and, bit_or,
}
use alioth.Base.Word.{u8}
use alioth.Base.Bits.{bit}

-- `SerialReg`; `rx_data` is its field `data`. The FIFO control register is never read.
pub record SerialReg : Type 0 where
  pub interrupt_enable : ℕ
  pub interrupt_identification : ℕ
  pub line_control : ℕ
  pub modem_control : ℕ
  pub line_status : ℕ
  pub modem_status : ℕ
  pub scratch : ℕ
  pub divisor : ℕ
  pub rx_data : List ℕ

-- The bits of `InterruptEnable`, and those that a write keeps.
abbrev pub received_data_available : ℕ → Bool
received_data_available ier = bit 0 ier == 1

abbrev pub tx_holding_register_empty : ℕ → Bool
tx_holding_register_empty ier = bit 1 ier == 1

abbrev pub ier_bits : ℕ
ier_bits = 15

abbrev pub divisor_latch_access : SerialReg → Bool
divisor_latch_access r = bit 7 (r.line_control) == 1

abbrev pub loop_back : SerialReg → Bool
loop_back r = bit 4 (r.modem_control) == 1

-- `InterruptIdentification`: the low four bits are replaced.
unfoldable pub set_rx_data_available : ℕ → ℕ
set_rx_data_available iir = bit_or (bit_and iir 0xf0) 4

unfoldable pub set_tx_room_empty : ℕ → ℕ
set_tx_room_empty iir = bit_or (bit_and iir 0xf0) 2

unfoldable pub clear_interrupt : ℕ → ℕ
clear_interrupt iir = bit_or (bit_and iir 0xf0) 1

-- `LineStatus::DATA_READY` set and cleared.
unfoldable pub set_data_ready : ℕ → ℕ
set_data_ready lsr = bit_or lsr 1

unfoldable pub clear_data_ready : ℕ → ℕ
clear_data_ready lsr = bit_and lsr 0xfe

-- `SerialReg::default()`.
unfoldable pub default_reg : SerialReg
default_reg = record {
  interrupt_enable = 0;
  interrupt_identification = 1;
  line_control = 3;
  modem_control = 0;
  line_status = 0x60;
  modem_status = 0;
  scratch = 0;
  divisor = 0;
  rx_data = [];
}

-- `pop_front().unwrap_or(0xff)`.
abbrev pub pop_front : List ℕ → List ℕ × ℕ
pop_front [] = ([], 0xff)
pop_front (b ∷ bs) = (bs, b)

-- The state after the read of the receive buffer, and the byte.
unfoldable pub read_rx : SerialReg → SerialReg × ℕ
unfolding clear_data_ready
read_rx r =
    let (rest, b) = pop_front r.rx_data in
    let lsr = if leb (length r.rx_data) 1 then clear_data_ready r.line_status else r.line_status in
    (record r { line_status = lsr; rx_data = rest }, b)

-- Other registers than the receive buffer and the divisor.
unfoldable pub read_other : SerialReg → ℕ → SerialReg × ℕ
unfolding clear_interrupt
read_other r offset =
    if offset == 1
    then (r, r.interrupt_enable)
    else if offset == 2
    then (
      record r { interrupt_identification = clear_interrupt r.interrupt_identification },
      r.interrupt_identification,
    )
    else if offset == 3
    then (r, r.line_control)
    else if offset == 4
    then (r, r.modem_control)
    else if offset == 5
    then (r, r.line_status)
    else if offset == 6
    then (r, r.modem_status)
    else if offset == 7
    then (r, r.scratch)
    else (r, 0)

unfoldable pub read : SerialReg → ℕ → SerialReg × ℕ
unfolding read_rx read_other
read r offset =
    if offset == 0 && divisor_latch_access r
    then (r, u8 (r.divisor))
    else if offset == 1 && divisor_latch_access r
    then (r, u8 (r.divisor / 256))
    else if offset == 0
    then read_rx r
    else read_other r offset

-- The state after a write, the byte for the console, and whether the pin is raised.
pub record Written : Type 0 where
  pub reg : SerialReg
  pub console : Option ℕ
  pub irq : Bool

abbrev quiet : SerialReg → Written
quiet r = record { reg = r; console = none; irq = false }

-- `receive` of the console thread, and what it shares with the loop back.
unfoldable pub receive : SerialReg → List ℕ → Written
unfolding set_rx_data_available set_data_ready
receive r bytes =
    let on = received_data_available r.interrupt_enable in
    record {
      reg = record r {
        rx_data = r.rx_data ++ bytes;
        interrupt_identification =
            if on
            then set_rx_data_available r.interrupt_identification
            else r.interrupt_identification;
        line_status = set_data_ready r.line_status;
      };
      console = none;
      irq = on;
    }

unfoldable pub write_tx : SerialReg → ℕ → Written
unfolding receive set_tx_room_empty
write_tx r byte =
    if loop_back r
    then receive r (byte ∷ [])
    else let on = tx_holding_register_empty r.interrupt_enable in
      record {
        reg = record r {
          interrupt_identification =
              if on
              then set_tx_room_empty r.interrupt_identification
              else r.interrupt_identification;
        };
        console = some byte;
        irq = on;
      }

unfoldable pub write : SerialReg → ℕ → ℕ → Written
unfolding write_tx
write r offset val =
    let byte = u8 val in
    if offset == 0 && divisor_latch_access r
    then quiet (record r { divisor = bit_or (bit_and (r.divisor) 0xff00) byte })
    else if offset == 1 && divisor_latch_access r
    then quiet (record r { divisor = bit_or (bit_and (r.divisor) 0xff) (byte * 256) })
    else if offset == 0
    then write_tx r byte
    else if offset == 1
    then quiet (record r { interrupt_enable = bit_and byte ier_bits })
    else if offset == 3
    then quiet (record r { line_control = byte })
    else if offset == 4
    then quiet (record r { modem_control = byte })
    else if offset == 7
    then quiet (record r { scratch = byte })
    else quiet r
