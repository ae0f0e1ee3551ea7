-- ===== src/Device/Serial/Ready.antt =====
-- The line status of serial.rs tells whether there is a byte to read.
use alioth.Base.{
  ℕ, ◌<◌, ◌≡◌, Bool, true, false, ◌&&◌, List, [], ◌∷◌, leb, ◌==◌, if◌then◌else◌, length,
  length-append, arith,
}
use alioth.Base.Word.{u8}
use alioth.Base.Bits.{bit, bit-bit_or, bit-bit_and}
use alioth.Device.Serial.{
  SerialReg, Written, read, read_rx, read_other, write, write_tx, receive, set_data_ready,
  clear_data_ready, divisor_latch_access, loop_back, pop_front,
}

-- DATA_READY is set exactly if there is a byte.
abbrev pub IsReady : SerialReg → Type 0
IsReady r = (bit 0 (r.line_status) == 1) ≡ leb 1 (length r.rx_data)

ready_set : (lsr : ℕ) → (bit 0 (set_data_ready lsr) == 1) ≡ true
unfolding set_data_ready
ready_set lsr = ground (arith, bit-bit_or 0 lsr 1)

ready_clear : (lsr : ℕ) → (bit 0 (clear_data_ready lsr) == 1) ≡ false
unfolding clear_data_ready
ready_clear lsr = ground (arith, bit-bit_and 0 lsr 0xfe)

-- The line status and the bytes after the first of them is taken.
taken :
    (lsr : ℕ) (bs : List ℕ)
    → (bit 0 lsr == 1) ≡ leb 1 (length bs)
    → (bit 0 (if leb (length bs) 1 then clear_data_ready lsr else lsr) == 1)
      ≡ leb 1 (length (pop_front bs).0)
taken lsr [] e = ready_clear lsr
taken lsr (b ∷ []) e = ready_clear lsr
taken lsr (b ∷ c ∷ bs) e = ground arith

read_rx-IsReady : (r : SerialReg) → IsReady r → IsReady (read_rx r).0
unfolding read_rx
read_rx-IsReady r e = taken (r.line_status) r.rx_data e

-- Either way of a test.
pick_read :
    (b : Bool) (x y : SerialReg × ℕ) → IsReady x.0 → IsReady y.0 → IsReady (if b then x else y).0
pick_read true x y e f = e
pick_read false x y e f = f

pick_write :
    (b : Bool) (x y : Written) → IsReady x.reg → IsReady y.reg → IsReady (if b then x else y).reg
pick_write true x y e f = e
pick_write false x y e f = f

receive-IsReady :
    (r : SerialReg) (bytes : List ℕ) → 0 < length bytes → IsReady (receive r bytes).reg
unfolding receive
receive-IsReady r bytes some_byte =
    ground (arith, ready_set (r.line_status), length-append r.rx_data bytes)

write_tx-IsReady : (r : SerialReg) (byte : ℕ) → IsReady r → IsReady (write_tx r byte).reg
unfolding write_tx
write_tx-IsReady r byte e =
    pick_write (loop_back r) _ _ (receive-IsReady r (byte ∷ []) (omega arith)) e

read_other-IsReady : (r : SerialReg) (offset : ℕ) → IsReady r → IsReady (read_other r offset).0
unfolding read_other
read_other-IsReady r offset e = pick_read (offset == 1) _ _ e (
    pick_read (offset == 2) _ _ e (
      pick_read (offset == 3) _ _ e (
        pick_read (offset == 4) _ _ e (
          pick_read (offset == 5) _ _ e
            (pick_read (offset == 6) _ _ e (pick_read (offset == 7) _ _ e e))))))

-- Every read and write of the driver, and every receipt of at least one byte, keeps it so.
access-IsReady :
    (r : SerialReg) (offset val : ℕ) (bytes : List ℕ)
    → IsReady r
    → 0 < length bytes
    → IsReady (read r offset).0 × IsReady (write r offset val).reg × IsReady (receive r bytes).reg
unfolding read write
access-IsReady r offset val bytes e some_byte = (
  pick_read (offset == 0 && divisor_latch_access r) _ _ e (
      pick_read (offset == 1 && divisor_latch_access r) _ _ e
        (pick_read (offset == 0) _ _ (read_rx-IsReady r e) (read_other-IsReady r offset e))),
  pick_write (offset == 0 && divisor_latch_access r) _ _ e (
      pick_write (offset == 1 && divisor_latch_access r) _ _ e (
        pick_write (offset == 0) _ _ (write_tx-IsReady r (u8 val) e) (
          pick_write (offset == 1) _ _ e (
            pick_write (offset == 3) _ _ e
              (pick_write (offset == 4) _ _ e (pick_write (offset == 7) _ _ e e)))))),
  receive-IsReady r bytes some_byte,
)
