-- ===== src/Device/Serial/Irq.antt =====
-- When serial.rs raises its pin, and what it then says was the cause.
use alioth.Base.{
  ℕ, ◌%◌, ◌≡◌, ◌⊎◌, refl, Bool, true, false, ◌&&◌, List, [], ◌∷◌, inl, inr, ◌==◌, if◌then◌else◌,
  bit_and, bit_or, Bool-cases, arith,
}
use alioth.Base.Word.{u8}
use alioth.Base.Bits.{bit-bit_or, bit-bit_and}
use alioth.Device.Serial.{
  SerialReg, Written, read, read_other, write, write_tx, receive, set_rx_data_available,
  set_tx_room_empty, clear_interrupt, divisor_latch_access, loop_back, received_data_available,
  tx_holding_register_empty,
}

-- The low four bits of the interrupt identification: 1 for nothing pending.
abbrev pub cause : ℕ → ℕ
cause iir = iir % 16

-- The low four bits of a byte whose low half was replaced by `v`.
nibble : (iir v : ℕ) → cause (bit_or (bit_and iir 0xf0) v) ≡ cause v
nibble iir v = omega (
  arith,
  bit-bit_or 0 (bit_and iir 0xf0) v,
  bit-bit_or 1 (bit_and iir 0xf0) v,
  bit-bit_or 2 (bit_and iir 0xf0) v,
  bit-bit_or 3 (bit_and iir 0xf0) v,
  bit-bit_and 0 iir 0xf0,
  bit-bit_and 1 iir 0xf0,
  bit-bit_and 2 iir 0xf0,
  bit-bit_and 3 iir 0xf0,
)

-- The pin stays low, or is raised for an interrupt that is enabled and named as the cause: 4 for
-- received data, 2 for room to transmit.
abbrev pub CauseGiven : Written → Type 0
CauseGiven w =
    (w.irq ≡ false)
    ⊎ ((received_data_available (w.reg.interrupt_enable) ≡ true)
        × (cause (w.reg.interrupt_identification) ≡ 4))
    ⊎ ((tx_holding_register_empty (w.reg.interrupt_enable) ≡ true)
        × (cause (w.reg.interrupt_identification) ≡ 2))

receive-CauseGiven : (r : SerialReg) (bytes : List ℕ) → CauseGiven (receive r bytes)
unfolding receive set_rx_data_available
receive-CauseGiven r bytes = elim (Bool-cases (received_data_available (r.interrupt_enable))) [
  | inl on ↦ inr (inl (on, rw on (nibble (r.interrupt_identification) 4)))
  | inr off ↦ inl off
]

write_tx-CauseGiven : (r : SerialReg) (byte : ℕ) → CauseGiven (write_tx r byte)
unfolding write_tx set_tx_room_empty
write_tx-CauseGiven r byte = elim (Bool-cases (loop_back r)) [
  | inl back ↦ rw back (receive-CauseGiven r (byte ∷ []))
  | inr out ↦ elim (Bool-cases (tx_holding_register_empty (r.interrupt_enable))) [
    | inl on ↦ rw out (inr (inr (on, rw on (nibble (r.interrupt_identification) 2))))
    | inr off ↦ rw out (inl off)
  ]
]

pick : (b : Bool) (v w : Written) → CauseGiven v → CauseGiven w → CauseGiven (if b then v else w)
pick true v w e f = e
pick false v w e f = f

-- The pin is raised, by a write of the driver or by received bytes, only for an interrupt that the
-- driver enabled, and the interrupt identification then names the cause; a read of it clears it.
pub irq-CauseGiven :
    (r : SerialReg) (offset val : ℕ) (bytes : List ℕ)
    → CauseGiven (write r offset val)
      × CauseGiven (receive r bytes)
      × (cause ((read r 2).0.interrupt_identification) ≡ 1)
unfolding read read_other write clear_interrupt
irq-CauseGiven r offset val bytes = (
  pick (offset == 0 && divisor_latch_access r) _ _ (inl refl) (
      pick (offset == 1 && divisor_latch_access r) _ _ (inl refl) (
        pick (offset == 0) _ _ (write_tx-CauseGiven r (u8 val)) (
          pick (offset == 1) _ _ (inl refl) (
            pick (offset == 3) _ _ (inl refl) (
              pick (offset == 4) _ _ (inl refl) (pick (offset == 7) _ _ (inl refl) (inl refl))))))),
  receive-CauseGiven r bytes,
  nibble (r.interrupt_identification) 1,
)
