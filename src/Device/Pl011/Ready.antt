-- ===== src/Device/Pl011/Ready.antt =====
-- The receive flags of pl011.rs say whether there is a byte to read.
use alioth.Base.{
  subst, ℕ, ◌+◌, ◌-◌, ◌≤◌, ◌≡◌, refl, ap, ◌∙◌, inl, inr, Bool-cases, List, [], ◌∷◌, ◌++◌, length,
  ◌==◌, bit_and, ◌<◌, arith,
}
use alioth.Base.Word.{u16}
use alioth.Base.Bits.{bit, bit_le_one, bit-bit_or, bit-bit_and}
use alioth.Device.Pl011.{
  Pl011Reg, insert, rxfe, rxris, txfe, txris, interrupt_bits, new, popped, rest, read_dr, read,
  receive, write_dr, write_other, write,
}

-- 1 where there is no byte.
abbrev pub no_data : List ℕ → ℕ
no_data [] = 1
no_data (b ∷ bs) = 0

-- RXFE is set exactly if there is no byte, and RXRIS only if there is one.
pub record IsReady (r : Pl011Reg) : Type 0 where
  pub flagged : bit 4 r.flag ≡ no_data r.rx_data
  pub pending : bit 4 r.interrupt_status + no_data r.rx_data ≤ 1

pub new-IsReady : IsReady new
unfolding new
new-IsReady = record { flagged = refl; pending = omega arith }

emptied : (r : Pl011Reg) → IsReady (popped r [])
emptied r = record {
  flagged = omega (arith, bit-bit_or 4 r.flag rxfe, bit_le_one 4 r.flag);
  pending = omega (arith, bit-bit_and 4 r.interrupt_status (0xffff - rxris));
}

popped-IsReady :
    (r : Pl011Reg) (bs : List ℕ) → r.rx_data ≡ bs → IsReady r → IsReady (popped r (rest bs))
popped-IsReady r [] e v = emptied r
popped-IsReady r (b ∷ []) e v = emptied r
popped-IsReady r (b ∷ c ∷ bs) e v =
    let some_left : no_data r.rx_data ≡ 0 = ap no_data e in
    record {
      flagged = v.flagged ∙ some_left;
      pending = omega (arith, bit_le_one 4 r.interrupt_status);
    }

read_dr-IsReady : (r : Pl011Reg) → IsReady r → IsReady (read_dr r).reg
unfolding read_dr
read_dr-IsReady r v = popped-IsReady r r.rx_data refl v

write_other-IsReady :
    (r : Pl011Reg) (offset val : ℕ) → IsReady r → IsReady (write_other r offset val)
unfolding write_other
write_other-IsReady r offset val v = record {
  flagged = ground (arith, v.flagged);
  pending = ground (
    arith,
    v.pending,
    bit-bit_and 4 r.interrupt_status (interrupt_bits - bit_and (u16 val) interrupt_bits),
  );
}

write_dr-IsReady : (r : Pl011Reg) (val : ℕ) → IsReady r → IsReady (write_dr r val).reg
unfolding write_dr
write_dr-IsReady r val v = record {
  flagged = omega (arith, bit-bit_or 4 r.flag txfe, v.flagged);
  pending = omega (arith, bit-bit_or 4 r.interrupt_status txris, v.pending);
}

no_data-append : (xs ys : List ℕ) → 0 < length ys → no_data (xs ++ ys) ≡ 0
no_data-append [] [] h = elim h [ ]
no_data-append [] (y ∷ ys) h = refl
no_data-append (x ∷ xs) ys h = refl

receive-IsReady : (r : Pl011Reg) (bytes : List ℕ) → 0 < length bytes → IsReady (receive r bytes).reg
unfolding receive
receive-IsReady r bytes more = record {
  flagged =
      omega (arith, bit-bit_and 4 r.flag (0xffff - rxfe), no_data-append r.rx_data bytes more);
  pending =
      omega (
        arith,
        bit_le_one 4 (insert r.interrupt_status rxris),
        no_data-append r.rx_data bytes more,
      );
}

-- What happens to the port: accesses of the driver and bytes of the console.
pub data Event : Type 0 where
  read_at : (offset : ℕ) → Event
  write_at : (offset val : ℕ) → Event
  received : (byte : ℕ) (bytes : List ℕ) → Event

unfoldable pub step : Pl011Reg → Event → Pl011Reg
step r (read_at offset) = (read r offset).reg
step r (write_at offset val) = (write r offset val).reg
step r (received byte bytes) = (receive r (byte ∷ bytes)).reg

pub step-IsReady : (r : Pl011Reg) (e : Event) → IsReady r → IsReady (step r e)
unfolding step read write
step-IsReady r (read_at offset) v = elim (Bool-cases (offset == 0)) [
  | inl at ↦
      let is : (read_dr r).reg ≡ (read r offset).reg = rw at in
      subst IsReady is (read_dr-IsReady r v)
  | inr off ↦ let is : r ≡ (read r offset).reg = rw off in subst IsReady is v
]
step-IsReady r (write_at offset val) v = elim (Bool-cases (offset == 0)) [
  | inl at ↦
      let is : (write_dr r val).reg ≡ (write r offset val).reg = rw at in
      subst IsReady is (write_dr-IsReady r val v)
  | inr off ↦
      let is : write_other r offset val ≡ (write r offset val).reg = rw off in
      subst IsReady is (write_other-IsReady r offset val v)
]
step-IsReady r (received byte bytes) v = receive-IsReady r (byte ∷ bytes) (omega arith)

unfoldable pub run : Pl011Reg → List Event → Pl011Reg
unfolding step
run r [] = r
run r (e ∷ es) = run (step r e) es

run_from-IsReady : (es : List Event) (r : Pl011Reg) → IsReady r → IsReady (run r es)
unfolding run
run_from-IsReady [] r v = v
run_from-IsReady (e ∷ es) r v = run_from-IsReady es (step r e) (step-IsReady r e v)

-- However the port is used, from its start on RXFE says whether there is a byte to read, and RXRIS
-- is set only if there is one.
run-IsReady : (es : List Event) → IsReady (run new es)
run-IsReady es = run_from-IsReady es new new-IsReady
