-- ===== src/Device/Pl011/Fifo.antt =====
-- The bytes that pass through pl011.rs.
use alioth.Base.{
  ℕ, ◌≡◌, refl, ap, sym, ◌∙◌, inl, inr, true, false, Bool-cases, List, [], ◌∷◌, ◌++◌, append_assoc,
  append-nil, ◌==◌, if◌then◌else◌, arith,
}
use alioth.Base.Bits.{bit}
use alioth.Device.Pl011.{
  Pl011Reg, new, popped, rest, front, read_dr, read, receive, write_dr, write_other, write,
}
use alioth.Device.Pl011.Ready.{
  IsReady, no_data, Event, read_at, write_at, received, step, step-IsReady, run, new-IsReady,
}

-- What the driver takes: the values of the data register that it reads with RXFE clear.
unfoldable pub taken : Pl011Reg → Event → List ℕ
taken r (read_at offset) =
    if offset == 0 then (if bit 4 r.flag == 0 then (read r offset).value ∷ [] else []) else []
taken r (write_at offset val) = []
taken r (received byte bytes) = []

unfoldable pub taken_all : Pl011Reg → List Event → List ℕ
unfolding taken
taken_all r [] = []
taken_all r (e ∷ es) = taken r e ++ taken_all (step r e) es

abbrev pub given : List Event → List ℕ
given [] = []
given (read_at offset ∷ es) = given es
given (write_at offset val ∷ es) = given es
given (received byte bytes ∷ es) = (byte ∷ bytes) ++ given es

-- What one event gives.
abbrev given_by : Event → List ℕ
given_by (read_at offset) = []
given_by (write_at offset val) = []
given_by (received byte bytes) = byte ∷ bytes

given-cons : (e : Event) (es : List Event) → given (e ∷ es) ≡ given_by e ++ given es
given-cons (read_at offset) es = refl
given-cons (write_at offset val) es = refl
given-cons (received byte bytes) es = refl

popped_data : (r : Pl011Reg) (bs : List ℕ) → (popped r bs).rx_data ≡ bs
popped_data r [] = refl
popped_data r (b ∷ bs) = refl

-- A read of the data register.
split_front :
    (r : Pl011Reg) (bs : List ℕ)
    → bit 4 r.flag ≡ no_data bs
    → bs ≡ (if bit 4 r.flag == 0 then front bs ∷ [] else []) ++ rest bs
split_front r [] e = ground arith
split_front r (b ∷ bs) e = ground arith

write_other_data : (r : Pl011Reg) (offset val : ℕ) → (write_other r offset val).rx_data ≡ r.rx_data
unfolding write_other
write_other_data r offset val = ground arith

abbrev takes : Pl011Reg → List ℕ
takes r = if bit 4 r.flag == 0 then front r.rx_data ∷ [] else []

taken_zero : (r : Pl011Reg) (offset : ℕ) → (offset == 0) ≡ true → taken r (read_at offset) ≡ takes r
unfolding taken read read_dr
taken_zero r offset at = rw at refl

read_zero :
    (r : Pl011Reg) (offset : ℕ)
    → (offset == 0) ≡ true
    → (read r offset).reg.rx_data ≡ rest r.rx_data
unfolding read read_dr
read_zero r offset at = rw at (popped_data r (rest r.rx_data))

taken_off :
    (r : Pl011Reg) (offset : ℕ)
    → (offset == 0) ≡ false
    → taken r (read_at offset) ++ (read r offset).reg.rx_data ≡ r.rx_data
unfolding taken read
taken_off r offset off = rw off refl

write_data : (r : Pl011Reg) (offset val : ℕ) → (write r offset val).reg.rx_data ≡ r.rx_data
unfolding write write_dr
write_data r offset val = elim (Bool-cases (offset == 0)) [
  | inl at ↦ rw at refl
  | inr off ↦ rw off (write_other_data r offset val)
]

step_data :
    (r : Pl011Reg) (e : Event)
    → IsReady r
    → r.rx_data ++ given_by e ≡ taken r e ++ (step r e).rx_data
unfolding step taken receive
step_data r (read_at offset) v = append-nil r.rx_data ∙ (elim (Bool-cases (offset == 0)) [
  | inl at ↦
      split_front r r.rx_data v.flagged
      ∙ ap (λ bs. takes r ++ bs) (sym (read_zero r offset at))
      ∙ ap (λ bs. bs ++ (read r offset).reg.rx_data) (sym (taken_zero r offset at))
  | inr off ↦ sym (taken_off r offset off)
])
step_data r (write_at offset val) v = append-nil r.rx_data ∙ sym (write_data r offset val)
step_data r (received byte bytes) v = refl

run_data :
    (es : List Event) (r : Pl011Reg)
    → IsReady r
    → r.rx_data ++ given es ≡ taken_all r es ++ (run r es).rx_data
unfolding taken_all run
run_data [] r v = append-nil r.rx_data
run_data (e ∷ es) r v =
    ap (λ g. r.rx_data ++ g) (given-cons e es)
    ∙ sym (append_assoc r.rx_data (given_by e) (given es))
    ∙ ap (λ bs. bs ++ given es) (step_data r e v)
    ∙ append_assoc (taken r e) (step r e).rx_data (given es)
    ∙ ap (λ bs. taken r e ++ bs) (run_data es (step r e) (step-IsReady r e v))
    ∙ sym (append_assoc (taken r e) (taken_all (step r e) es) (run (step r e) es).rx_data)

-- However the driver, the console and the other registers are used, what the driver has taken from the data
-- register, while RXFE was clear, and then what waits there is what the console gave, in order.
pub taken-given : (es : List Event) → taken_all new es ++ (run new es).rx_data ≡ given es
unfolding new
taken-given es = sym (run_data es new new-IsReady)
