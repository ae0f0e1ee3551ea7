-- ===== src/Device/Serial/Fifo.antt =====
-- The bytes that the driver reads of serial.rs, in order.
use alioth.Base.{
  ℕ, zero, suc, ◌+◌, ◌≡◌, refl, ap, ◌∙◌, false, List, [], ◌∷◌, ◌++◌, length, replicate, arith,
}
use alioth.Device.Serial.{SerialReg, read, read_rx, receive, divisor_latch_access, pop_front}

-- The driver reads offset 0 `n` times.
pub drain : ℕ → SerialReg → List ℕ
drain zero r = []
drain (suc n) r = (read r 0).1 ∷ drain n (read r 0).0

read_zero : (r : SerialReg) → divisor_latch_access r ≡ false → read r 0 ≡ read_rx r
unfolding read
read_zero r off = rw off refl

-- One read takes the first byte, or gives 0xff.
drain_step :
    (n : ℕ) (r : SerialReg)
    → divisor_latch_access r ≡ false
    → drain (suc n) r ≡ (pop_front r.rx_data).1 ∷ drain n (read_rx r).0
unfolding drain read_rx
drain_step n r off = ap (λ (p : SerialReg × ℕ). p.1 ∷ drain n p.0) (read_zero r off)

drained :
    (n k : ℕ) (bs : List ℕ) (r : SerialReg)
    → divisor_latch_access r ≡ false
    → r.rx_data ≡ bs
    → n ≡ length bs + k
    → drain n r ≡ bs ++ replicate k 0xff
unfolding drain read_rx
drained zero zero [] r off e count = refl
drained zero zero (b ∷ bs) r off e count = absurd (omega arith)
drained zero (suc k) bs r off e count = absurd (omega arith)
drained (suc n) zero [] r off e count = absurd (omega arith)
drained (suc n) (suc k) [] r off e count =
    let rest = drained n k [] (read_rx r).0 off (rw e refl) (omega arith) in
    drain_step n r off
    ∙ ap (λ l. (pop_front l).1 ∷ drain n (read_rx r).0) e
    ∙ ap (λ l. 0xff ∷ l) rest
drained (suc n) k (b ∷ bs) r off e count =
    let rest = drained n k bs (read_rx r).0 off (rw e refl) (omega arith) in
    drain_step n r off ∙ ap (λ l. (pop_front l).1 ∷ drain n (read_rx r).0) e ∙ ap (λ l. b ∷ l) rest

-- With the divisor latch off, the driver reads the bytes that were there, then those that the
-- console gave, each once and in order, and after them 0xff.
drain-receive :
    (r : SerialReg) (bytes : List ℕ) (k : ℕ)
    → divisor_latch_access r ≡ false
    → drain (length (r.rx_data ++ bytes) + k) (receive r bytes).reg
      ≡ (r.rx_data ++ bytes) ++ replicate k 0xff
unfolding receive
drain-receive r bytes k off =
    drained (length (r.rx_data ++ bytes) + k) k (r.rx_data ++ bytes) (receive r bytes).reg off refl
      refl
