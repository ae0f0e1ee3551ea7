-- ===== src/Device/Pl031/Running.antt =====
-- The clock of pl031.rs runs on from the value that was loaded.
use alioth.Base.{ℕ, ◌+◌, ◌≡◌, ◌≢◌, refl, ap, ◌∙◌, List, [], ◌∷◌, arith}
use alioth.Base.Word.{u32}
use alioth.Device.Pl031.{Pl031Reg, read, write}

-- Writes at given times.
abbrev pub writes : Pl031Reg → List (ℕ × ℕ × ℕ) → Pl031Reg
writes r [] = r
writes r ((now, offset, val) ∷ ws) = writes (write r now offset val) ws

-- None of the writes goes to the load register.
abbrev pub NoLoad : List (ℕ × ℕ × ℕ) → Type 0
NoLoad [] = Unit {0}
NoLoad ((now, offset, val) ∷ ws) = (offset ≢ 8) × NoLoad ws

write_offset :
    (r : Pl031Reg) (now offset val : ℕ) → offset ≢ 8 → (write r now offset val).offset ≡ r.offset
unfolding write
write_offset r now offset val off = ground arith

writes_offset : (r : Pl031Reg) (ws : List (ℕ × ℕ × ℕ)) → NoLoad ws → (writes r ws).offset ≡ r.offset
writes_offset r [] h = refl
writes_offset r ((now, offset, val) ∷ ws) (off, h) =
    writes_offset (write r now offset val) ws h ∙ write_offset r now offset val off

-- After a value is written to the load register, and however the other registers are written after that, a
-- read of the data register so many seconds later gives the value and as many seconds more, in 32 bits.
pub read-writes :
    (r : Pl031Reg) (now later val : ℕ) (ws : List (ℕ × ℕ × ℕ))
    → NoLoad ws
    → read (writes (write r now 8 val) ws) (now + later) 0 ≡ u32 (val + later)
unfolding read write
read-writes r now later val ws h =
    ap (λ o. u32 (o + u32 (now + later))) (writes_offset (write r now 8 val) ws h) ∙ omega arith
