-- ===== src/Mem/Mapped/RoundTrip.antt =====
-- Reading back what `Ram::write` of mapped.rs wrote, and what it leaves alone.
use alioth.Base.{
  some_inj, ℕ, suc, ◌+◌, ◌^◌, ◌<◌, ◌≤◌, ◌≡◌, ◌≢◌, refl, ◌∙◌, sym, ap, inl, inr, List, [], ◌∷◌, some,
  Option-cases, Result, ok, length, arith,
}
use alioth.Mem.Error.{Error}
use alioth.Mem.Mapped.{Ram, Host, put, write}
use alioth.Mem.Mapped.Chunk.{IsValid, host_of}
use alioth.Mem.Mapped.{read}
use alioth.Mem.Mapped.Read.{read_bytes, read_bytes-suc, read-eq-read_bytes}
use alioth.Mem.Mapped.Write.{write_bytes, write_bytes_cons, write-eq-write_bytes}

-- No guest address of the range leads to the host address `p`.
abbrev pub Avoids : Ram → ℕ → ℕ → ℕ → Type 0
Avoids m gpa n p = (i : ℕ) → i < n → host_of m (gpa + i) ≢ some p

-- Two guest addresses of the range lead to two host addresses.
abbrev pub NoAlias : Ram → ℕ → ℕ → Type 0
NoAlias m gpa n =
    (i j : ℕ)
    → i < j
    → j < n
    → (p : ℕ) → host_of m (gpa + i) ≡ some p
    → host_of m (gpa + j) ≢ some p

shift_ne :
    (m : Ram) (gpa i p : ℕ) → host_of m (gpa + suc i) ≢ some p → host_of m (gpa + 1 + i) ≢ some p
shift_ne m gpa i p ne e =
    ne (ap (λ a. host_of m a) {x = gpa + suc i} {y = gpa + 1 + i} (omega arith) ∙ e)

put_other : (h : Host) (q b p : ℕ) → q ≢ p → put h q b p ≡ h p
put_other h q b p ne = ground arith

write_bytes_frame :
    (m : Ram) (h : Host) (gpa : ℕ) (buf : List ℕ) (p : ℕ)
    → Avoids m gpa (length buf) p
    → (write_bytes m h gpa buf).0 p ≡ h p
unfolding write_bytes
write_bytes_frame m h gpa [] p av = refl
write_bytes_frame m h gpa (b ∷ bs) p av = elim (Option-cases (host_of m gpa)) [
  | inl e ↦ rw (e, write_bytes)
  | inr (q, e) ↦
      ap (λ (r : Host × Result Error (Unit {0})). r.0 p) (write_bytes_cons m h gpa q b bs e)
      ∙ write_bytes_frame m (put h q b) (gpa + 1) bs p
          (λ i below. shift_ne m gpa i p (av (suc i) (omega arith)))
      ∙ put_other h q b p (λ same. av 0 (omega arith) (
          ap (λ a. host_of m a) {x = gpa + 0} {y = gpa} (omega arith)
          ∙ e
          ∙ ap (λ (n : ℕ). some n) same))
]

as_bytes :
    (m : Ram) (h : Host) (gpa : ℕ) (buf : List ℕ) {out : Host × Result Error (Unit {0})}
    → IsValid m
    → 0 < length buf
    → gpa + length buf ≤ 2 ^ 64
    → write m h gpa buf ≡ some out
    → write_bytes m h gpa buf ≡ out
as_bytes m h gpa buf v pos fits e =
    some_inj _ _ (sym (write-eq-write_bytes m h gpa buf v pos fits) ∙ e)

-- A write, also one that fails, changes no host byte to which no address of its range leads.
pub write_frame :
    (m : Ram) (h : Host) (gpa : ℕ) (buf : List ℕ) (p : ℕ) {h' : Host} {r : Result Error (Unit {0})}
    → IsValid m
    → 0 < length buf
    → gpa + length buf ≤ 2 ^ 64
    → Avoids m gpa (length buf) p
    → write m h gpa buf ≡ some (h', r)
    → h' p ≡ h p
write_frame m h gpa buf p v pos fits av e =
    ap (λ (o : Host × Result Error (Unit {0})). o.0 p) (sym (as_bytes m h gpa buf v pos fits e))
    ∙ write_bytes_frame m h gpa buf p av

Avoids-rest :
    (m : Ram) (gpa n q : ℕ)
    → NoAlias m gpa (suc n)
    → host_of m gpa ≡ some q
    → Avoids m (gpa + 1) n q
Avoids-rest m gpa n q na e i below = shift_ne m gpa i q (
    na 0 (suc i) (omega arith) (omega arith) q
      (ap (λ a. host_of m a) {x = gpa + 0} {y = gpa} (omega arith) ∙ e))

NoAlias-rest : (m : Ram) (gpa n : ℕ) → NoAlias m gpa (suc n) → NoAlias m (gpa + 1) n
NoAlias-rest m gpa n na i j lt below p e = shift_ne m gpa j p (
    na (suc i) (suc j) (omega arith) (omega arith) p
      (ap (λ a. host_of m a) {x = gpa + suc i} {y = gpa + 1 + i} (omega arith) ∙ e))

put_self : (h : Host) (q b : ℕ) → put h q b q ≡ b
put_self h q b = ground arith

read_bytes-write_bytes :
    (m : Ram) (h : Host) (gpa : ℕ) (buf : List ℕ)
    → NoAlias m gpa (length buf)
    → (write_bytes m h gpa buf).1 ≡ ok tt
    → read_bytes m (write_bytes m h gpa buf).0 gpa (length buf) ≡ ok buf
unfolding read_bytes write_bytes
read_bytes-write_bytes m h gpa [] na e = refl
read_bytes-write_bytes m h gpa (b ∷ bs) na e = elim (Option-cases (host_of m gpa)) [
  | inl f ↦ absurd (ground arith)
  | inr (q, f) ↦
      let h' = (write_bytes m (put h q b) (gpa + 1) bs).0 in
      let step = write_bytes_cons m h gpa q b bs f in
      let rest =
        read_bytes-write_bytes m (put h q b) (gpa + 1) bs (NoAlias-rest m gpa (length bs) na)
          (ap (λ (o : Host × Result Error (Unit {0})). o.1) (sym step) ∙ e) in
      let kept =
        write_bytes_frame m (put h q b) (gpa + 1) bs q (Avoids-rest m gpa (length bs) q na f)
        ∙ put_self h q b in
      ap (λ (o : Host × Result Error (Unit {0})). read_bytes m o.0 gpa (suc (length bs))) step
      ∙ read_bytes-suc m h' gpa q (length bs) f
      ∙ rw (rest, kept)
]

-- What a successful write put into guest memory, a read of the same range gives back, over any
-- number of page ranges, if no two addresses of the range share a host byte.
pub read-write :
    (m : Ram) (h : Host) (gpa : ℕ) (buf : List ℕ) {h' : Host}
    → IsValid m
    → 0 < length buf
    → gpa + length buf ≤ 2 ^ 64
    → NoAlias m gpa (length buf)
    → write m h gpa buf ≡ some (h', ok tt)
    → read m h' gpa (length buf) ≡ some (ok buf)
read-write m h gpa buf {h'} v pos fits na e =
    let w = as_bytes m h gpa buf v pos fits e in
    read-eq-read_bytes m h' gpa (length buf) v pos fits
    ∙ ap (λ r. some r)
        (ap (λ (o : Host × Result Error (Unit {0})). read_bytes m o.0 gpa (length buf)) (sym w)
          ∙ read_bytes-write_bytes m h gpa buf na
              (ap (λ (o : Host × Result Error (Unit {0})). o.1) w))
