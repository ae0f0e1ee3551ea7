-- ===== src/Mem/Mapped/Write.antt =====
-- `Ram::write` of mapped.rs, slice by slice, against a write of one byte after the other.
use alioth.Base.{
  ℕ, zero, suc, ◌+◌, ◌-◌, ◌^◌, ◌<◌, ◌≤◌, ◌≡◌, refl, ◌∙◌, sym, ap, inl, inr, List, [], ◌∷◌, ◌++◌,
  append-nil, none, some, Bool-cases, Result, ok, err, ◌==◌, length, take, drop, take-append-drop,
  length-take, length-drop, arith,
}
use alioth.Base.Word.{u64}
use alioth.Mem.Error.{Error, not_mapped}
use alioth.Mem.Mapped.{Slice, Ram, Host, get_partial_slice, store, put, write_slices, write}
use alioth.Mem.Mapped.Chunk.{IsValid, host_of, Covers, get_partial_slice_cases}
use alioth.Mem.Mapped.Read.{at_zero, next_at}

-- Each byte goes where its address leads; the first address that leads nowhere stops the write.
unfoldable pub write_bytes : Ram → Host → ℕ → List ℕ → Host × Result Error (Unit {0})
write_bytes m h gpa [] = (h, ok tt)
write_bytes m h gpa (b ∷ bs) = elim (host_of m gpa) [
  | none ↦ (h, err (not_mapped gpa))
  | some p ↦ write_bytes m (put h p b) (gpa + 1) bs
]

pub write_bytes_cons :
    (m : Ram) (h : Host) (gpa p b : ℕ) (bs : List ℕ)
    → host_of m gpa ≡ some p
    → write_bytes m h gpa (b ∷ bs) ≡ write_bytes m (put h p b) (gpa + 1) bs
unfolding write_bytes
write_bytes_cons m h gpa p b bs e = rw (e, write_bytes)

write_bytes_part :
    (m : Ram) (h : Host) (gpa ptr : ℕ) (xs ys : List ℕ)
    → ((i : ℕ) → i < length xs → host_of m (gpa + i) ≡ some (ptr + i))
    → write_bytes m h gpa (xs ++ ys) ≡ write_bytes m (store h ptr xs) (gpa + length xs) ys
unfolding store
write_bytes_part m h gpa ptr [] ys at = ap (λ x. write_bytes m h x ys) (omega arith)
write_bytes_part m h gpa ptr (b ∷ xs) ys at =
    write_bytes_cons m h gpa ptr b (xs ++ ys) (at_zero m gpa ptr (at 0 (omega arith)))
    ∙ write_bytes_part m (put h ptr b) (gpa + 1) (ptr + 1) xs ys
        (λ i below. next_at m gpa ptr i (at (suc i) (omega arith)))
    ∙ ap (λ x. write_bytes m (store h ptr (b ∷ xs)) x ys) {y = gpa + suc (length xs)} (omega arith)

write_bytes_wrap :
    (m : Ram) (h : Host) (a : ℕ) (bs : List ℕ)
    → a + length bs ≤ 2 ^ 64
    → write_bytes m h (u64 a) bs ≡ write_bytes m h a bs
unfolding write_bytes
write_bytes_wrap m h a [] fits = refl
write_bytes_wrap m h a (b ∷ bs) fits = ap (λ x. write_bytes m h x (b ∷ bs)) (omega arith)

-- The first slice of a write, and the rest of the bytes.
split_write :
    (m : Ram) (h : Host) (gpa : ℕ) (buf : List ℕ) (s : Slice)
    → Covers m gpa (length buf) s
    → gpa + length buf ≤ 2 ^ 64
    → write_bytes m h gpa buf
      ≡ write_bytes m (store h s.ptr (take s.len buf)) (u64 (gpa + s.len)) (drop s.len buf)
split_write m h gpa buf s c fits =
    let taken : length (take s.len buf) ≡ s.len = omega (arith, length-take s.len buf, c.short) in
    ap (λ bs. write_bytes m h gpa bs) (sym (take-append-drop s.len buf))
    ∙ write_bytes_part m h gpa s.ptr (take s.len buf) (drop s.len buf)
        (λ i below. c.bytes i (omega arith))
    ∙ ap (λ x. write_bytes m (store h s.ptr (take s.len buf)) (gpa + x) (drop s.len buf)) taken
    ∙ sym (
        write_bytes_wrap m (store h s.ptr (take s.len buf)) (gpa + s.len) (drop s.len buf)
          (omega (arith, length-drop s.len buf, c.short)))

write_unmapped :
    (m : Ram) (h : Host) (gpa : ℕ) (buf : List ℕ)
    → 0 < length buf
    → host_of m gpa ≡ none
    → write_bytes m h gpa buf ≡ (h, err (not_mapped gpa))
unfolding write_bytes
write_unmapped m h gpa [] pos e = elim pos [ ]
write_unmapped m h gpa (b ∷ bs) pos e = rw (e, write_bytes)

fits_left :
    (gpa n : ℕ) (s : Slice) (r : ℕ)
    → gpa + n ≤ 2 ^ 64
    → s.len ≤ n
    → r ≡ n - s.len
    → u64 (gpa + s.len) + r ≤ 2 ^ 64
fits_left gpa n s r fits h e = omega arith

fuel_left :
    (n fuel : ℕ) (s : Slice) (r : ℕ)
    → n < suc fuel
    → 0 < s.len
    → s.len ≤ n
    → r ≡ n - s.len
    → r < fuel
fuel_left n fuel s r h p q e = omega arith

-- A slice that covers the whole range.
whole_write :
    (m : Ram) (h : Host) (gpa : ℕ) (buf : List ℕ) (s : Slice)
    → Covers m gpa (length buf) s
    → s.len ≡ length buf
    → (store h s.ptr buf, ok tt) ≡ write_bytes m h gpa buf
unfolding write_bytes
whole_write m h gpa buf s c e = sym (
    ap (λ bs. write_bytes m h gpa bs) (sym (append-nil buf))
    ∙ write_bytes_part m h gpa s.ptr buf [] (λ i below. c.bytes i (omega arith)))

write_slices_step :
    (fuel : ℕ) (m : Ram) (h : Host) (gpa n : ℕ) (buf : List ℕ) (s : Slice)
    → 0 < n
    → get_partial_slice m gpa n ≡ ok s
    → write_slices (suc fuel) m h (record { gpa = gpa; remain = n }) buf
      ≡ write_slices fuel m
          (store h s.ptr (take s.len buf))
          (record { gpa = u64 (gpa + s.len); remain = n - s.len })
          (drop s.len buf)
unfolding write_slices
write_slices_step fuel m h gpa n buf s pos q = ground arith

pub write_slices-write_bytes :
    (fuel : ℕ) (m : Ram) (h : Host) (gpa : ℕ) (buf : List ℕ)
    → IsValid m
    → gpa + length buf ≤ 2 ^ 64
    → length buf < fuel
    → write_slices fuel m h (record { gpa = gpa; remain = length buf }) buf
      ≡ some (write_bytes m h gpa buf)
unfolding write_slices write_bytes
write_slices-write_bytes zero m h gpa buf v fits enough = elim enough [ ]
write_slices-write_bytes (suc fuel) m h gpa [] v fits enough = refl
write_slices-write_bytes (suc fuel) m h gpa (b ∷ bs) v fits enough =
    let buf = b ∷ bs in
    elim (get_partial_slice_cases m gpa (length buf) v (omega arith) fits) [
      | inl (e, q) ↦ ground arith
      | inr (s, q, c) ↦
          let left : length (drop s.len buf) ≡ length buf - s.len = length-drop s.len buf in
          let h' = store h s.ptr (take s.len buf) in
          write_slices_step fuel m h gpa (length buf) buf s (omega arith) q
          ∙ ap
              (λ r.
                write_slices fuel m h' (record { gpa = u64 (gpa + s.len); remain = r })
                  (drop s.len buf))
              (sym left)
          ∙ write_slices-write_bytes fuel m h' (u64 (gpa + s.len)) (drop s.len buf) v
              (fits_left gpa (length buf) s (length (drop s.len buf)) fits c.short left)
              (fuel_left (length buf) fuel s (length (drop s.len buf)) enough c.nonempty c.short
                left)
          ∙ ap (λ r. some r) (sym (split_write m h gpa buf s c fits))
    ]

-- `write` puts the bytes one by one where their addresses lead, over any number of page ranges; at
-- the first address that is not mapped it stops with `NotMapped`, and what it wrote stays. It
-- always returns.
pub write-eq-write_bytes :
    (m : Ram) (h : Host) (gpa : ℕ) (buf : List ℕ)
    → IsValid m
    → 0 < length buf
    → gpa + length buf ≤ 2 ^ 64
    → write m h gpa buf ≡ some (write_bytes m h gpa buf)
unfolding write
write-eq-write_bytes m h gpa buf v pos fits =
    elim (get_partial_slice_cases m gpa (length buf) v pos fits) [
      | inl (e, q) ↦ ground (arith, write_unmapped m h gpa buf)
      | inr (s, q, c) ↦ elim (Bool-cases (s.len == length buf)) [
        | inl whole ↦
            rw (q, write) (rw whole (ap (λ r. some r) (whole_write m h gpa buf s c (ground arith))))
        | inr part ↦
            rw (q, write)
              (rw part
                (write_slices-write_bytes (suc (length buf)) m h gpa buf v fits (omega arith)))
      ]
    ]
