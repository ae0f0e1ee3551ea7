-- ===== src/Mem/Mapped/Read.antt =====
-- `Ram::read` of mapped.rs, slice by slice, against a read of one byte after the other.
use alioth.Base.{
  ℕ, zero, suc, ◌+◌, ◌-◌, ◌^◌, ◌<◌, ◌≤◌, ◌≡◌, refl, ◌∙◌, ap, inl, inr, List, [], ◌∷◌, ◌++◌,
  append-nil, Option, none, some, Result, >>=-ok, ok, err, ◌>>=◌, arith,
}
use mathlib.Core.Option
use alioth.Base.Word.{u64}
use alioth.Mem.Error.{Error, not_mapped}
use alioth.Mem.Mapped.{Slice, Ram, Host, get_partial_slice, collect, load, load_all, read}
use alioth.Mem.Mapped.Chunk.{IsValid, host_of, Covers, get_partial_slice_cases}

-- The bytes of a guest range, each where its address leads; `NotMapped` names the first address
-- that leads nowhere.
unfoldable pub read_bytes : Ram → Host → ℕ → ℕ → Result Error (List ℕ)
read_bytes m h gpa zero = ok []
read_bytes m h gpa (suc n) = elim (host_of m gpa) [
  | none ↦ err (not_mapped gpa)
  | some p ↦ read_bytes m h (gpa + 1) n >>= λ bs. ok (h p ∷ bs)
]

pub next_at :
    (m : Ram) (gpa ptr i : ℕ)
    → host_of m (gpa + suc i) ≡ some (ptr + suc i)
    → host_of m (gpa + 1 + i) ≡ some (ptr + 1 + i)
next_at m gpa ptr i e = ground arith

pub at_zero :
    (m : Ram) (gpa ptr : ℕ) → host_of m (gpa + 0) ≡ some (ptr + 0) → host_of m gpa ≡ some ptr
at_zero m gpa ptr e = ground arith

pub read_bytes-suc :
    (m : Ram) (h : Host) (gpa p n : ℕ)
    → host_of m gpa ≡ some p
    → read_bytes m h gpa (suc n) ≡ (read_bytes m h (gpa + 1) n >>= λ bs. ok (h p ∷ bs))
unfolding read_bytes
read_bytes-suc m h gpa p n e = rw (e, read_bytes)

cons_part :
    (b : ℕ) (xs : List ℕ) (r t : Result Error (List ℕ))
    → r ≡ (t >>= λ bs. ok (xs ++ bs))
    → (r >>= λ bs. ok (b ∷ bs)) ≡ (t >>= λ bs. ok ((b ∷ xs) ++ bs))
cons_part b xs r (ok bs) e = rw e
cons_part b xs r (err f) e = rw e

-- A first part of the range that lies together in the host is loaded at once.
read_bytes_part :
    (m : Ram) (h : Host) (gpa ptr k r : ℕ)
    → ((i : ℕ) → i < k → host_of m (gpa + i) ≡ some (ptr + i))
    → read_bytes m h gpa (k + r) ≡ (read_bytes m h (gpa + k) r >>= λ bs. ok (load h ptr k ++ bs))
unfolding read_bytes load
read_bytes_part m h gpa ptr zero r at = ground (arith, >>=-ok (read_bytes m h gpa r))
read_bytes_part m h gpa ptr (suc k) r at =
    ap (λ x. read_bytes m h gpa x) {y = suc (k + r)} (omega arith)
    ∙ read_bytes-suc m h gpa ptr (k + r) (at_zero m gpa ptr (at 0 (omega arith)))
    ∙ cons_part (h ptr) (load h (ptr + 1) k) _ _ (
        read_bytes_part m h (gpa + 1) (ptr + 1) k r
          (λ i below. next_at m gpa ptr i (at (suc i) (omega arith)))
        ∙ ap (λ x. read_bytes m h x r >>= λ bs. ok (load h (ptr + 1) k ++ bs)) (omega arith))

abbrev pub join : Host → Option (Result Error (List Slice)) → Option (Result Error (List ℕ))
join h = Option.map (λ (r : Result Error (List Slice)). r >>= λ ss. ok (load_all h ss))

-- The address of an iterator wraps only where nothing remains.
read_bytes_wrap :
    (m : Ram) (h : Host) (a r : ℕ) → a + r ≤ 2 ^ 64 → read_bytes m h (u64 a) r ≡ read_bytes m h a r
unfolding read_bytes
read_bytes_wrap m h a zero fits = refl
read_bytes_wrap m h a (suc r) fits = ap (λ x. read_bytes m h x (suc r)) (omega arith)

collect_step :
    (fuel : ℕ) (m : Ram) (h : Host) (gpa j : ℕ) (s : Slice)
    → get_partial_slice m gpa (suc j) ≡ ok s
    → Covers m gpa (suc j) s
    → gpa + suc j ≤ 2 ^ 64
    → join h (collect fuel m (record { gpa = u64 (gpa + s.len); remain = suc j - s.len }))
      ≡ some (read_bytes m h (u64 (gpa + s.len)) (suc j - s.len))
    → join h (collect (suc fuel) m (record { gpa = gpa; remain = suc j }))
      ≡ some (read_bytes m h gpa (suc j))
unfolding collect load_all
collect_step fuel m h gpa j s q c fits ih = ground (
  arith,
  ih,
  read_bytes_wrap m h (gpa + s.len) (suc j - s.len),
  read_bytes_part m h gpa s.ptr s.len (suc j - s.len) c.bytes,
)

left_fits :
    (gpa j : ℕ) (s : Slice)
    → gpa + suc j ≤ 2 ^ 64
    → 0 < s.len
    → s.len ≤ suc j
    → u64 (gpa + s.len) + (suc j - s.len) ≤ 2 ^ 64
left_fits gpa j s fits h k = omega arith

left_fuel : (s : Slice) (j fuel : ℕ) → suc j < suc fuel → 0 < s.len → suc j - s.len < fuel
left_fuel s j fuel h k = omega arith

-- The slices of a range, loaded, are its bytes.
pub collect-read_bytes :
    (fuel : ℕ) (m : Ram) (h : Host) (gpa n : ℕ)
    → IsValid m
    → gpa + n ≤ 2 ^ 64
    → n < fuel
    → join h (collect fuel m (record { gpa = gpa; remain = n })) ≡ some (read_bytes m h gpa n)
unfolding collect load_all read_bytes
collect-read_bytes zero m h gpa n v fits enough = elim enough [ ]
collect-read_bytes (suc fuel) m h gpa zero v fits enough = refl
collect-read_bytes (suc fuel) m h gpa (suc j) v fits enough =
    elim (get_partial_slice_cases m gpa (suc j) v (omega arith) fits) [
      | inl (e, q) ↦ ground arith
      | inr (s, q, c) ↦ collect_step fuel m h gpa j s q c fits (
          collect-read_bytes fuel m h (u64 (gpa + s.len)) (suc j - s.len) v
            (left_fits gpa j s fits c.nonempty c.short) (left_fuel s j fuel enough c.nonempty))
    ]

unmapped :
    (m : Ram) (h : Host) (gpa n : ℕ)
    → 0 < n
    → host_of m gpa ≡ none
    → read_bytes m h gpa n ≡ err (not_mapped gpa)
unfolding read_bytes
unmapped m h gpa zero pos e = elim pos [ ]
unmapped m h gpa (suc n) pos e = rw (e, read_bytes)

-- `read` gives the bytes of the range one by one, over any number of page ranges, and otherwise
-- `NotMapped` at the first address that is not mapped. It always returns.
pub read-eq-read_bytes :
    (m : Ram) (h : Host) (gpa n : ℕ)
    → IsValid m
    → 0 < n
    → gpa + n ≤ 2 ^ 64
    → read m h gpa n ≡ some (read_bytes m h gpa n)
unfolding read read_bytes
read-eq-read_bytes m h gpa n v pos fits = elim (get_partial_slice_cases m gpa n v pos fits) [
  | inl (e, q) ↦ ground (arith, unmapped m h gpa n)
  | inr (s, q, c) ↦ ground (
    arith,
    collect-read_bytes (suc n) m h gpa n v fits (omega arith),
    read_bytes_part m h gpa s.ptr s.len 0 c.bytes,
    >>=-ok (read_bytes m h gpa n),
    append-nil (load h s.ptr n),
  )
]
