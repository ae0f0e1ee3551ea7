-- ===== src/Mem/Mapped/Pointer.antt =====
-- Pointers and slices into guest memory, from mapped.rs: `get_ptr`, `translate` and the vectors of
-- `translate_iov`; and what an access of no bytes does.

use alioth.Base.{
  some_inj, append_assoc, ℕ, suc, ◌+◌, ◌-◌, ◌%◌, ◌^◌, ◌<◌, ◌≤◌, ◌≡◌, refl, ◌∙◌, sym, ap, inl, inr,
  List, [], ◌∷◌, ◌++◌, Option, none, some, Result, ok, err, ◌>>=◌, ◌==◌, if◌then◌else◌, arith,
}
use alioth.Mem.Error.{Error}
use alioth.Mem.Mapped.{ArcMemPages, Slice, Ram, Host, get_partial_slice}
use alioth.Mem.Mapped.Chunk.{IsValid, host_of, get_partial_slice_cases}
use alioth.Mem.Error.{exceeds_limit}
use alioth.Mem.Addressable
use alioth.Mem.Addressable.Owner.{owner_range}
use alioth.Mem.Addressable.Search.{search-eq-owner}
use alioth.Mem.Mapped.{
  pages_backend, read, get_ptr, extend, load, slice_iter, translate_iov, load_all,
}
use alioth.Mem.Mapped.Read.{read_bytes, join, collect-read_bytes}

-- A pointer that `get_ptr` gives is aligned, and the bytes of the value lie together behind it.
get_ptr_lem :
    (size align : ℕ) (m : Ram) (gpa p : ℕ)
    → IsValid m
    → 0 < size
    → gpa + size ≤ 2 ^ 64
    → get_ptr size align m gpa ≡ ok p
    → (p % align ≡ 0) × ((k : ℕ) → k < size → host_of m (gpa + k) ≡ some (p + k))
unfolding get_ptr
get_ptr_lem size align m gpa p v pos fits e = elim (get_partial_slice_cases m gpa size v pos fits) [
  | inl (f, q) ↦ absurd (ground arith)
  | inr (s, q, c) ↦
      let whole : (s.len ≡ size) × (s.ptr ≡ p) × (p % align ≡ 0) =
        (ground arith, ground arith, ground arith) in
      (whole.2, λ k below. c.bytes k (omega arith) ∙ ap (λ (n : ℕ). some n) (omega arith))
]

-- An access of no bytes succeeds at the first address of a page range, and anywhere else in it
-- fails with `ExceedsLimit`.
read_empty :
    (m : Ram) (h : Host) (gpa start : ℕ) (p : ArcMemPages)
    → IsValid m
    → Addressable.search m.inner gpa ≡ some (start, p)
    → read m h gpa 0 ≡ some (if gpa == start then ok [] else err (exceeds_limit (gpa - start) 0))
unfolding read get_partial_slice load
read_empty m h gpa start p v e =
    let range =
      owner_range 0 m.inner.slots gpa start p v (sym (search-eq-owner m.inner gpa v) ∙ e) in
    ground arith

-- The bytes of the buffers of a vector, one buffer after the other.
unfoldable pub read_vector : Ram → Host → List (ℕ × ℕ) → Result Error (List ℕ)
read_vector m h [] = ok []
read_vector m h ((gpa, len) ∷ iov) =
    read_bytes m h gpa len >>= λ bs. read_vector m h iov >>= λ rest. ok (bs ++ rest)

abbrev pub AllFit : List (ℕ × ℕ) → Type 0
AllFit [] = Unit
AllFit ((gpa, len) ∷ iov) = (gpa + len ≤ 2 ^ 64) × AllFit iov

load_all-append :
    (h : Host) (ss ts : List Slice) → load_all h (ss ++ ts) ≡ load_all h ss ++ load_all h ts
unfolding load_all
load_all-append h [] ts = refl
load_all-append h (s ∷ ss) ts =
    rw (load_all-append h ss ts)
      (sym (append_assoc (load h s.ptr s.len) (load_all h ss) (load_all h ts)))

join-extend :
    (h : Host) (o t : Option (Result Error (List Slice))) (b r : Result Error (List ℕ))
    → join h o ≡ some b
    → join h t ≡ some r
    → join h (extend o t) ≡ some (b >>= λ bs. r >>= λ rest. ok (bs ++ rest))
join-extend h none t b r p q = cc
join-extend h (some (err e)) t b r p q = rw (← some_inj _ _ p)
join-extend h (some (ok ss)) none b r p q = cc
join-extend h (some (ok ss)) (some (err e)) b r p q = rw (← some_inj _ _ p, ← some_inj _ _ q)
join-extend h (some (ok ss)) (some (ok ts)) b r p q =
    rw (← some_inj _ _ p, ← some_inj _ _ q) (rw (load_all-append h ss ts))

-- The slices that `translate_iov` gives hold the bytes of the vector's buffers, in order; it fails
-- with `NotMapped` at the first address that is not mapped, and always returns.
pub translate_iov-read_vector :
    (m : Ram) (h : Host) (iov : List (ℕ × ℕ))
    → IsValid m
    → AllFit iov
    → join h (translate_iov m iov) ≡ some (read_vector m h iov)
unfolding translate_iov read_vector load_all
translate_iov-read_vector m h [] v fits = refl
translate_iov-read_vector m h ((gpa, len) ∷ iov) v fits =
    join-extend h (slice_iter m gpa len) (translate_iov m iov) _ _
      (collect-read_bytes (suc len) m h gpa len v fits.0 (omega arith))
      (translate_iov-read_vector m h iov v fits.1)
