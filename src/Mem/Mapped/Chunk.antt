-- ===== src/Mem/Mapped/Chunk.antt =====
-- The slices of mapped.rs byte by byte: where in the host each guest address lies.
use alioth.Base.{
  ℕ, ◌+◌, ◌-◌, ◌^◌, ◌<◌, ◌≤◌, min, ◌≡◌, ◌∙◌, sym, ap, ◌⊎◌, inl, inr, Option, none, some,
  Option-cases, ok, err, arith,
}
use mathlib.Core.Option
use alioth.Mem.Error.{not_mapped}
use alioth.Mem.Addressable
use alioth.Mem.Addressable.{SlotBackend, Addressable}
use alioth.Mem.Addressable.Owner.{owner, owner_range, owner_same}
use alioth.Mem.Addressable.Owner
use alioth.Mem.Addressable.Search.{search-eq-owner}
use alioth.Mem.Mapped.{ArcMemPages, pages_backend, Slice, Ram, get_partial_slice}

abbrev pub IsValid : Ram → Type 0
IsValid m = Owner.IsValid m.inner

abbrev pub host_at : ℕ → ℕ × ArcMemPages → ℕ
host_at a (start, p) = p.addr + (a - start)

-- The host address of a guest address.
unfoldable pub host_of : Ram → ℕ → Option ℕ
host_of m a = Option.map (host_at a) (Addressable.search m.inner a)

-- The slice holds the bytes of the guest range from `gpa` on, and some of it at least.
pub record Covers (m : Ram) (gpa n : ℕ) (s : Slice) : Type 0 where
  pub nonempty : 0 < s.len
  pub short : s.len ≤ n
  pub bytes : (k : ℕ) → k < s.len → host_of m (gpa + k) ≡ some (s.ptr + k)

host_in :
    (m : Ram) (gpa start : ℕ) (p : ArcMemPages) (k : ℕ)
    → IsValid m
    → owner m.inner.slots gpa ≡ some (start, p)
    → k < p.size - (gpa - start)
    → host_of m (gpa + k) ≡ some (p.addr + (gpa - start) + k)
unfolding host_of
host_in m gpa start p k v owned h =
    let range = owner_range 0 m.inner.slots gpa start p v owned in
    let there =
      owner_same 0 m.inner.slots gpa (gpa + k) start p v owned (omega arith) (omega arith) in
    rw (search-eq-owner m.inner (gpa + k) v ∙ there) (ap (λ (n : ℕ). some n) (omega arith))

mapped-Covers :
    (m : Ram) (gpa n start : ℕ) (p : ArcMemPages)
    → IsValid m
    → 0 < n
    → gpa + n ≤ 2 ^ 64
    → Addressable.search m.inner gpa ≡ some (start, p)
    → (s : Slice) × (get_partial_slice m gpa n ≡ ok s) × Covers m gpa n s
unfolding get_partial_slice
mapped-Covers m gpa n start p v pos fits e =
    let owned = sym (search-eq-owner m.inner gpa v) ∙ e in
    let range = owner_range 0 m.inner.slots gpa start p v owned in
    (
      record { ptr = p.addr + (gpa - start); len = min (p.size - (gpa - start)) n },
      ground arith,
      record {
        nonempty = omega arith;
        short = omega arith;
        bytes = λ k h. host_in m gpa start p k v owned (omega arith);
      },
    )

-- What `get_partial_slice` gives for a range within 64 bits: a slice that covers a first part of
-- it, or `NotMapped` where its first address is not mapped.
pub get_partial_slice_cases :
    (m : Ram) (gpa n : ℕ)
    → IsValid m
    → 0 < n
    → gpa + n ≤ 2 ^ 64
    → ((host_of m gpa ≡ none) × (get_partial_slice m gpa n ≡ err (not_mapped gpa)))
      ⊎ ((s : Slice) × (get_partial_slice m gpa n ≡ ok s) × Covers m gpa n s)
unfolding host_of get_partial_slice
get_partial_slice_cases m gpa n v pos fits = elim (Option-cases (Addressable.search m.inner gpa)) [
  | inl e ↦ inl (rw e, rw (e, get_partial_slice))
  | inr ((start, p), e) ↦ inr (mapped-Covers m gpa n start p v pos fits e)
]
