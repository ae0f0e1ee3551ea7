-- ===== src/Mem/Mapped.antt =====
-- alioth/src/mem/mapped.rs: guest RAM as host pages at guest addresses. A page range is its host
-- address and size, and what it holds lies in the host memory, so ranges may share bytes.
-- The locks of `RamBus` are not modelled: each call runs with the layout it finds.
pub mod Chunk
pub mod Read
pub mod Write
pub mod RoundTrip
pub mod Pointer
pub mod Transfer
pub mod Store
mod Tests
use alioth.Base.{
  ℕ, zero, suc, ◌+◌, ◌-◌, ◌*◌, ◌%◌, ◌^◌, ◌<◌, min, ◌≡◌, refl, Bool, true, false, not, ◌||◌, List,
  [], ◌∷◌, ◌++◌, Option, none, some, Result, ok, err, ◌>>=◌, ltb, leb, ◌==◌, if◌then◌else◌, length,
  take, drop, arith,
}
use alioth.Base.Word.{u64}
use mathlib.Core.Option
use alioth.Mem.Error.{Error, exceeds_limit, not_mapped, not_continuous, not_aligned}
use alioth.Mem.Addressable
use alioth.Mem.Addressable.{SlotBackend, Addressable}

-- `ArcMemPages`, less the file descriptor.
pub record ArcMemPages : Type 0 where
  pub addr : ℕ
  pub size : ℕ

instance abbrev pub pages_backend : SlotBackend ArcMemPages
pages_backend = record { size = λ p. p.size }

-- A byte slice in host memory: pointer and length.
pub record Slice : Type 0 where
  pub ptr : ℕ
  pub len : ℕ

-- The bytes of the host.
abbrev pub Host : Type 0
Host = ℕ → ℕ

pub get_valid_range : ArcMemPages → ℕ → ℕ → Result Error Slice
get_valid_range p offset len =
    let last = u64 (u64 (offset + len) + 2 ^ 64 - 1) in
    if leb p.size offset || ltb last offset
    then err (exceeds_limit offset len)
    else ok (record { ptr = p.addr + offset; len = min (p.size - offset) len })

-- `struct Ram`.
pub record Ram : Type 0 where
  pub inner : Addressable ArcMemPages

unfoldable pub get_partial_slice : Ram → ℕ → ℕ → Result Error Slice
unfolding get_valid_range
get_partial_slice m gpa len = elim (Addressable.search m.inner gpa) [
  | none ↦ err (not_mapped gpa)
  | some (start, user_mem) ↦ get_valid_range user_mem (gpa - start) len
]

-- `Iter` and `IterMut`; the `Ram` that they borrow is an argument.
pub record Iter : Type 0 where
  pub gpa : ℕ
  pub remain : ℕ

-- `remain -= len` does not wrap, since a slice is no longer than what was asked for.
unfoldable pub next : Ram → Iter → Option (Result Error Slice × Iter)
next m it = if it.remain == 0 then none else elim (get_partial_slice m it.gpa it.remain) [
  | err e ↦ some (err e, it)
  | ok s ↦ some (ok s, record { gpa = u64 (it.gpa + s.len); remain = it.remain - s.len })
]

-- `for r in iter { … r? … }` with fuel: the slices, or the first error; `none` if fuel ran out.
unfoldable pub collect : ℕ → Ram → Iter → Option (Result Error (List Slice))
unfolding next
collect zero m it = none
collect (suc fuel) m it = elim (next m it) [
  | none ↦ some (ok [])
  | some (err e, it') ↦ some (err e)
  | some (ok s, it') ↦
      Option.map (λ (r : Result Error (List Slice)). r >>= λ ss. ok (s ∷ ss)) (collect fuel m it')
]

unfoldable pub slice_iter : Ram → ℕ → ℕ → Option (Result Error (List Slice))
slice_iter m gpa len = collect (suc len) m (record { gpa = gpa; remain = len })

-- `&host[ptr..ptr + len]` and `copy_from_slice` into it.
unfoldable pub load : Host → ℕ → ℕ → List ℕ
load h ptr zero = []
load h ptr (suc n) = h ptr ∷ load h (ptr + 1) n

abbrev pub put : Host → ℕ → ℕ → Host
put h p v a = if a == p then v else h a

unfoldable pub store : Host → ℕ → List ℕ → Host
store h ptr [] = h
store h ptr (b ∷ bs) = store (put h ptr b) (ptr + 1) bs

unfoldable pub load_all : Host → List Slice → List ℕ
load_all h [] = []
load_all h (s ∷ ss) = load h s.ptr s.len ++ load_all h ss

-- `Ram::read` into a buffer of `n` bytes: the bytes read.
unfoldable pub read : Ram → Host → ℕ → ℕ → Option (Result Error (List ℕ))
unfolding slice_iter load_all
read m h gpa n = elim (get_partial_slice m gpa n) [
  | err e ↦ some (err e)
  | ok s ↦
      if s.len == n
      then some (ok (load h s.ptr n))
      else Option.map (λ (r : Result Error (List Slice)). r >>= λ ss. ok (load_all h ss))
          (slice_iter m gpa n)
]

-- The loop of `Ram::write`; what was copied before an error stays.
unfoldable pub write_slices :
    ℕ → Ram → Host → Iter → List ℕ → Option (Host × Result Error (Unit {0}))
unfolding next
write_slices zero m h it buf = none
write_slices (suc fuel) m h it buf = elim (next m it) [
  | none ↦ some (h, ok tt)
  | some (err e, it') ↦ some (h, err e)
  | some (ok s, it') ↦ write_slices fuel m (store h s.ptr (take s.len buf)) it' (drop s.len buf)
]

unfoldable pub write : Ram → Host → ℕ → List ℕ → Option (Host × Result Error (Unit {0}))
unfolding write_slices
write m h gpa buf = elim (get_partial_slice m gpa (length buf)) [
  | err e ↦ some (h, err e)
  | ok s ↦
      if s.len == length buf
      then some (store h s.ptr buf, ok tt)
      else write_slices (suc (length buf)) m h (record { gpa = gpa; remain = length buf }) buf
]

-- The two checks that `get_slice` and `get_ptr` end with.
checked : Bool → Error → ℕ → ℕ → Result Error ℕ
checked whole e align ptr =
    if not whole
    then err e
    else if not (ptr % align == 0)
    then err (not_aligned ptr align)
    else ok ptr

-- `get_ptr::<T>`, with the size and the alignment of `T`.
unfoldable pub get_ptr : ℕ → ℕ → Ram → ℕ → Result Error ℕ
unfolding checked
get_ptr size align m gpa = do
  s ← get_partial_slice m gpa size
  checked (s.len == size) (not_continuous gpa size) align s.ptr

-- `get_slice::<T>` for `len` items of type `T`; the product wraps in a release build.
unfoldable pub get_slice : ℕ → ℕ → Ram → ℕ → ℕ → Result Error ℕ
unfolding checked
get_slice size align m gpa len =
    let total = u64 (len * size) in
    do
      s ← get_partial_slice m gpa total
      checked (s.len == total) (not_continuous gpa total) align s.ptr

unfoldable pub translate : Ram → ℕ → Result Error ℕ
translate m gpa = do s ← get_partial_slice m gpa 1; ok s.ptr

-- The slices of one buffer before those of the buffers after it; the first error wins.
abbrev pub extend :
    Option (Result Error (List Slice))
    → Option (Result Error (List Slice))
    → Option (Result Error (List Slice))
extend none rest = none
extend (some (err e)) rest = some (err e)
extend (some (ok ss)) rest =
    Option.map (λ (r : Result Error (List Slice)). r >>= λ ts. ok (ss ++ ts)) rest

-- `translate_iov` and `translate_iov_mut`.
unfoldable pub translate_iov : Ram → List (ℕ × ℕ) → Option (Result Error (List Slice))
unfolding slice_iter
translate_iov m [] = some (ok [])
translate_iov m ((gpa, len) ∷ iov) = extend (slice_iter m gpa len) (translate_iov m iov)

-- `RamBus::add` and `RamBus::remove`.
unfoldable pub add : Ram → ℕ → ArcMemPages → Result Error Ram
add m gpa p = do inner ← Addressable.add m.inner gpa p; ok (record { inner = inner })

unfoldable pub remove : Ram → ℕ → Result Error (Ram × ArcMemPages)
remove m gpa = do (inner, p) ← Addressable.remove m.inner gpa; ok (record { inner = inner }, p)
