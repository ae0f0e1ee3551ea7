-- ===== src/Mem/Mapped/Transfer/Buffer.antt =====
-- `RamBus::write_range` of mapped.rs from a buffer, which reads as `&[u8]` does, against `write`.
use alioth.Base.{
  ℕ, zero, suc, ◌+◌, ◌-◌, ◌^◌, ◌≤◌, ◌≡◌, refl, ◌∙◌, inl, inr, List, some, Result, ok, err,
  Result-cases, leb, if◌then◌else◌, length, take, drop, length-drop, arith,
}
use alioth.Base.Word.{u64}
use mathlib.Core.Option
use alioth.Mem.Error.{Error, read_failed}
use alioth.Mem.Mapped.{Slice, Ram, Host, get_partial_slice, store, write_slices}
use alioth.Mem.Mapped.Chunk.{IsValid}
use alioth.Mem.Mapped.Write.{write_bytes, write_slices-write_bytes}
use alioth.Mem.Mapped.Transfer.{Read, fill_slices, write_range}

abbrev buffer_exact : List ℕ → (n : ℕ) → Result Error (List ℕ × List ℕ)
buffer_exact bs n = if leb n (length bs) then ok (take n bs, drop n bs) else err (read_failed 0)

abbrev pub buffer : Read (List ℕ)
buffer = record { read_exact = buffer_exact }

-- The bytes of the host and how it ended, without what is left of the buffer.
abbrev pub outcome : Host × Result Error (List ℕ) → Host × Result Error (Unit {0})
outcome (h, ok bs) = (h, ok tt)
outcome (h, err e) = (h, err e)

slice_short : (m : Ram) (gpa n : ℕ) (s : Slice) → get_partial_slice m gpa n ≡ ok s → s.len ≤ n
unfolding get_partial_slice
slice_short m gpa n s e = ground arith

fill-write_slices :
    (fuel : ℕ) (m : Ram) (h : Host) (gpa n : ℕ) (bs : List ℕ)
    → n ≤ length bs
    → Option.map outcome (fill_slices buffer fuel m h (record { gpa = gpa; remain = n }) bs)
      ≡ write_slices fuel m h (record { gpa = gpa; remain = n }) bs
unfolding fill_slices write_slices
fill-write_slices zero m h gpa n bs enough = refl
fill-write_slices (suc fuel) m h gpa zero bs enough = refl
fill-write_slices (suc fuel) m h gpa (suc k) bs enough =
    elim (Result-cases (get_partial_slice m gpa (suc k))) [
      | inl (e, q) ↦ ground (arith, q)
      | inr (s, q) ↦
          let short = slice_short m gpa (suc k) s q in
          ground (
            arith,
            q,
            fill-write_slices fuel m (store h s.ptr (take s.len bs)) (u64 (gpa + s.len))
                (suc k - s.len) (drop s.len bs) (omega (arith, length-drop s.len bs)),
          )
    ]

-- `write_range` from a buffer puts its bytes one by one where their addresses lead, over any number of page
-- ranges, as `write` does; an address that is not mapped stops it, and what it wrote stays.
pub write_range-write_bytes :
    (m : Ram) (h : Host) (gpa : ℕ) (bs : List ℕ)
    → IsValid m
    → gpa + length bs ≤ 2 ^ 64
    → Option.map outcome (write_range buffer m h gpa (length bs) bs) ≡ some (write_bytes m h gpa bs)
unfolding write_range
write_range-write_bytes m h gpa bs v fits =
    fill-write_slices (suc (length bs)) m h gpa (length bs) bs (omega arith)
    ∙ write_slices-write_bytes (suc (length bs)) m h gpa bs v fits (omega arith)
