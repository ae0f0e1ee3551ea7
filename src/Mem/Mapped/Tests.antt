-- ===== src/Mem/Mapped/Tests.antt =====
-- The theorems on mapped.rs at a guest memory of two page ranges that follow one another and lie
-- apart in the host.
use alioth.Base.{zero, suc, ◌%◌, ◌≡◌, refl, [], ◌∷◌, some, ok, err, arith}
use alioth.Mem.Error.{not_mapped}
use alioth.Mem.Addressable
use alioth.Mem.Mapped.{
  ArcMemPages, pages_backend, Ram, Host, get_partial_slice, store, load, read, write, get_ptr,
  slice_iter, collect, translate_iov,
}
use mathlib.Core.Option
use alioth.Mem.Mapped.Transfer.{write_range}
use alioth.Mem.Mapped.Transfer.Buffer.{buffer, outcome, write_range-write_bytes}
use alioth.Mem.Mapped.Chunk.{IsValid, host_of}
use alioth.Mem.Mapped.Read.{read_bytes, read-eq-read_bytes, join}
use alioth.Mem.Mapped.Write.{write_bytes, write-eq-write_bytes}
use alioth.Mem.Mapped.RoundTrip.{Avoids, NoAlias, write_frame, read-write}
use alioth.Mem.Mapped.Pointer.{read_vector, translate_iov-read_vector}

-- 4 bytes at 0x1000 and 4 bytes at 0x1004.
abbrev low : ArcMemPages
low = record { addr = 0x700; size = 4 }

abbrev high : ArcMemPages
high = record { addr = 0x300; size = 4 }

abbrev ram : Ram
ram = record {
  inner = record {
    slots = record { addr = 0x1000; backend = low } ∷ record { addr = 0x1004; backend = high } ∷ [];
  };
}

abbrev blank : Host
blank a = a % 256

ram-IsValid : IsValid ram
ram-IsValid = omega arith

across : read ram blank 0x1002 4 ≡ some (ok (2 ∷ 3 ∷ 0 ∷ 1 ∷ []))
unfolding read get_partial_slice slice_iter collect load Addressable.search
across = refl

read-eq-read_bytes_example : read ram blank 0x1006 4 ≡ some (err (not_mapped 0x1008))
unfolding read_bytes host_of Addressable.search
read-eq-read_bytes_example =
    read-eq-read_bytes ram blank 0x1006 4 ram-IsValid (omega arith) (omega arith)

write-eq-write_bytes_example :
    write ram blank 0x1003 (9 ∷ 8 ∷ []) ≡ some (write_bytes ram blank 0x1003 (9 ∷ 8 ∷ []))
write-eq-write_bytes_example =
    write-eq-write_bytes ram blank 0x1003 (9 ∷ 8 ∷ []) ram-IsValid (omega arith) (omega arith)

abbrev written : Host
written = (write_bytes ram blank 0x1003 (9 ∷ 8 ∷ [])).0

wrote : write ram blank 0x1003 (9 ∷ 8 ∷ []) ≡ some (written, ok tt)
unfolding write get_partial_slice store write_bytes host_of Addressable.search
wrote = refl

two_bytes : Avoids ram 0x1003 2 0x702
unfolding host_of Addressable.search
two_bytes zero h = ground arith
two_bytes (suc zero) h = ground arith
two_bytes (suc (suc i)) h = absurd (omega arith)

write_frame_example : written 0x702 ≡ 2
write_frame_example =
    write_frame ram blank 0x1003 (9 ∷ 8 ∷ []) 0x702 ram-IsValid (omega arith) (omega arith)
      two_bytes wrote

apart : NoAlias ram 0x1003 2
unfolding host_of Addressable.search
apart zero (suc zero) lt below p e f = ground arith
apart zero zero lt below p e f = absurd (omega arith)
apart zero (suc (suc j)) lt below p e f = absurd (omega arith)
apart (suc i) zero lt below p e f = absurd (omega arith)
apart (suc i) (suc j) lt below p e f = absurd (omega arith)

read-write_example : read ram written 0x1003 2 ≡ some (ok (9 ∷ 8 ∷ []))
read-write_example =
    read-write ram blank 0x1003 (9 ∷ 8 ∷ []) ram-IsValid (omega arith) (omega arith) apart wrote

pointer : get_ptr 2 2 ram 0x1002 ≡ ok 0x702
unfolding get_ptr get_partial_slice Addressable.search
pointer = refl

found : Addressable.search ram.inner 0x1002 ≡ some (0x1000, low)
unfolding Addressable.search
found = refl

translate_iov-read_vector_example :
    join blank (translate_iov ram ((0x1002, 4) ∷ (0x1000, 0) ∷ (0x1007, 1) ∷ []))
    ≡ some (ok (2 ∷ 3 ∷ 0 ∷ 1 ∷ 3 ∷ []))
unfolding read_vector read_bytes host_of Addressable.search
translate_iov-read_vector_example =
    translate_iov-read_vector ram blank ((0x1002, 4) ∷ (0x1000, 0) ∷ (0x1007, 1) ∷ []) ram-IsValid
      (omega arith)

write_range-write_bytes_example :
    Option.map outcome (write_range buffer ram blank 0x1003 2 (9 ∷ 8 ∷ []))
    ≡ some (write_bytes ram blank 0x1003 (9 ∷ 8 ∷ []))
write_range-write_bytes_example =
    write_range-write_bytes ram blank 0x1003 (9 ∷ 8 ∷ []) ram-IsValid (omega arith)
