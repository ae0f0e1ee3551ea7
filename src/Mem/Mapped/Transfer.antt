-- ===== src/Mem/Mapped/Transfer.antt =====
-- alioth/src/mem/mapped.rs: `RamBus::read_range` and `write_range`, which pass the slices of a
-- range to a writer or fill them from a reader.
pub mod Buffer
use alioth.Base.{ℕ, zero, suc, List, Option, none, some, Result, ok, err}
use alioth.Mem.Error.{Error}
use alioth.Mem.Mapped.{Ram, Host, Iter, next, load, store}

-- `Read::read_exact` of a source: the bytes, or why there are none. What a failing read has put
-- into its buffer is unspecified; here it puts nothing.
pub record Read {ℓ} (S : Type ℓ) : Type ℓ where
  pub read_exact : S → (n : ℕ) → Result Error (List ℕ × S)

-- `Write::write_all` of a destination.
pub record Write {ℓ} (S : Type ℓ) : Type ℓ where
  pub write_all : S → List ℕ → Result Error S

module _ {S : Type 0} (rd : Read S) where
  unfoldable pub fill_slices : ℕ → Ram → Host → Iter → S → Option (Host × Result Error S)
  unfolding next
  fill_slices zero m h it src = none
  fill_slices (suc fuel) m h it src = elim (next m it) [
    | none ↦ some (h, ok src)
    | some (err e, it') ↦ some (h, err e)
    | some (ok s, it') ↦ elim (rd.read_exact src s.len) [
      | err e ↦ some (h, err e)
      | ok (bytes, src') ↦ fill_slices fuel m (store h s.ptr bytes) it' src'
    ]
  ]

  -- One round more than there are bytes.
  unfoldable pub write_range : Ram → Host → (gpa len : ℕ) → S → Option (Host × Result Error S)
  unfolding fill_slices
  write_range m h gpa len src = fill_slices (suc len) m h (record { gpa = gpa; remain = len }) src

module _ {S : Type 0} (wr : Write S) where
  unfoldable pub drain_slices : ℕ → Ram → Host → Iter → S → Option (Result Error S)
  unfolding next
  drain_slices zero m h it dst = none
  drain_slices (suc fuel) m h it dst = elim (next m it) [
    | none ↦ some (ok dst)
    | some (err e, it') ↦ some (err e)
    | some (ok s, it') ↦ elim (wr.write_all dst (load h s.ptr s.len)) [
      | err e ↦ some (err e)
      | ok dst' ↦ drain_slices fuel m h it' dst'
    ]
  ]

  unfoldable pub read_range : Ram → Host → (gpa len : ℕ) → S → Option (Result Error S)
  unfolding drain_slices
  read_range m h gpa len dst = drain_slices (suc len) m h (record { gpa = gpa; remain = len }) dst
