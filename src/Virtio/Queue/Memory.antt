-- ===== src/Virtio/Queue/Memory.antt =====
-- What the rings of alioth/src/virtio/queue read of guest memory: `Ram::read_t` of a 16-byte
-- descriptor, and the buffers that a chain collects (`DescChain` of queue.rs).
use alioth.Base.{ℕ, ◌+◌, ◌*◌, List, [], ◌∷◌, Option, none, some, Result, ok, err, take, drop}
use alioth.Mem.Error.{Error}
use alioth.Mem.Mapped.{Ram, Host, Slice, read, translate_iov}

-- An integer from its little-endian bytes.
abbrev pub le : List ℕ → ℕ
le [] = 0
le (b ∷ bs) = b + 256 * le bs

-- `size_of::<Desc>()` of either layout.
abbrev pub desc_size : ℕ
desc_size = 16

-- The four fields of a descriptor: 8, 4, 2 and 2 bytes.
pub record Fields : Type 0 where
  pub addr : ℕ
  pub len : ℕ
  pub third : ℕ
  pub fourth : ℕ

unfoldable pub parse : List ℕ → Fields
parse bs = record {
  addr = le (take 8 bs);
  len = le (take 4 (drop 8 bs));
  third = le (take 2 (drop 12 bs));
  fourth = le (take 2 (drop 14 bs));
}

-- `ram.read_t::<Desc>(addr)`.
unfoldable pub read_desc : Ram → Host → ℕ → Option (Result Error Fields)
unfolding parse
read_desc m h addr = elim (read m h addr desc_size) [
  | none ↦ none
  | some (err e) ↦ some (err e)
  | some (ok bs) ↦ some (ok (parse bs))
]

-- Guest buffers, by address and length: `readable` and `writable` while they are collected.
pub record Buffers : Type 0 where
  pub readable : List (ℕ × ℕ)
  pub writable : List (ℕ × ℕ)

-- `DescChain`.
pub record DescChain : Type 0 where
  pub id : ℕ
  pub delta : ℕ
  pub readable : List Slice
  pub writable : List Slice

-- The end of `get_avail`: both vectors are translated.
unfoldable pub finish : Ram → ℕ → ℕ → Buffers → Option (Result Error (Option DescChain))
finish m id delta b = elim (translate_iov m b.readable) [
  | none ↦ none
  | some (err e) ↦ some (err e)
  | some (ok r) ↦ elim (translate_iov m b.writable) [
    | none ↦ none
    | some (err e) ↦ some (err e)
    | some (ok w) ↦ some (ok (some (record { id = id; delta = delta; readable = r; writable = w })))
  ]
]
