-- ===== src/Virtio/Queue/Split/Avail.antt =====
-- `get_avail` of split.rs: the walk along a chain of descriptors and through its indirect tables.
-- Neither loop has a bound in the source, so both take fuel here, and `none` is a walk that has not
-- ended.
use alioth.Base.{
  ℕ, zero, suc, ◌+◌, ◌*◌, true, false, [], ◌∷◌, ◌++◌, Option, none, some, Result, ok, err,
  if◌then◌else◌, get_elem?,
}
use alioth.Base.Word.{u64}
use alioth.Mem.Error.{Error}
use alioth.Mem.Mapped.{Ram, Host}
use alioth.Virtio.Queue.Flag.{contains, next, write, indirect}
use alioth.Virtio.Queue.Memory.{Buffers, DescChain, read_desc, desc_size, finish}
use alioth.Virtio.Queue.Split.{
  SplitQueue, Desc, QueueError, memory, panicked, get_desc, desc_avail, wrapped_index,
}

unfoldable pub push : Buffers → ℕ → ℕ → ℕ → Buffers
push b flag addr len =
    if contains flag write
    then record b { writable = b.writable ++ ((addr, len) ∷ []) }
    else record b { readable = b.readable ++ ((addr, len) ∷ []) }

-- The inner loop, at entry `id` of the table at `addr`. The flag is the third field of a
-- descriptor, and the next id the fourth.
unfoldable pub walk_indirect : ℕ → Ram → Host → ℕ → ℕ → Buffers → Option (Result QueueError Buffers)
unfolding push
walk_indirect zero m h addr id b = none
walk_indirect (suc fuel) m h addr id b = elim (read_desc m h (u64 (addr + id * desc_size))) [
  | none ↦ none
  | some (err e) ↦ some (err (memory e))
  | some (ok d) ↦ elim (contains d.third indirect) [
    | true ↦ some (err panicked)
    | false ↦ elim (contains d.third next) [
      | true ↦ walk_indirect fuel m h addr d.fourth (push b d.third d.addr d.len)
      | false ↦ some (ok (push b d.third d.addr d.len))
    ]
  ]
]

-- The buffers of one descriptor of the ring.
unfoldable pub push_desc : ℕ → Ram → Host → Desc → Buffers → Option (Result QueueError Buffers)
unfolding walk_indirect push
push_desc fuel m h d b = elim (contains d.flag indirect) [
  | true ↦ walk_indirect fuel m h d.addr 0 b
  | false ↦ some (ok (push b d.flag d.addr d.len))
]

-- The outer loop. An indirect table is given the fuel that is left.
unfoldable pub walk : ℕ → SplitQueue → Ram → Host → ℕ → Buffers → Option (Result QueueError Buffers)
unfolding push_desc
walk zero q m h id b = none
walk (suc fuel) q m h id b = elim (get_desc q id) [
  | err e ↦ some (err e)
  | ok d ↦ elim (push_desc fuel m h d b) [
    | none ↦ none
    | some (err e) ↦ some (err e)
    | some (ok b') ↦ elim (contains d.flag next) [
      | true ↦ walk fuel q m h d.next b'
      | false ↦ some (ok b')
    ]
  ]
]

-- `?` from an error of the memory to one of the queue.
abbrev pub lift {ℓ} : {A : Type ℓ} → Option (Result Error A) → Option (Result QueueError A)
lift none = none
lift (some (err e)) = some (err (memory e))
lift (some (ok a)) = some (ok a)

-- A ring that is shorter than `size` would be read outside its memory; here the walk stops.
unfoldable pub get_avail :
    ℕ → SplitQueue → Ram → Host → ℕ → Option (Result QueueError (Option DescChain))
unfolding walk
get_avail fuel q m h index = elim (desc_avail q index) [
  | false ↦ some (ok none)
  | true ↦ elim (get_elem? q.avail_ring (wrapped_index q index)) [
    | none ↦ none
    | some head_id ↦ elim (walk fuel q m h head_id (record { readable = []; writable = [] })) [
      | none ↦ none
      | some (err e) ↦ some (err e)
      | some (ok b) ↦ lift (finish m head_id 1 b)
    ]
  ]
]
