-- ===== src/Virtio/Queue/Packed/Avail.antt =====
-- `get_avail` of packed.rs: the walk along a chain of descriptors. The walk has no bound in the
-- source, so it takes fuel here, and `none` is a walk that has not ended.
use alioth.Base.{
  ◌==◌, ℕ, zero, suc, ◌+◌, ◌*◌, ◌%◌, ◌/◌, true, false, not, [], ◌∷◌, ◌++◌, Option, none, some,
  Result, ok, err, if◌then◌else◌, get_elem?,
}
use alioth.Base.Word.{u16, u64}
use alioth.Mem.Error.{Error}
use alioth.Mem.Mapped.{Ram, Host}
use alioth.Virtio.Queue.Flag.{contains, next, write, indirect}
use alioth.Virtio.Queue.Memory.{Buffers, DescChain, read_desc, desc_size, finish}
use alioth.Virtio.Queue.Packed.{
  PackedQueue, Desc, QueueError, memory, outside_ring, panicked, offset, desc_avail,
}

-- One buffer goes to the end of the vector that its WRITE flag names.
unfoldable pub push : Buffers → ℕ → ℕ → ℕ → Buffers
push b flag addr len =
    if contains flag write
    then record b { writable = b.writable ++ ((addr, len) ∷ []) }
    else record b { readable = b.readable ++ ((addr, len) ∷ []) }

-- `for i in 0..(desc.len / 16)`, with `n` rounds left.
unfoldable pub push_indirect : ℕ → ℕ → Ram → Host → ℕ → Buffers → Option (Result Error Buffers)
unfolding push
push_indirect zero i m h addr b = some (ok b)
push_indirect (suc n) i m h addr b = elim (read_desc m h (u64 (addr + i * desc_size))) [
  | none ↦ none
  | some (err e) ↦ some (err e)
  | some (ok d) ↦ push_indirect n (i + 1) m h addr (push b d.fourth d.addr d.len)
]

unfoldable pub push_desc : Ram → Host → Desc → Buffers → Option (Result Error Buffers)
unfolding push push_indirect
push_desc m h d b =
    if contains d.flag indirect
    then push_indirect (d.len / desc_size) 0 m h d.addr b
    else some (ok (push b d.flag d.addr d.len))

-- What the loop of `get_avail` ends with.
pub record Walked : Type 0 where
  pub id : ℕ
  pub delta : ℕ
  pub buffers : Buffers

-- `?` from an error of the memory to one of the queue.
abbrev pub lift {ℓ} : {A : Type ℓ} → Option (Result Error A) → Option (Result QueueError A)
lift none = none
lift (some (err e)) = some (err (memory e))
lift (some (ok a)) = some (ok a)

-- A descriptor outside the ring would be read outside the ring's memory; here that is an error.
unfoldable pub walk :
    ℕ → PackedQueue → Ram → Host → ℕ → ℕ → Buffers → Option (Result QueueError Walked)
unfolding push_desc
walk zero q m h o delta b = none
walk (suc fuel) q m h o delta b = elim (get_elem? q.desc o) [
  | none ↦ some (err (outside_ring o))
  | some d ↦ elim (push_desc m h d b) [
    | none ↦ none
    | some (err e) ↦ some (err (memory e))
    | some (ok b') ↦ elim (contains d.flag next) [
      | false ↦ some (ok (record { id = d.id; delta = u16 (delta + 1); buffers = b' }))
      | true ↦ elim (q.size == 0) [
        | true ↦ some (err panicked)
        | false ↦ walk fuel q m h (u16 (o + 1) % q.size) (u16 (delta + 1)) b'
      ]
    ]
  ]
]

unfoldable pub get_avail :
    ℕ → PackedQueue → Ram → Host → ℕ → Option (Result QueueError (Option DescChain))
unfolding walk desc_avail finish
get_avail fuel q m h index =
    if not (desc_avail q index)
    then some (ok none)
    else elim (walk fuel q m h (offset index) 0 (record { readable = []; writable = [] })) [
      | none ↦ none
      | some (err e) ↦ some (err e)
      | some (ok w) ↦ lift (finish m w.id w.delta w.buffers)
    ]
