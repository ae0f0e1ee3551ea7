-- ===== src/Virtio/Queue/Split/Linked.antt =====
-- What `get_avail` of split.rs gives for a chain that ends.
use alioth.Base.{
  ℕ, zero, suc, ◌+◌, ◌≤◌, ◌≡◌, refl, sym, Bool, true, false, List, [], ◌∷◌, ◌++◌, append_assoc,
  append-nil, Option, some, Result, ok, err, if◌then◌else◌, get_elem?, length, ◌∙◌, Bool-cases, inl,
  inr, arith,
}
use alioth.Base.Word.{u64}
use alioth.Mem.Mapped.{Ram, Host}
use alioth.Virtio.Queue.Flag.{contains, next, write, indirect}
use alioth.Virtio.Queue.Memory.{Buffers, Fields, read_desc, finish}
use alioth.Virtio.Queue.Split.{
  SplitQueue, Desc, QueueError, panicked, get_desc, desc_avail, wrapped_index,
}
use alioth.Virtio.Queue.Split.Avail.{walk, walk_indirect, push, push_desc, lift, get_avail}

-- The descriptors `ds` are the chain from `id` on: each but the last has NEXT and names the one
-- after it, and none is INDIRECT.
abbrev pub Linked : SplitQueue → ℕ → List Desc → Type 0
Linked q id [] = ⊥
Linked q id (d ∷ []) =
    (get_desc q id ≡ ok d) × (contains d.flag indirect ≡ false) × (contains d.flag next ≡ false)
Linked q id (d ∷ d' ∷ ds) =
    (get_desc q id ≡ ok d)
    × (contains d.flag indirect ≡ false)
    × (contains d.flag next ≡ true)
    × Linked q d.next (d' ∷ ds)

-- The buffers of the descriptors whose WRITE flag is `w`, in the order of the chain.
abbrev pub buffers : Bool → List Desc → List (ℕ × ℕ)
buffers w [] = []
buffers true (d ∷ ds) =
    if contains d.flag write then (d.addr, d.len) ∷ buffers true ds else buffers true ds
buffers false (d ∷ ds) =
    if contains d.flag write then buffers false ds else (d.addr, d.len) ∷ buffers false ds

abbrev pub collect : Buffers → List Desc → Buffers
collect b ds = record {
  readable = b.readable ++ buffers false ds;
  writable = b.writable ++ buffers true ds;
}

-- Buffers that agree in both vectors.
both :
    (r r' w w' : List (ℕ × ℕ))
    → r ≡ r'
    → w ≡ w'
    → ◌≡◌ {A = Buffers}
        (record { readable = r; writable = w })
        (record { readable = r'; writable = w' })
both r r' w w' e f = cc

collect-push :
    (b : Buffers) (d : Desc) (ds : List Desc)
    → collect (push b d.flag d.addr d.len) ds ≡ collect b (d ∷ ds)
unfolding push
collect-push b d ds = elim (Bool-cases (contains d.flag write)) [
  | inl w ↦
      rw w (both _ _ _ _ refl (append_assoc b.writable ((d.addr, d.len) ∷ []) (buffers true ds)))
  | inr r ↦
      rw r (both _ _ _ _ (append_assoc b.readable ((d.addr, d.len) ∷ []) (buffers false ds)) refl)
]

collect-nil : (b : Buffers) → b ≡ collect b []
collect-nil b = both _ _ _ _ (sym (append-nil b.readable)) (sym (append-nil b.writable))

done :
    (b b' : Buffers)
    → b ≡ b'
    → ◌≡◌ {A = Option (Result QueueError Buffers)} (some (ok b)) (some (ok b'))
done b b' e = cc

walk-Linked :
    (fuel : ℕ) (q : SplitQueue) (m : Ram) (h : Host) (id : ℕ) (b : Buffers) (ds : List Desc)
    → Linked q id ds
    → length ds ≤ fuel
    → walk fuel q m h id b ≡ some (ok (collect b ds))
unfolding walk push_desc
walk-Linked fuel q m h id b [] l enough = elim l [ ]
walk-Linked zero q m h id b (d ∷ ds) l enough = absurd (omega arith)
walk-Linked (suc fuel) q m h id b (d ∷ []) (at, plain, ends) enough =
    rw (at, walk)
      (rw plain
        (rw ends (done _ _ (collect-nil (push b d.flag d.addr d.len) ∙ collect-push b d []))))
walk-Linked (suc fuel) q m h id b (d ∷ d' ∷ ds) (at, plain, goes_on, l) enough =
    rw (at, walk)
      (rw plain (
        rw goes_on (
          walk-Linked fuel q m h d.next (push b d.flag d.addr d.len) (d' ∷ ds) l (omega arith)
          ∙ done _ _ (collect-push b d (d' ∷ ds)))))

-- Where the driver queued the head of a chain of `ds` that ends and has no INDIRECT descriptor, as
-- many rounds as it has descriptors are enough, and `get_avail` gives the buffers of the chain:
-- those without WRITE and those with WRITE, each in the order of the chain, under the head's id.
pub get_avail-Linked :
    (fuel : ℕ) (q : SplitQueue) (m : Ram) (h : Host) (index head_id : ℕ) (ds : List Desc)
    → desc_avail q index ≡ true
    → get_elem? q.avail_ring (wrapped_index q index) ≡ some head_id
    → Linked q head_id ds
    → length ds ≤ fuel
    → get_avail fuel q m h index
      ≡ lift
          (finish m head_id 1 (record { readable = buffers false ds; writable = buffers true ds }))
unfolding get_avail
get_avail-Linked fuel q m h index head_id ds on at l enough =
    rw (on, get_avail)
      (rw at (
        rw (walk-Linked fuel q m h head_id (record { readable = []; writable = [] }) ds l enough)
          refl))

-- Where the head is INDIRECT and the first entry of its table is too, `get_avail` panics.
get_avail_panics :
    (fuel : ℕ) (q : SplitQueue) (m : Ram) (h : Host) (index head_id : ℕ) (d : Desc) (f : Fields)
    → desc_avail q index ≡ true
    → get_elem? q.avail_ring (wrapped_index q index) ≡ some head_id
    → get_desc q head_id ≡ ok d
    → contains d.flag indirect ≡ true
    → read_desc m h (u64 d.addr) ≡ some (ok f)
    → contains f.third indirect ≡ true
    → get_avail (suc (suc fuel)) q m h index ≡ some (err panicked)
unfolding get_avail walk push_desc walk_indirect
get_avail_panics fuel q m h index head_id d f on at gives i reads i' =
    let start : d.addr + 0 ≡ d.addr = omega arith in
    rw (on, get_avail)
      (rw at (rw gives (rw i (rw (start, walk_indirect) (rw (reads, walk_indirect) (rw i' refl))))))
