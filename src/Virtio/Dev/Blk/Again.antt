-- ===== src/Virtio/Dev/Blk/Again.antt =====
-- What a request to blk.rs writes, a later one reads again.
use alioth.Base.{
  ℕ, ◌+◌, ◌*◌, ◌<◌, ◌≤◌, ◌≡◌, refl, ap, sym, subst, ◌∙◌, ◌⊎◌, Bool, true, false, List, [], ◌∷◌,
  some, ok, length, take, arith,
}
use alioth.Base.Word.{u64}
use alioth.Mem.Mapped.{Host, Slice, load, store}
use alioth.Mem.Mapped.Store.{load-store, load-put, length-load, take_whole}
use alioth.Virtio.Queue.Memory.{DescChain}
use alioth.Virtio.Dev.Blk.{
  File, Block, in_request, out_request, serve, read_request, handle_desc, perform, handle_chain,
  answer,
}

-- A chain whose request, of the type and at the sector, lies in a first buffer.
pub record IsRequest (h : Host) (chain : DescChain) (type_ sector : ℕ) (rest : List Slice)
    : Type 0 where
  pub hdr : Slice
  pub readable : chain.readable ≡ hdr ∷ rest
  pub parsed :
      read_request (load h hdr.ptr hdr.len) ≡ some (record { type_ = type_; sector = sector })

-- What a disk promises of a read after a write.
pub record ReadsBack {D : Type 0} (f : File D) : Type 0 where
  pub read-write :
      (d : D) (bs : List ℕ) (offset : ℕ)
      → (f.write_all_at d bs offset).1 ≡ true
      → f.read_exact_at (f.write_all_at d bs offset).0 (length bs) offset ≡ (bs, true)

module _ {D : Type 0} (f : File D) where
  -- A write request with one buffer.
  out_handled :
      (b : Block) (d : D) (h : Host) (chain : DescChain) (sector : ℕ) (buf status : Slice)
      → b.read_only ≡ false
      → IsRequest h chain 1 sector (buf ∷ [])
      → chain.writable ≡ status ∷ []
      → status.len ≡ 1
      → handle_chain f b d h chain
        ≡ perform f d h (ok (out_request buf (u64 (sector * 512)) status))
  unfolding handle_chain handle_desc serve
  out_handled b d h chain sector buf status ro r w one = ground (arith, r.readable, r.parsed)

  in_handled :
      (b : Block) (d : D) (h : Host) (chain : DescChain) (sector : ℕ) (buf status : Slice)
      → IsRequest h chain 0 sector []
      → chain.writable ≡ buf ∷ status ∷ []
      → status.len ≡ 1
      → handle_chain f b d h chain ≡ perform f d h (ok (in_request buf (u64 (sector * 512)) status))
  unfolding handle_chain handle_desc serve
  in_handled b d h chain sector buf status r w one = ground (arith, r.readable, r.parsed)

  answer_ok : (worked : Bool) → answer worked ≡ 0 → worked ≡ true
  answer_ok true e = refl
  answer_ok false e = absurd (ground arith)

  stored_at : (h : Host) (p v : ℕ) → store h p (v ∷ []) p ≡ v
  unfolding store
  stored_at h p v = ground arith

  -- The host memory and the disk after a read request that the disk answers with `bs`.
  in_filled :
      (d : D) (h : Host) (buf status : Slice) (offset : ℕ) (bs : List ℕ)
      → f.read_exact_at d buf.len offset ≡ (bs, true)
      → length bs ≡ buf.len
      → (status.ptr < buf.ptr) ⊎ (buf.ptr + buf.len ≤ status.ptr)
      → let after = (perform f d h (ok (in_request buf offset status))).1 in
        (after status.ptr ≡ 0) × (load after buf.ptr buf.len ≡ bs)
  unfolding perform store
  in_filled d h buf status offset bs e count apart =
      let got = f.read_exact_at d buf.len offset in
      let filled = store h buf.ptr (take buf.len got.0) in
      (
        stored_at filled status.ptr (answer got.1) ∙ ap (λ (x : List ℕ × Bool). answer x.1) e,
        load-put filled status.ptr (answer got.1) buf.ptr buf.len apart
            ∙ ap (λ (x : List ℕ × Bool). load (store h buf.ptr (take buf.len x.0)) buf.ptr buf.len)
                e
            ∙ ap (λ xs. load (store h buf.ptr xs) buf.ptr buf.len) (take_whole bs buf.len count)
            ∙ ap (λ n. load (store h buf.ptr bs) buf.ptr n) (sym count)
            ∙ load-store h buf.ptr bs,
      )

  -- A write request to a device that is not read-only, whose status byte is then OK, and a later read request of
  -- as many bytes at the same sector, however the driver has changed its memory in between: the read request's status byte
  -- is OK, and its buffer, which does not hold that byte, has the bytes that the write request had.
  pub read-after_write :
      ReadsBack f
      → (b : Block) (d : D) (h h' : Host) (out_chain in_chain : DescChain) (sector : ℕ)
        (buf status buf' status' : Slice)
      → b.read_only ≡ false
      → IsRequest h out_chain 1 sector (buf ∷ [])
      → out_chain.writable ≡ status ∷ []
      → status.len ≡ 1
      → (handle_chain f b d h out_chain).1 status.ptr ≡ 0
      → IsRequest h' in_chain 0 sector []
      → in_chain.writable ≡ buf' ∷ status' ∷ []
      → status'.len ≡ 1
      → buf'.len ≡ buf.len
      → (status'.ptr < buf'.ptr) ⊎ (buf'.ptr + buf'.len ≤ status'.ptr)
      → let after = (handle_chain f b (handle_chain f b d h out_chain).0 h' in_chain).1 in
        (after status'.ptr ≡ 0) × (load after buf'.ptr buf'.len ≡ load h buf.ptr buf.len)
  unfolding perform
  read-after_write law b d h h' out_chain in_chain sector buf status buf' status' ro r w one was_ok
        r' w' one' same apart =
      let offset = u64 (sector * 512) in
      let bs = load h buf.ptr buf.len in
      let out = out_handled b d h out_chain sector buf status ro r w one in
      let wrote = f.write_all_at d bs offset in
      let worked = answer_ok wrote.1 (
        sym (stored_at h status.ptr (answer wrote.1))
        ∙ sym (ap (λ (x : D × Host × ℕ). x.1 status.ptr) out)
        ∙ was_ok) in
      let count : length bs ≡ buf'.len = length-load h buf.ptr buf.len ∙ sym same in
      let back =
        ap (λ n. f.read_exact_at wrote.0 n offset) (sym count)
        ∙ law.read-write d bs offset worked in
      let again =
        ap (λ (x : D × Host × ℕ). handle_chain f b x.0 h' in_chain) out
        ∙ in_handled b wrote.0 h' in_chain sector buf' status' r' w' one' in
      subst (λ (x : D × Host × ℕ). (x.1 status'.ptr ≡ 0) × (load x.1 buf'.ptr buf'.len ≡ bs))
        (sym again) (in_filled wrote.0 h' buf' status' offset bs back count apart)
