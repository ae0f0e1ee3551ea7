-- ===== src/Virtio/Dev/Blk/ReadOnly.antt =====
-- A read-only device of blk.rs leaves its disk alone.
use alioth.Base.{ℕ, ◌*◌, ◌≡◌, refl, ◌∙◌, true, List, [], ◌∷◌, some, Result, arith}
use alioth.Base.Word.{u64}
use alioth.Mem.Mapped.{Host, Slice}
use alioth.Virtio.Queue.Memory.{DescChain}
use alioth.Virtio.Queue.Handle.{VirtQueue, Queue, Handled}
use alioth.Virtio.Queue.Handle.Keeps.{handle_desc-Keeps}
use alioth.Virtio.Dev.Blk.{
  File, Block, BlkRequest, in_request, Error, with_data, perform, handle_chain, op, handle_queue,
}
use alioth.Virtio.Dev.Blk.Cases.{serve-elim, handle_desc-elim}

module _ {D : Type 0} (f : File D) (flushed : (d : D) → (f.flush d).0 ≡ d) where
  abbrev disk_after : D → Host × Result Error BlkRequest → D
  disk_after d (h, r) = (perform f d h r).0

  in_same :
      (d : D) (h : Host) (data_in : List Slice) (offset : ℕ) (status : Slice)
      → disk_after d (with_data h data_in (λ buf. in_request buf offset status)) ≡ d
  unfolding perform
  in_same d h [] offset status = refl
  in_same d h (buf ∷ []) offset status = refl
  in_same d h (s ∷ t ∷ ss) offset status = refl

  handle_chain_same :
      (b : Block)
      → b.read_only ≡ true
      → (d : D) (h : Host) (chain : DescChain) → (handle_chain f b d h chain).0 ≡ d
  unfolding handle_chain perform
  handle_chain_same b ro d h chain =
      handle_desc-elim (λ o. disk_after d o ≡ d) b h chain refl
        (λ request data_out data_in status split one.
          serve-elim (λ o. disk_after d o ≡ d) b h request data_out data_in status
            (in_same d h data_in (u64 (request.sector * 512)) status) refl
            (λ off. absurd (ground arith)) (flushed d) refl refl)

  -- Where flushing does not change what the disk holds, a call of the read-only device's queue handler leaves the disk as
  -- it was, whatever chains the driver has put into the queue.
  pub handle_queue_same :
      {E Q Index : Type 0}
      → (v : VirtQueue E Q Index) (b : Block) → b.read_only ≡ true
      → (fuel : ℕ) (queue : Queue Q Index) (d : D) (h : Host) (out : Handled E Q Index (D × Host))
      → handle_queue f v b fuel queue (d, h) ≡ some out
      → out.op_state.0 ≡ d
  unfolding handle_queue
  handle_queue_same v b ro fuel queue d h out e =
      handle_desc-Keeps v (op f b) (λ s. s.0 ≡ d)
        (λ s chain kept. handle_chain_same b ro s.0 s.1 chain ∙ kept) fuel queue (d, h) out refl e
