-- ===== src/Virtio/Dev/Blk/Bounds.antt =====
-- The lengths that the device of blk.rs reports.
use alioth.Base.{
  ℕ, ◌+◌, ◌*◌, ◌≤◌, ◌≡◌, Bool, true, false, List, [], ◌∷◌, Option, none, some, Result, take, drop,
  arith,
}
use alioth.Base.Word.{u64}
use alioth.Mem.Mapped.{Host, Slice, store}
use alioth.Virtio.Queue.Memory.{DescChain}
use alioth.Virtio.Dev.Blk.Cases.{serve-elim, handle_desc-elim}
use alioth.Virtio.Dev.Blk.{
  File, Block, Request, BlkRequest, in_request, out_request, Error, split_last, onto, scatter,
  with_data, serve, perform, in_written, handle_chain,
}

abbrev pub total : List Slice → ℕ
total [] = 0
total (s ∷ ss) = s.len + total ss

scatter_bound : (h : Host) (ss : List Slice) (bs : List ℕ) → (scatter h ss bs).1 ≤ total ss
scatter_bound h [] bs = omega arith
scatter_bound h (s ∷ ss) bs =
    omega (arith, scatter_bound (store h s.ptr (take s.len bs)) ss (drop s.len bs))

-- The buffers but the last one are a byte short of all of them.
abbrev Short : ℕ → Option (List Slice × Slice) → Type 0
Short n none = Unit {0}
Short n (some (front, last)) = total front + last.len ≡ n

onto-Short :
    (s : Slice) (n : ℕ) (o : Option (List Slice × Slice)) → Short n o → Short (s.len + n) (onto s o)
onto-Short s n none e = tt
onto-Short s n (some (front, last)) e = omega arith

split_last-Short : (ss : List Slice) → Short (total ss) (split_last ss)
split_last-Short [] = tt
split_last-Short (s ∷ []) = omega arith
split_last-Short (s ∷ t ∷ ss) =
    onto-Short s (total (t ∷ ss)) (split_last (t ∷ ss)) (split_last-Short (t ∷ ss))

module _ {D : Type 0} (f : File D) (d : D) where
  -- The length that is reported for a request.
  abbrev written : Host × Result Error BlkRequest → ℕ
  written (h, r) = (perform f d h r).2

  in_written_bound : (worked : Bool) (len : ℕ) → in_written f worked len ≤ len + 1
  in_written_bound true len = omega arith
  in_written_bound false len = omega arith

  in_bound :
      (h : Host) (data_in : List Slice) (offset : ℕ) (status : Slice)
      → written (with_data h data_in (λ buf. in_request buf offset status)) ≤ total data_in + 1
  unfolding perform
  in_bound h [] offset status = omega arith
  in_bound h (buf ∷ []) offset status =
      omega (arith, in_written_bound (f.read_exact_at d buf.len offset).1 buf.len)
  in_bound h (s ∷ t ∷ ss) offset status = omega arith

  out_bound :
      (h : Host) (data_out : List Slice) (offset : ℕ) (status : Slice)
      → written (with_data h data_out (λ buf. out_request buf offset status)) ≤ 1
  unfolding perform
  out_bound h [] offset status = omega arith
  out_bound h (buf ∷ []) offset status = omega arith
  out_bound h (s ∷ t ∷ ss) offset status = omega arith

  split_total :
      (n : ℕ) (o : Option (List Slice × Slice)) (front : List Slice) (last : Slice)
      → Short n o
      → o ≡ some (front, last)
      → total front + last.len ≡ n
  split_total n none front last h e = absurd (ground arith)
  split_total n (some (front', last')) front last h e = ground arith

  serve_bound :
      (b : Block) (h : Host) (request : Request) (data_out data_in : List Slice) (status : Slice)
      → written (serve b h request data_out data_in status) ≤ total data_in + 1
  unfolding perform
  serve_bound b h request data_out data_in status =
      serve-elim (λ o. written o ≤ total data_in + 1) b h request data_out data_in status
        (in_bound h data_in (u64 (request.sector * 512)) status) (omega arith)
        (λ off. omega (arith, out_bound h data_out (u64 (request.sector * 512)) status))
        (omega arith) (omega (arith, scatter_bound h data_in b.name)) (omega arith)

  -- Whatever a chain holds and whatever the disk answers, the device reports no more bytes than the buffers
  -- that the driver lets it write have.
  pub handle_chain_bound :
      (b : Block) (h : Host) (chain : DescChain)
      → (handle_chain f b d h chain).2 ≤ total chain.writable
  unfolding handle_chain perform
  handle_chain_bound b h chain =
      handle_desc-elim (λ o. written o ≤ total chain.writable) b h chain (omega arith)
        (λ request data_out data_in status split one. omega (
          arith,
          serve_bound b h request data_out data_in status,
          split_total (total chain.writable) (split_last chain.writable) data_in status
              (split_last-Short chain.writable) split,
          one,
        ))
