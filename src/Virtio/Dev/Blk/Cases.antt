-- ===== src/Virtio/Dev/Blk/Cases.antt =====
-- The requests of blk.rs case by case.
use alioth.Base.{
  ◌*◌, ◌≡◌, refl, inl, inr, false, Bool-cases, List, [], ◌∷◌, Option, none, some, Result, ok, err,
  ◌==◌, arith,
}
use alioth.Base.Word.{u64}
use alioth.Mem.Mapped.{Host, Slice, load}
use alioth.Virtio.Queue.Memory.{DescChain}
use alioth.Virtio.Dev.Blk.{
  Block, Request, BlkRequest, done_request, in_request, out_request, flush_request, Error,
  invalid_buffer, put_status, with_data, get_id, serve, split_last, with_status, with_request,
  with_header, read_request, handle_desc,
}

-- What holds of the outcomes that `serve` has holds of it.
pub serve-elim :
    (P : Host × Result Error BlkRequest → Type 0) (b : Block) (h : Host) (request : Request)
    (data_out data_in : List Slice) (status : Slice)
    → P (with_data h data_in (λ buf. in_request buf (u64 (request.sector * 512)) status))
    → P (put_status h status 1, ok (done_request 1))
    → (b.read_only ≡ false
        → P (with_data h data_out (λ buf. out_request buf (u64 (request.sector * 512)) status)))
    → P (h, ok (flush_request status))
    → P (get_id b h data_in status)
    → P (put_status h status 2, ok (done_request 1))
    → P (serve b h request data_out data_in status)
unfolding serve
serve-elim P b h request data_out data_in status p_in refused p_out flush id unknown =
    elim (Bool-cases (request.type_ == 0)) [
      | inl t ↦ rw t p_in
      | inr t ↦ rw t (elim (Bool-cases (request.type_ == 1)) [
        | inl t ↦
            rw t
              (elim (Bool-cases b.read_only) [ inl ro ↦ rw ro refused | inr ro ↦ rw ro (p_out ro) ])
        | inr t ↦ rw t (elim (Bool-cases (request.type_ == 4)) [
          | inl t ↦ rw t flush
          | inr t ↦
              rw t
                (elim (Bool-cases (request.type_ == 8)) [ inl t ↦ rw t id | inr t ↦ rw t unknown ])
        ])
      ])
    ]

-- What holds of a chain that is refused, and of every request whose buffers are split as they
-- should be, holds of `handle_desc`.
pub handle_desc-elim :
    (P : Host × Result Error BlkRequest → Type 0) (b : Block) (h : Host) (chain : DescChain)
    → P (h, err invalid_buffer)
    → ((request : Request) (data_out data_in : List Slice) (status : Slice)
        → split_last chain.writable ≡ some (data_in, status)
        → status.len ≡ 1
        → P (serve b h request data_out data_in status))
    → P (handle_desc b h chain)
unfolding handle_desc
handle_desc-elim P b h chain refused served = header chain.readable
  where
    status_by :
        (request : Request) (data_out : List Slice) (o : Option (List Slice × Slice))
        → split_last chain.writable ≡ o
        → P (with_status b h request data_out o)
    status_by request data_out none e = refused
    status_by request data_out (some (data_in, status)) e = elim (Bool-cases (status.len == 1)) [
      | inl one ↦ rw one (served request data_out data_in status e (ground arith))
      | inr other ↦ rw other refused
    ]

    request_by :
        (o : Option Request) (data_out : List Slice)
        → P (with_request b h o data_out chain.writable)
    request_by none data_out = refused
    request_by (some request) data_out = status_by request data_out (split_last chain.writable) refl

    header : (readable : List Slice) → P (with_header b h readable chain.writable)
    header [] = refused
    header (hdr ∷ data_out) = request_by (read_request (load h hdr.ptr hdr.len)) data_out
