-- ===== src/Virtio/Dev/Blk.antt =====
-- alioth/src/virtio/dev/blk.rs: the block device, with the disk behind an interface. The worker that
-- waits for each request in turn (mio) is modelled.
pub mod Cases
pub mod Bounds
pub mod ReadOnly
pub mod Again
mod Tests
use alioth.Base.{
  ℕ, zero, suc, ◌+◌, ◌-◌, ◌*◌, ◌≡◌, Bool, true, false, min, List, [], ◌∷◌, ◌++◌, Option, none, some,
  ◌==◌, if◌then◌else◌, Result, ok, err, length, take, drop,
}
use alioth.Base.Word.{u32, u64}
use alioth.Mem.Emulated.{from_le_bytes}
use alioth.Mem.Mapped.{Host, Slice, load, store}
use alioth.Virtio.Queue.Memory.{DescChain}
use alioth.Virtio.Queue.Handle
use alioth.Virtio.Queue.Handle.{VirtQueue, Queue, Handled, Status, done}

-- The disk: reads and writes at an offset, and whether they worked. A read that fails may have
-- filled its buffer in part.
pub record File (D : Type 0) : Type 0 where
  pub read_exact_at : D → (n offset : ℕ) → List ℕ × Bool
  pub write_all_at : D → List ℕ → (offset : ℕ) → D × Bool
  pub flush : D → D × Bool

-- What the requests depend on: the name as bytes, and whether the feature RO is offered.
pub record Block : Type 0 where
  pub name : List ℕ
  pub read_only : Bool

pub record Request : Type 0 where
  pub type_ : ℕ
  pub sector : ℕ

pub data BlkRequest : Type 0 where
  done_request : (written : ℕ) → BlkRequest
  in_request : (buf : Slice) (offset : ℕ) (status : Slice) → BlkRequest
  out_request : (buf : Slice) (offset : ℕ) (status : Slice) → BlkRequest
  flush_request : (status : Slice) → BlkRequest

pub data Error : Type 0 where
  invalid_buffer : Error

abbrev pub status_ok : ℕ
status_ok = 0

abbrev pub status_ioerr : ℕ
status_ioerr = 1

abbrev pub status_unsupp : ℕ
status_unsupp = 2

abbrev pub put_status : Host → Slice → ℕ → Host
put_status h status val = store h status.ptr (val ∷ [])

-- `Request::read_from_bytes`, for exactly 16 bytes.
unfoldable pub read_request : List ℕ → Option Request
read_request hdr =
    if length hdr == 16
    then some (record {
      type_ = from_le_bytes (take 4 hdr);
      sector = from_le_bytes (take 8 (drop 8 hdr));
    })
    else none

abbrev onto : Slice → Option (List Slice × Slice) → Option (List Slice × Slice)
onto s none = none
onto s (some (front, last)) = some (s ∷ front, last)

-- `[data_in @ .., status_buf]`
abbrev pub split_last : List Slice → Option (List Slice × Slice)
split_last [] = none
split_last (s ∷ []) = some ([], s)
split_last (s ∷ t ∷ ss) = onto s (split_last (t ∷ ss))

-- `read_vectored` of a byte slice: the buffers are filled in order. Also how many bytes it gives.
abbrev pub scatter : Host → List Slice → List ℕ → Host × ℕ
scatter h [] bs = (h, 0)
scatter h (s ∷ ss) bs =
    let (h', count) = scatter (store h s.ptr (take s.len bs)) ss (drop s.len bs) in
    (h', min s.len (length bs) + count)

-- `[data] = data_in` and the request with it.
abbrev pub with_data : Host → List Slice → (Slice → BlkRequest) → Host × Result Error BlkRequest
with_data h (buf ∷ []) request = (h, ok (request buf))
with_data h [] request = (h, err invalid_buffer)
with_data h (s ∷ t ∷ ss) request = (h, err invalid_buffer)

abbrev pub get_id : Block → Host → List Slice → (status : Slice) → Host × Result Error BlkRequest
get_id b h data_in status =
    let (h', count) = scatter h data_in b.name in
    (put_status h' status status_ok, ok (done_request (u32 (1 + u32 count))))

-- The request by its type.
unfoldable pub serve :
    Block
    → Host
    → Request
    → (data_out data_in : List Slice) → (status : Slice) → Host × Result Error BlkRequest
serve b h request data_out data_in status =
    let offset = u64 (request.sector * 512) in
    if request.type_ == 0
    then with_data h data_in (λ buf. in_request buf offset status)
    else if request.type_ == 1
    then (if b.read_only
        then (put_status h status status_ioerr, ok (done_request 1))
        else with_data h data_out (λ buf. out_request buf offset status))
    else if request.type_ == 4
    then (h, ok (flush_request status))
    else if request.type_ == 8
    then get_id b h data_in status
    else (put_status h status status_unsupp, ok (done_request 1))

-- The patterns that a chain has to fit, in their order.
abbrev pub with_status :
    Block
    → Host
    → Request
    → (data_out : List Slice) → Option (List Slice × Slice)
    → Host × Result Error BlkRequest
with_status b h request data_out none = (h, err invalid_buffer)
with_status b h request data_out (some (data_in, status)) =
    let served = serve b h request data_out data_in status in
    if status.len == 1 then served else (h, err invalid_buffer)

abbrev pub with_request :
    Block
    → Host
    → Option Request
    → (data_out writable : List Slice) → Host × Result Error BlkRequest
with_request b h none data_out writable = (h, err invalid_buffer)
with_request b h (some request) data_out writable =
    with_status b h request data_out (split_last writable)

abbrev pub with_header :
    Block → Host → (readable writable : List Slice) → Host × Result Error BlkRequest
with_header b h [] writable = (h, err invalid_buffer)
with_header b h (hdr ∷ data_out) writable =
    with_request b h (read_request (load h hdr.ptr hdr.len)) data_out writable

unfoldable pub handle_desc : Block → Host → DescChain → Host × Result Error BlkRequest
unfolding serve read_request
handle_desc b h chain = with_header b h chain.readable chain.writable

-- The status of a request that the disk has answered.
abbrev pub answer : Bool → ℕ
answer true = status_ok
answer false = status_ioerr

module _ {D : Type 0} (f : File D) where
  abbrev pub in_written : Bool → (len : ℕ) → ℕ
  in_written true len = u32 (u32 len + 1)
  in_written false len = 1

  -- What `handle_queue` does with a request, and the length that goes to the driver.
  unfoldable pub perform : D → Host → Result Error BlkRequest → D × Host × ℕ
  perform d h (err e) = (d, h, 0)
  perform d h (ok (done_request written)) = (d, h, written)
  perform d h (ok (in_request buf offset status)) =
      let (bs, worked) = f.read_exact_at d buf.len offset in
      (
        d,
        put_status (store h buf.ptr (take buf.len bs)) status (answer worked),
        in_written worked buf.len,
      )
  perform d h (ok (out_request buf offset status)) =
      let (d', worked) = f.write_all_at d (load h buf.ptr buf.len) offset in
      (d', put_status h status (answer worked), 1)
  perform d h (ok (flush_request status)) =
      let (d', worked) = f.flush d in (d', put_status h status (answer worked), 1)

  -- The operation on one chain.
  unfoldable pub handle_chain : Block → D → Host → DescChain → D × Host × ℕ
  unfolding perform handle_desc
  handle_chain b d h chain = perform d (handle_desc b h chain).0 (handle_desc b h chain).1

  abbrev pub op : {E : Type 0} → Block → D × Host → DescChain → (D × Host) × Result E Status
  op b (d, h) chain =
      let (d', h', written) = handle_chain b d h chain in ((d', h'), ok (done written))

  unfoldable pub handle_queue :
      {E Q Index : Type 0}
      → VirtQueue E Q Index
      → Block
      → (fuel : ℕ) → Queue Q Index
      → D × Host
      → Option (Handled E Q Index (D × Host))
  unfolding handle_chain
  handle_queue v b fuel queue s = Handle.handle_desc v (op b) fuel queue s
