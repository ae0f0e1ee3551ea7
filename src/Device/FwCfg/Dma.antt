-- ===== src/Device/FwCfg/Dma.antt =====
-- `dma_read` of fw_cfg.rs against the data port.
use alioth.Base.{
  ℕ, zero, suc, ◌+◌, ◌-◌, ◌^◌, ◌<◌, ◌≤◌, min, ◌≡◌, refl, ◌∙◌, sym, ap, List, [], ◌∷◌, some, ok,
  length, take, drop, length-drop, arith,
}
use alioth.Base.Word.{u32, u64}
use alioth.Mem.Mapped.{Slice, Ram, Host, get_partial_slice, store}
use alioth.Mem.Mapped.Transfer.{fill_slices, write_range}
use alioth.Device.FwCfg.{
  FwCfg, FwCfgContent, content_bytes, content_size, lookup, ContentAccess, content_reader,
  dma_read_content, dma_read, moved, transferred,
}
use alioth.Device.FwCfg.Ports.{reads, padded, reads-padded}

-- The bytes from an offset of a content that has so many left.
padded-take : (n : ℕ) (bs : List ℕ) → n ≤ length bs → padded n bs ≡ take n bs
padded-take zero bs h = refl
padded-take (suc n) [] h = elim h [ ]
padded-take (suc n) (b ∷ bs) h = ap (λ cs. b ∷ cs) (padded-take n bs (omega arith))

size-bytes :
    (c : FwCfgContent) (size : ℕ)
    → content_size c ≡ ok size
    → (size ≡ length (content_bytes c)) × (size < 2 ^ 32)
unfolding content_size
size-bytes c size e = ground arith

-- One slice that is as long as the transfer.
fill_step :
    (fuel : ℕ) (m : Ram) (h : Host) (gpa k : ℕ) (a : ContentAccess) (s : Slice)
    → get_partial_slice m gpa (suc k) ≡ ok s
    → s.len ≤ length (drop a.offset (content_bytes a.content))
    → fill_slices content_reader (suc fuel) m h (record { gpa = gpa; remain = suc k }) a
      ≡ fill_slices content_reader fuel m
          (store h s.ptr (take s.len (drop a.offset (content_bytes a.content))))
          (record { gpa = u64 (gpa + s.len); remain = suc k - s.len })
          a
unfolding fill_slices
fill_step fuel m h gpa k a s q enough = ground arith

fill_done :
    (fuel : ℕ) (m : Ram) (h : Host) (gpa left : ℕ) (a : ContentAccess)
    → left ≡ 0
    → fill_slices content_reader (suc fuel) m h (record { gpa = gpa; remain = left }) a
      ≡ some (h, ok a)
unfolding fill_slices
fill_done fuel m h gpa left a e = ground arith

fill_whole :
    (m : Ram) (h : Host) (gpa op : ℕ) (a : ContentAccess) (s : Slice)
    → get_partial_slice m gpa op ≡ ok s
    → s.len ≡ op
    → op ≤ length (drop a.offset (content_bytes a.content))
    → write_range content_reader m h gpa op a
      ≡ some (store h s.ptr (take s.len (drop a.offset (content_bytes a.content))), ok a)
unfolding write_range store
fill_whole m h gpa zero a s q whole enough =
    ap (λ n. some (store h s.ptr (take n (drop a.offset (content_bytes a.content))), ok a))
      (sym whole)
fill_whole m h gpa (suc k) a s q whole enough =
    fill_step (suc k) m h gpa k a s q (omega arith)
    ∙ fill_done k m (store h s.ptr (take s.len (drop a.offset (content_bytes a.content))))
        (u64 (gpa + s.len)) (suc k - s.len) a (omega arith)

-- The bytes that the data port would give next.
next_bytes :
    (d : FwCfg) (c : FwCfgContent) (size op : ℕ)
    → lookup d d.selector ≡ some c
    → content_size c ≡ ok size
    → op ≤ size - d.data_offset
    → reads op d ≡ take op (drop d.data_offset (content_bytes c))
next_bytes d c size zero named e h = refl
next_bytes d c size (suc k) named e h =
    let (is, below) = size-bytes c size e in
    reads-padded (suc k) d c named (omega arith)
    ∙ padded-take (suc k) (drop d.data_offset (content_bytes c))
        (omega (arith, length-drop d.data_offset (content_bytes c)))

dma_read-found :
    (d : FwCfg) (c : FwCfgContent) (size len address : ℕ) (m : Ram) (h : Host)
    → lookup d d.selector ≡ some c
    → content_size c ≡ ok size
    → dma_read d d.selector len address m h
      ≡ moved d (
          transferred (min (size - d.data_offset) len) (
            write_range content_reader m h address
              (min (size - d.data_offset) len)
              (record { content = c; offset = d.data_offset })))
unfolding dma_read dma_read_content
dma_read-found d c size len address m h named e = ground arith

-- A DMA read into one page range puts there what as many reads of the data port would give, no more than the
-- content has left, and moves the offset on by as much.
pub dma_read-reads :
    (d : FwCfg) (c : FwCfgContent) (size len address : ℕ) (m : Ram) (h : Host) (s : Slice)
    → lookup d d.selector ≡ some c
    → content_size c ≡ ok size
    → get_partial_slice m address (min (size - d.data_offset) len) ≡ ok s
    → s.len ≡ min (size - d.data_offset) len
    → dma_read d d.selector len address m h
      ≡ some (
        record d { data_offset = u32 (d.data_offset + s.len) },
        store h s.ptr (reads s.len d),
        ok tt,
      )
dma_read-reads d c size len address m h s named e q whole =
    let op = min (size - d.data_offset) len in
    let (is, below) = size-bytes c size e in
    let rest = drop d.data_offset (content_bytes c) in
    let filled =
      fill_whole m h address op (record { content = c; offset = d.data_offset }) s q whole
        (omega (arith, length-drop d.data_offset (content_bytes c))) in
    dma_read-found d c size len address m h named e
    ∙ ap (λ r. moved d (transferred op r)) filled
    ∙ ap
        (λ n. some (
          record d { data_offset = u32 (d.data_offset + n) },
          store h s.ptr (take s.len rest),
          ok tt,
        ))
        (sym whole)
    ∙ ap
        (λ bs.
          some (record d { data_offset = u32 (d.data_offset + s.len) }, store h s.ptr bs, ok tt))
        (sym (next_bytes d c size s.len named e (omega arith)))
