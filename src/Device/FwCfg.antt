-- ===== src/Device/FwCfg.antt =====
-- alioth/src/device/fw_cfg/fw_cfg.rs: the firmware configuration device, behind I/O ports and by
-- direct memory access. A file is its bytes. The x86_64 build; tables for ACPI come as items.
pub mod Items
pub mod Ports
pub mod Directory
pub mod Dma
mod Tests
use alioth.Base.{
  ℕ, zero, suc, ◌+◌, ◌-◌, ◌*◌, ◌/◌, ◌%◌, ◌^◌, ◌≡◌, Bool, true, false, min, List, [], ◌∷◌, ◌++◌,
  Option, none, some, leb, ltb, ◌==◌, if◌then◌else◌, Result, ok, err, ◌>>=◌, length, get_elem?, set,
  take, drop, replicate, bit_and, bit_or,
}
use alioth.Base.Word.{u8, u16, u32, u64}
use alioth.Mem.Error.{Error, read_failed}
use alioth.Mem.Emulated.{to_le_bytes, from_le_bytes}
use alioth.Mem.Mapped.{Ram, Host, read, write}
use alioth.Mem.Mapped.Transfer.{Read, write_range}

-- Big-endian integers, as the bytes of `Bu16`, `Bu32` and `Bu64`.
abbrev pub to_be_bytes : (n x : ℕ) → List ℕ
to_be_bytes zero x = []
to_be_bytes (suc n) x = x / 256 ^ n % 256 ∷ to_be_bytes n x

abbrev pub from_be_bytes : ℕ → List ℕ → ℕ
from_be_bytes acc [] = acc
from_be_bytes acc (b ∷ bs) = from_be_bytes (acc * 256 + b) bs

-- `u32::to_be` and `u32::from_be` on a little-endian machine.
unfoldable pub swap32 : ℕ → ℕ
swap32 x = from_be_bytes 0 (to_le_bytes 4 x)

pub data FwCfgContent : Type 0 where
  bytes : List ℕ → FwCfgContent
  slice : List ℕ → FwCfgContent
  file : (offset : ℕ) → List ℕ → FwCfgContent
  lu16 lu32 lu64 : ℕ → FwCfgContent

-- The `io::ErrorKind`s that the device gives.
pub data ErrorKind : Type 0 where
  not_found invalid_input invalid_data : ErrorKind

abbrev pub content_bytes : FwCfgContent → List ℕ
content_bytes (bytes b) = b
content_bytes (slice b) = b
content_bytes (file offset f) = drop offset f
content_bytes (lu16 n) = to_le_bytes 2 n
content_bytes (lu32 n) = to_le_bytes 4 n
content_bytes (lu64 n) = to_le_bytes 8 n

unfoldable pub content_size : FwCfgContent → Result ErrorKind ℕ
content_size c =
    if ltb (length (content_bytes c)) (2 ^ 32)
    then ok (length (content_bytes c))
    else err invalid_input

unfoldable pub content_read : FwCfgContent → (offset : ℕ) → Option ℕ
content_read c offset = get_elem? (content_bytes c) offset

-- `FwCfgContentAccess`: each read starts at the same offset. A read of more than what follows
-- there, which the device never asks for, is an error here.
pub record ContentAccess : Type 0 where
  pub content : FwCfgContent
  pub offset : ℕ

abbrev pub access_exact : ContentAccess → (n : ℕ) → Result Error (List ℕ × ContentAccess)
access_exact a n =
    let rest = drop a.offset (content_bytes a.content) in
    if leb n (length rest) then ok (take n rest, a) else err (read_failed 0)

abbrev pub content_reader : Read ContentAccess
content_reader = record { read_exact = access_exact }

pub record FwCfgItem : Type 0 where
  pub name : List ℕ
  pub content : FwCfgContent

-- The memory that DMA uses is an argument of the operations.
pub record FwCfg : Type 0 where
  pub selector : ℕ
  pub data_offset : ℕ
  pub dma_address : ℕ
  pub items : List FwCfgItem
  pub known_items : List FwCfgContent

abbrev pub file_first : ℕ
file_first = 0x20

-- The content that a selector names.
abbrev pub item_content : Option FwCfgItem → Option FwCfgContent
item_content none = none
item_content (some i) = some i.content

abbrev pub known_or : Option FwCfgContent → Option FwCfgContent → Option FwCfgContent
known_or (some c) other = some c
known_or none other = other

unfoldable pub lookup : FwCfg → (selector : ℕ) → Option FwCfgContent
lookup d selector =
    known_or (get_elem? d.known_items selector)
      (item_content (get_elem? d.items (selector - file_first)))

-- The byte at the data port.
abbrev pub content_at : Option FwCfgContent → (offset : ℕ) → Option ℕ
content_at none offset = none
content_at (some c) offset = content_read c offset

abbrev pub advance : FwCfg → Option ℕ → FwCfg × ℕ
advance d (some val) = (record d { data_offset = u32 (d.data_offset + 1) }, val)
advance d none = (d, 0)

unfoldable pub read_data : FwCfg → FwCfg × ℕ
unfolding lookup content_read
read_data d = advance d (content_at (lookup d d.selector) d.data_offset)

-- The transfer of a content: the bytes of the host, and how many were asked of the memory.
abbrev pub transferred :
    (op_size : ℕ) → Option (Host × Result Error ContentAccess) → Option (Host × Result ErrorKind ℕ)
transferred op_size none = none
transferred op_size (some (h, ok a)) = some (h, ok op_size)
transferred op_size (some (h, err e)) = some (h, err invalid_input)

unfoldable pub dma_read_content :
    FwCfgContent → (offset len address : ℕ) → Ram → Host → Option (Host × Result ErrorKind ℕ)
unfolding content_size
dma_read_content c offset len address m h = elim (content_size c) [
  | err e ↦ some (h, err e)
  | ok size ↦
      let op_size = min (size - offset) len in
      transferred op_size
        (write_range content_reader m h address op_size (record { content = c; offset = offset }))
]

abbrev pub moved :
    FwCfg → Option (Host × Result ErrorKind ℕ) → Option (FwCfg × Host × Result ErrorKind (Unit {0}))
moved d none = none
moved d (some (h, ok n)) = some (record d { data_offset = u32 (d.data_offset + n) }, h, ok tt)
moved d (some (h, err e)) = some (d, h, err e)

unfoldable pub dma_read :
    FwCfg
    → (selector len address : ℕ) → Ram
    → Host
    → Option (FwCfg × Host × Result ErrorKind (Unit {0}))
unfolding lookup dma_read_content
dma_read d selector len address m h = elim (lookup d selector) [
  | none ↦ some (d, h, err not_found)
  | some c ↦ moved d (dma_read_content c d.data_offset len address m h)
]

-- `FwCfgDmaAccess` and the bits of `AccessControl`.
abbrev pub control_bit : (k control : ℕ) → Bool
control_bit k control = control / 2 ^ k % 2 == 1

-- What the request asks for; `dma_write` is `unimplemented!`: no result.
unfoldable pub run_dma :
    FwCfg
    → (control len address : ℕ) → Ram
    → Host
    → Option (FwCfg × Host × Result ErrorKind (Unit {0}))
unfolding dma_read
run_dma d control len address m h =
    if control_bit 1 control
    then dma_read d d.selector len address m h
    else if control_bit 4 control
    then none
    else if control_bit 2 control
    then some (record d { data_offset = u32 (d.data_offset + len) }, h, ok tt)
    else some (d, h, err invalid_data)

-- `self.selector = control.select() as u16`, under `if control.select()`.
abbrev pub select : FwCfg → (control : ℕ) → FwCfg
select d control = if control_bit 3 control then record d { selector = 1 } else d

abbrev pub response : Result ErrorKind (Unit {0}) → ℕ
response (ok u) = 0
response (err e) = 1

-- The response goes to the control word; what its write returns is only logged.
abbrev pub respond :
    Ram → Option (FwCfg × Host × Result ErrorKind (Unit {0})) → Option (FwCfg × Host)
respond m none = none
respond m (some (d, h, r)) = elim (write m h d.dma_address (to_be_bytes 4 (response r))) [
  | none ↦ none
  | some (h', _) ↦ some (d, h')
]

unfoldable pub do_dma : FwCfg → Ram → Host → Option (FwCfg × Host)
unfolding run_dma
do_dma d m h = elim (read m h d.dma_address 16) [
  | none ↦ none
  | some (err e) ↦ some (d, h)
  | some (ok bs) ↦
      let control = from_be_bytes 0 (take 4 bs) in
      respond m (
        run_dma (select d control) control (from_be_bytes 0 (take 4 (drop 4 bs)))
          (from_be_bytes 0 (take 8 (drop 8 bs))) m h)
]
