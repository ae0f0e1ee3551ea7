-- ===== src/Device/FwCfg/Items.antt =====
-- alioth/src/device/fw_cfg/fw_cfg.rs: the items of the device and the directory that lists them.
use alioth.Base.{
  ℕ, suc, ◌+◌, ◌-◌, min, List, [], ◌∷◌, ◌++◌, Option, none, some, Result, ok, ◌>>=◌, get_elem?, set,
  length, take, drop, replicate,
}
use alioth.Base.Word.{u16, u32}
use alioth.Mem.Emulated.{to_le_bytes}
use alioth.Mem.Region.{MemRegionEntry, MemRegionType, hidden, ram_type, reserved, acpi, pmem}
use alioth.Device.FwCfg.{
  FwCfg, FwCfgItem, FwCfgContent, bytes, slice, file, lu16, lu32, lu64, ErrorKind, content_size,
  to_be_bytes, file_first,
}

abbrev pub known_count : ℕ
known_count = 0x20

abbrev pub file_dir : ℕ
file_dir = 0x19

abbrev pub name_size : ℕ
name_size = 56

-- A name is cut to 55 bytes, and filled up with zeros.
unfoldable pub create_file_name : List ℕ → List ℕ
create_file_name name =
    let c_len = min (name_size - 1) (length name) in
    take c_len name ++ replicate (name_size - c_len) 0

-- `FwCfgFile`: size, selector, two reserved bytes and the name.
unfoldable pub file_entry : (size select : ℕ) → List ℕ → List ℕ
unfolding create_file_name
file_entry size select name =
    to_be_bytes 4 size ++ to_be_bytes 2 select ++ (0 ∷ 0 ∷ []) ++ create_file_name name

-- `get_file_dir_mut`: the directory is always `Bytes`; another content, which is `unreachable!`,
-- reads as empty here.
abbrev pub dir_bytes : Option FwCfgContent → List ℕ
dir_bytes (some (bytes b)) = b
dir_bytes none = []
dir_bytes (some (slice b)) = []
dir_bytes (some (file o f)) = []
dir_bytes (some (lu16 n)) = []
dir_bytes (some (lu32 n)) = []
dir_bytes (some (lu64 n)) = []

unfoldable pub get_file_dir : FwCfg → List ℕ
get_file_dir d = dir_bytes (get_elem? d.known_items file_dir)

abbrev pub set_known : FwCfg → ℕ → FwCfgContent → FwCfg
set_known d selector c = record d { known_items = set d.known_items selector c }

-- `update_count` on the bytes of the directory.
abbrev pub with_count : ℕ → List ℕ → List ℕ
with_count count dir = to_be_bytes 4 (u32 count) ++ drop 4 dir

-- The directory gets the entry and the new count, and the item goes behind the others.
unfoldable pub add_item : FwCfg → FwCfgItem → Result ErrorKind FwCfg
unfolding content_size file_entry get_file_dir
add_item d item = do
  size ← content_size item.content
  (let index = length d.items in
      let dir = get_file_dir d ++ file_entry size (u16 (file_first + u16 index)) item.name in
      ok (record (set_known d file_dir (bytes (with_count (suc index) dir))) {
        items = d.items ++ (item ∷ []);
      }))

unfoldable pub add_items : FwCfg → List FwCfgItem → Result ErrorKind FwCfg
unfolding add_item
add_items d [] = ok d
add_items d (i ∷ is) = add_item d i >>= λ d'. add_items d' is

-- "QEMU CFG" and the features.
abbrev signature : List ℕ
signature = 0x51 ∷ 0x45 ∷ 0x4d ∷ 0x55 ∷ 0x20 ∷ 0x43 ∷ 0x46 ∷ 0x47 ∷ []

abbrev pub empty_device : FwCfg
empty_device = record {
  selector = 0;
  data_offset = 0;
  dma_address = 0;
  items = [];
  known_items =
      set
        (set (set (replicate known_count (slice [])) 0 (slice signature)) 1
          (slice (3 ∷ 0 ∷ 0 ∷ 0 ∷ [])))
        file_dir (bytes (to_be_bytes 4 0));
}

unfoldable pub new : List FwCfgItem → Result ErrorKind FwCfg
unfolding add_items
new items = add_items empty_device items

unfoldable pub add_ram_size : FwCfg → ℕ → FwCfg
add_ram_size d size = set_known d 3 (lu64 size)

unfoldable pub add_cpu_count : FwCfg → ℕ → FwCfg
add_cpu_count d count = set_known d 5 (lu16 count)

-- The string, with its final zero.
unfoldable pub add_kernel_cmdline : FwCfg → List ℕ → FwCfg
add_kernel_cmdline d s = set_known (set_known d 0x14 (lu32 (u32 (length s)))) 0x15 (bytes s)

unfoldable pub add_initramfs_data : FwCfg → List ℕ → FwCfg
add_initramfs_data d f = set_known (set_known d 0xb (lu32 (u32 (length f)))) 0x12 (file 0 f)

-- The types of `BootE820Entry` of bootparams.rs.
abbrev e820_type : MemRegionType → Option ℕ
e820_type ram_type = some 1
e820_type reserved = some 2
e820_type acpi = some 3
e820_type pmem = some 7
e820_type hidden = none

abbrev e820_entry : Option ℕ → (addr size : ℕ) → List ℕ
e820_entry none addr size = []
e820_entry (some type_) addr size = to_le_bytes 8 addr ++ to_le_bytes 8 size ++ to_le_bytes 4 type_

unfoldable pub e820_bytes : List (ℕ × MemRegionEntry) → List ℕ
e820_bytes [] = []
e820_bytes ((addr, r) ∷ rs) = e820_entry (e820_type r.type_) addr r.size ++ e820_bytes rs

-- "etc/e820".
unfoldable pub add_e820 : FwCfg → List (ℕ × MemRegionEntry) → Result ErrorKind FwCfg
unfolding add_item e820_bytes
add_e820 d regions = add_item d (record {
  name = 0x65 ∷ 0x74 ∷ 0x63 ∷ 0x2f ∷ 0x65 ∷ 0x38 ∷ 0x32 ∷ 0x30 ∷ [];
  content = bytes (e820_bytes regions);
})
