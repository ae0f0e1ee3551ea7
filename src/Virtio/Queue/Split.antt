-- ===== src/Virtio/Queue/Split.antt =====
-- alioth/src/virtio/queue/split.rs: the split ring. Headers, rings and descriptor table lie in guest
-- memory; the model holds the values that the device finds there when it runs.
pub mod Index
pub mod Avail
pub mod Linked
mod Tests
use alioth.Base.{
  ℕ, ◌+◌, ◌-◌, ◌*◌, ◌%◌, ◌^◌, Bool, true, false, ◌||◌, List, Option, none, some, Result, ok, err,
  ltb, leb, ◌==◌, if◌then◌else◌, get_elem?, set, bit_and, arith,
}
use alioth.Base.Word.{u16}
use alioth.Mem.Error.{Error}

pub record Desc : Type 0 where
  pub addr : ℕ
  pub len : ℕ
  pub flag : ℕ
  pub next : ℕ

-- `AvailHeader` and `UsedHeader`.
pub record Header : Type 0 where
  pub flags : ℕ
  pub idx : ℕ

pub record UsedElem : Type 0 where
  pub id : ℕ
  pub len : ℕ

pub record SplitQueue : Type 0 where
  pub size : ℕ
  pub avail_hdr : Header
  pub avail_ring : List ℕ
  pub used_event : Option ℕ
  pub used_hdr : Header
  pub used_ring : List UsedElem
  pub avail_event : Option ℕ
  pub desc : List Desc

-- The errors of `get_avail`: those of the memory, an id outside the table, and the panic of
-- `assert!(!flag.contains(DescFlag::INDIRECT))`.
pub data QueueError : Type 0 where
  memory : Error → QueueError
  invalid_descriptor : (id : ℕ) → QueueError
  panicked : QueueError

-- A table that is shorter than `size` would be read outside the ring's memory; here the id is
-- invalid.
unfoldable pub get_desc : SplitQueue → ℕ → Result QueueError Desc
get_desc q id =
    if ltb id q.size
    then elim (get_elem? q.desc id) [ none ↦ err (invalid_descriptor id) | some d ↦ ok d ]
    else err (invalid_descriptor id)

-- `!(self.size - 1)` is the complement in 16 bits; the subtraction wraps.
unfoldable pub desc_avail : SplitQueue → ℕ → Bool
desc_avail q index =
    ltb index (q.avail_hdr.idx)
    || leb (2 ^ 16 - 1 - u16 (q.size + 2 ^ 16 - 1)) (index - q.avail_hdr.idx)

unfoldable pub wrapped_index : SplitQueue → ℕ → ℕ
wrapped_index q index = bit_and index (u16 (q.size + 2 ^ 16 - 1))

unfoldable pub set_used_index : SplitQueue → ℕ → SplitQueue
set_used_index q val = record q { used_hdr = record (q.used_hdr) { idx = val } }

unfoldable pub set_used : SplitQueue → ℕ → ℕ → ℕ → SplitQueue
unfolding set_used_index wrapped_index
set_used q index id len =
    set_used_index
      (record q {
        used_ring = set q.used_ring (wrapped_index q index) (record { id = id; len = len });
      })
      (u16 (index + 1))

-- The driver does not move `avail_hdr.idx` meanwhile, so the loop that waits for a stable index
-- takes one round.
unfoldable pub enable_notification : SplitQueue → Bool → SplitQueue
enable_notification q enabled = elim q.avail_event [
  | some event ↦ record q {
    avail_event = some (if enabled then q.avail_hdr.idx else u16 (q.avail_hdr.idx + 2 ^ 16 - 1));
  }
  | none ↦ record q { used_hdr = record (q.used_hdr) { flags = if enabled then 0 else 1 } }
]

unfoldable pub flag_interrupt_enabled : SplitQueue → Bool
flag_interrupt_enabled q = q.avail_hdr.flags == 0

unfoldable pub interrupt_enabled : SplitQueue → ℕ → ℕ → Bool
unfolding flag_interrupt_enabled
interrupt_enabled q index delta = elim q.used_event [
  | some event ↦ event == u16 (index + 2 ^ 16 - 1)
  | none ↦ flag_interrupt_enabled q
]

unfoldable pub index_add : SplitQueue → ℕ → ℕ → ℕ
index_add q index delta = u16 (index + 1)
