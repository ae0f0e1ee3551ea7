-- ===== src/Virtio/Queue/Packed.antt =====
-- alioth/src/virtio/queue/packed.rs: the packed ring. The ring and the two event structures lie in
-- guest memory; the model holds the values that the device finds there when it runs.
pub mod Index
pub mod Interrupt
pub mod Used
pub mod Avail
pub mod Ends
mod Tests
use alioth.Base.{
  ℕ, zero, suc, ◌+◌, ◌-◌, ◌*◌, ◌%◌, ◌/◌, ◌^◌, ◌<◌, ◌≤◌, ◌≡◌, Bool, true, false, not, ◌&&◌, List, [],
  ◌∷◌, ◌++◌, Option, none, some, ltb, leb, ◌==◌, if◌then◌else◌, get_elem?, set, arith,
}
use alioth.Base.Word.{u16}
use alioth.Base.Bits.{bit}
use alioth.Mem.Error.{Error}
use alioth.Virtio.Queue.Flag.{contains, insert, remove, next, write, indirect, avail, used}

pub record Desc : Type 0 where
  pub addr : ℕ
  pub len : ℕ
  pub id : ℕ
  pub flag : ℕ

-- `WrappedIndex(u16)`: the offset in bits 0 to 14, the wrap counter in bit 15.
abbrev pub offset : ℕ → ℕ
offset w = w % 2 ^ 15

abbrev pub wrap_counter : ℕ → Bool
wrap_counter w = w / 2 ^ 15 % 2 == 1

abbrev pub set_wrap_counter : ℕ → Bool → ℕ
set_wrap_counter w b = w % 2 ^ 15 + (if b then 2 ^ 15 else 0)

abbrev pub init_index : ℕ
init_index = 2 ^ 15

pub wrapping_add : ℕ → ℕ → ℕ → ℕ
wrapping_add w delta size =
    let o = u16 (offset w + delta) in
    if leb size o
    then set_wrap_counter (o - size) (not (wrap_counter w))
    else set_wrap_counter o (wrap_counter w)

pub wrapping_sub : ℕ → ℕ → ℕ → ℕ
wrapping_sub w delta size =
    let o = offset w in
    if leb delta o
    then set_wrap_counter (o - delta) (wrap_counter w)
    else set_wrap_counter (u16 (o + (size + 2 ^ 16 - delta))) (not (wrap_counter w))

-- `EventFlag`: ENABLE, DISABLE and DESC.
abbrev pub enable : ℕ
enable = 0

abbrev pub disable : ℕ
disable = 1

abbrev pub desc_event : ℕ
desc_event = 2

-- `DescEvent`.
pub record DescEvent : Type 0 where
  pub index : ℕ
  pub flag : ℕ

pub record PackedQueue : Type 0 where
  pub size : ℕ
  pub desc : List Desc
  pub enable_event_idx : Bool
  pub notification : DescEvent
  pub interrupt : DescEvent

-- The errors of `get_avail`: those of the memory, a read outside the ring, and the panic of a
-- division by a size of 0.
pub data QueueError : Type 0 where
  memory : Error → QueueError
  outside_ring : (offset : ℕ) → QueueError
  panicked : QueueError

abbrev pub bool_eq : Bool → Bool → Bool
bool_eq true b = b
bool_eq false b = not b

pub flag_is_avail : ℕ → Bool → Bool
flag_is_avail flag wrap =
    bool_eq (contains flag avail) wrap && not (bool_eq (contains flag used) wrap)

-- `USED | AVAIL`.
abbrev pub used_avail : ℕ
used_avail = 2 ^ 15 + 2 ^ 7

pub set_flag_used : ℕ → Bool → ℕ
set_flag_used flag wrap = if wrap then insert flag used_avail else remove flag used_avail

-- A descriptor outside the ring would be read outside the ring's memory; here it is none.
pub desc_avail : PackedQueue → ℕ → Bool
unfolding flag_is_avail
desc_avail q index = elim (get_elem? q.desc (offset index)) [
  | none ↦ false
  | some d ↦ flag_is_avail d.flag (wrap_counter index)
]

pub set_used : PackedQueue → ℕ → ℕ → ℕ → PackedQueue
unfolding set_flag_used
set_used q index id len = elim (get_elem? q.desc (offset index)) [
  | none ↦ q
  | some first ↦ record q {
    desc =
        set q.desc (offset index) (record first {
          id = id;
          len = len;
          flag = set_flag_used first.flag (wrap_counter index);
        });
  }
]

pub enable_notification : PackedQueue → Bool → PackedQueue
enable_notification q enabled = record q {
  notification = record (q.notification) { flag = if enabled then enable else disable };
}

-- The event index lies among the `delta` positions from `prev` on.
pub in_window : ℕ → ℕ → ℕ → ℕ → Bool
in_window size event prev delta =
    let base = offset prev in
    let o =
      if bool_eq (wrap_counter event) (wrap_counter prev)
      then offset event
      else u16 (offset event + size) in
    leb base o && ltb o (u16 (base + delta))

pub interrupt_enabled : PackedQueue → ℕ → ℕ → Bool
unfolding wrapping_sub in_window
interrupt_enabled q index delta =
    if q.enable_event_idx && q.interrupt.flag == desc_event
    then in_window q.size q.interrupt.index (wrapping_sub index delta q.size) delta
    else q.interrupt.flag == enable

pub index_add : PackedQueue → ℕ → ℕ → ℕ
unfolding wrapping_add
index_add q index delta = wrapping_add index delta q.size
