-- ===== src/Virtio/Queue/Handle/Rings.antt =====
-- The two rings as `VirtQueue`. The guest memory is fixed while the device runs, and `rounds` bounds
-- the walk along one chain.
use alioth.Base.{ℕ}
use alioth.Mem.Mapped.{Ram, Host}
use alioth.Virtio.Queue.Handle.{VirtQueue}
use alioth.Virtio.Queue.Packed
use alioth.Virtio.Queue.Packed.{PackedQueue}
use alioth.Virtio.Queue.Packed.Avail as PackedAvail
use alioth.Virtio.Queue.Split
use alioth.Virtio.Queue.Split.{SplitQueue, QueueError}
use alioth.Virtio.Queue.Split.Avail as SplitAvail

module _ (rounds : ℕ) (m : Ram) (h : Host) where
  abbrev pub packed : VirtQueue Packed.QueueError PackedQueue ℕ
  packed = record {
    init_index = Packed.init_index;
    desc_avail = Packed.desc_avail;
    get_avail = λ q i. PackedAvail.get_avail rounds q m h i;
    set_used = Packed.set_used;
    enable_notification = Packed.enable_notification;
    interrupt_enabled = Packed.interrupt_enabled;
    index_add = Packed.index_add;
  }

  abbrev pub split : VirtQueue QueueError SplitQueue ℕ
  split = record {
    init_index = 0;
    desc_avail = Split.desc_avail;
    get_avail = λ q i. SplitAvail.get_avail rounds q m h i;
    set_used = Split.set_used;
    enable_notification = Split.enable_notification;
    interrupt_enabled = Split.interrupt_enabled;
    index_add = Split.index_add;
  }
