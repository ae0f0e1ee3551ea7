-- ===== src/Virtio/Pci.antt =====
-- alioth/src/virtio/pci.rs: the registers of a virtio device behind PCI, and what a guest's access
-- to them does. The registers are those of `Register` (virtio/dev/dev.rs) and `QueueReg`
-- (virtio/queue/queue.rs). `todo!()` is a panic, given as `none`. The event that goes to the
-- device's worker is part of a write's result; the channel that carries it is not modelled.
pub mod Access
pub mod Layout
pub mod Queues
pub mod Status
pub mod Vectors
mod Tests
use alioth.Base.{
  ℕ, ◌+◌, ◌*◌, ◌/◌, ◌%◌, ◌^◌, Bool, true, false, ◌&&◌, List, [], ◌∷◌, Option, none, some, ltb, leb,
  ◌==◌, if◌then◌else◌, get_elem?, set, length, map, bit_and, bit_or, bit_xor,
}
use alioth.Pci.Msix.{MsixTableMmio, MsixTableMmioEntry, IrqFd, entry, irq_fd}
use alioth.Pci.Msix

abbrev pub no_vector : ℕ
no_vector = 0xffff

pub record Register : Type 0 where
  pub device_feature : List ℕ
  pub driver_feature : List ℕ
  pub device_feature_sel : ℕ
  pub driver_feature_sel : ℕ
  pub queue_sel : ℕ
  pub status : ℕ

pub record QueueReg : Type 0 where
  pub size : ℕ
  pub desc : ℕ
  pub driver : ℕ
  pub device : ℕ
  pub enabled : Bool

-- `VirtioPciMsixVector`.
pub record MsixVector : Type 0 where
  pub config : ℕ
  pub queues : List ℕ

-- `VirtioPciRegisterMmio`, with the vectors and the table of its `PciIrqSender`.
pub record VirtioPciRegister (F : Type 0) : Type 0 where
  pub reg : Register
  pub queues : List QueueReg
  pub msix_vector : MsixVector
  pub msix_table : MsixTableMmio F

-- The events of `WakeEvent` that a register write sends.
pub data WakeEvent : Type 0 where
  notify : (q_index : ℕ) → WakeEvent
  start : (feature : ℕ) → WakeEvent
  reset_event : WakeEvent

-- The fields of `VirtioCommonCfg`.
pub data Field : Type 0 where
  device_feature_select : Field
  device_feature : Field
  driver_feature_select : Field
  driver_feature : Field
  config_msix_vector : Field
  num_queues : Field
  device_status : Field
  config_generation : Field
  queue_select : Field
  queue_size : Field
  queue_msix_vector : Field
  queue_enable : Field
  queue_notify_off : Field
  queue_desc_lo : Field
  queue_desc_hi : Field
  queue_driver_lo : Field
  queue_driver_hi : Field
  queue_device_lo : Field
  queue_device_hi : Field
  queue_notify_data : Field
  queue_reset : Field

-- Each field with its size in bytes, in the order of the structure.
abbrev pub common_cfg : List (Field × ℕ)
common_cfg =
    (device_feature_select, 4)
    ∷ (device_feature, 4)
    ∷ (driver_feature_select, 4)
    ∷ (driver_feature, 4)
    ∷ (config_msix_vector, 2)
    ∷ (num_queues, 2)
    ∷ (device_status, 1)
    ∷ (config_generation, 1)
    ∷ (queue_select, 2)
    ∷ (queue_size, 2)
    ∷ (queue_msix_vector, 2)
    ∷ (queue_enable, 2)
    ∷ (queue_notify_off, 2)
    ∷ (queue_desc_lo, 4)
    ∷ (queue_desc_hi, 4)
    ∷ (queue_driver_lo, 4)
    ∷ (queue_driver_hi, 4)
    ∷ (queue_device_lo, 4)
    ∷ (queue_device_hi, 4)
    ∷ (queue_notify_data, 2)
    ∷ (queue_reset, 2)
    ∷ []

-- `#[derive(Layout)]` of a `repr(C)` structure without padding: the field at an offset and of a size.
unfoldable pub field_from : List (Field × ℕ) → ℕ → ℕ → ℕ → Option Field
field_from [] base offset size = none
field_from ((f, n) ∷ fs) base offset size =
    let rest = field_from fs (base + n) offset size in
    if offset == base && size == n then some f else rest

abbrev pub field_at : ℕ → ℕ → Option Field
field_at = field_from common_cfg 0

-- `VirtioPciRegister::OFFSET_QUEUE_NOTIFY`: after `common` and `isr_status`.
abbrev pub offset_queue_notify : ℕ
offset_queue_notify = 64

abbrev pub driver_ok : ℕ
driver_ok = 4

-- The bits that `DevStatus` names.
abbrev pub dev_status : ℕ
dev_status = 1 + 2 + 4 + 8 + 64 + 128

-- A vector that is bound to an interrupt file descriptor stays.
unfoldable pub msix_change_allowed : {F : Type 0} → MsixTableMmio F → ℕ → Bool
msix_change_allowed t old = elim (get_elem? t.entries old) [
  | none ↦ true
  | some (entry e) ↦ true
  | some (irq_fd f) ↦ false
]

-- `for (i, v) in reg.driver_feature.iter().enumerate()`, from index `i` on.
unfoldable pub collect_features : ℕ → List ℕ → ℕ → ℕ
collect_features i [] feature = feature
collect_features i (v ∷ vs) feature =
    collect_features (i + 1) vs (bit_or feature (v * 2 ^ (i * 32) % 2 ^ 128))
