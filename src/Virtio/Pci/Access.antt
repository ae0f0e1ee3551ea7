-- ===== src/Virtio/Pci/Access.antt =====
-- `read` and `write` of `VirtioPciRegisterMmio` (alioth/src/virtio/pci.rs).
use alioth.Base.{
  ℕ, ◌+◌, ◌-◌, ◌*◌, ◌/◌, false, not, ◌&&◌, Option, none, some, ltb, leb, ◌==◌, if◌then◌else◌,
  get_elem?, set, length, map, bit_and, bit_xor,
}
use alioth.Base.Word.{u8, u16, u32}
use alioth.Utils.{get_atomic_low32, get_atomic_high32, set_low32, set_high32}
use alioth.Pci.Msix
use alioth.Virtio.Pci.{
  QueueReg, VirtioPciRegister, WakeEvent, notify, start, reset_event, Field, device_feature_select,
  device_feature, driver_feature_select, driver_feature, config_msix_vector, num_queues,
  device_status, config_generation, queue_select, queue_size, queue_msix_vector, queue_enable,
  queue_notify_off, queue_desc_lo, queue_desc_hi, queue_driver_lo, queue_driver_hi, queue_device_lo,
  queue_device_hi, queue_notify_data, queue_reset, no_vector, field_at, offset_queue_notify,
  driver_ok, dev_status, msix_change_allowed, collect_features,
}

-- A value of the selected queue, or 0.
abbrev pub selected : {F : Type 0} → VirtioPciRegister F → (QueueReg → ℕ) → ℕ
selected s get = elim (get_elem? s.queues (s.reg.queue_sel)) [ none ↦ 0 | some q ↦ get q ]

abbrev pub or_zero : Option ℕ → ℕ → ℕ
or_zero none d = d
or_zero (some v) d = v

unfoldable pub read_field : {F : Type 0} → VirtioPciRegister F → Field → Option ℕ
unfolding get_atomic_low32 get_atomic_high32
read_field s device_feature_select = some (s.reg.device_feature_sel)
read_field s device_feature =
    some (or_zero (get_elem? (s.reg.device_feature) (s.reg.device_feature_sel)) 0)
read_field s driver_feature_select = some (s.reg.driver_feature_sel)
read_field s driver_feature =
    some (or_zero (get_elem? (s.reg.driver_feature) (s.reg.driver_feature_sel)) 0)
read_field s config_msix_vector = some (s.msix_vector.config)
read_field s num_queues = some (length s.queues)
read_field s device_status = some (s.reg.status)
read_field s config_generation = some 0
read_field s queue_select = some (s.reg.queue_sel)
read_field s queue_size = some (selected s (λ q. q.size))
read_field s queue_msix_vector =
    some (or_zero (get_elem? (s.msix_vector.queues) (s.reg.queue_sel)) no_vector)
read_field s queue_enable = some (selected s (λ q. if q.enabled then 1 else 0))
read_field s queue_notify_off = some (s.reg.queue_sel)
read_field s queue_desc_lo = some (selected s (λ q. get_atomic_low32 q.desc))
read_field s queue_desc_hi = some (selected s (λ q. get_atomic_high32 q.desc))
read_field s queue_driver_lo = some (selected s (λ q. get_atomic_high32 q.driver))
read_field s queue_driver_hi = some (selected s (λ q. get_atomic_high32 q.driver))
read_field s queue_device_lo = some (selected s (λ q. get_atomic_high32 q.device))
read_field s queue_device_hi = some (selected s (λ q. get_atomic_high32 q.device))
read_field s queue_notify_data = none
read_field s queue_reset = none

-- An access to no field reads 0.
unfoldable pub read : {F : Type 0} → VirtioPciRegister F → ℕ → ℕ → Option ℕ
unfolding read_field
read s offset size = elim (field_at offset size) [ none ↦ some 0 | some f ↦ read_field s f ]

-- `VirtioPciRegisterMmio::reset`.
unfoldable pub reset : {F : Type 0} → VirtioPciRegister F → VirtioPciRegister F
unfolding Msix.reset
reset s = record s {
  msix_vector = record { config = no_vector; queues = map (λ v. no_vector) (s.msix_vector.queues) };
  msix_table = Msix.reset s.msix_table;
  queues = map {A = QueueReg} (λ q. record q { enabled = false }) s.queues;
}

-- A change of the selected queue.
abbrev pub on_selected :
    {F : Type 0} → VirtioPciRegister F → (QueueReg → QueueReg) → VirtioPciRegister F
on_selected s put = elim (get_elem? s.queues (s.reg.queue_sel)) [
  | none ↦ s
  | some q ↦ record s { queues = set s.queues (s.reg.queue_sel) (put q) }
]

-- `status` is the new value and `old` the one it replaced.
abbrev pub change_status :
    {F : Type 0} → VirtioPciRegister F → ℕ → ℕ → VirtioPciRegister F × Option WakeEvent
change_status s old status =
    if bit_and (bit_xor old status) driver_ok == driver_ok
    then if bit_and status driver_ok == driver_ok
      then (s, some (start (collect_features 0 (s.reg.driver_feature) 0)))
      else (reset s, some reset_event)
    else (s, none)

abbrev pub quiet :
    {F : Type 0} → VirtioPciRegister F → Option (VirtioPciRegister F × Option WakeEvent)
quiet s = some (s, none)

unfoldable pub write_field :
    {F : Type 0} → VirtioPciRegister F → Field → ℕ → Option (VirtioPciRegister F × Option WakeEvent)
unfolding reset set_low32 set_high32 msix_change_allowed collect_features
write_field s device_feature_select val =
    quiet (record s { reg = record (s.reg) { device_feature_sel = u8 val } })
write_field s driver_feature_select val =
    quiet (record s { reg = record (s.reg) { driver_feature_sel = u8 val } })
write_field s driver_feature val = quiet (record s {
  reg = record (s.reg) {
    driver_feature = set (s.reg.driver_feature) (s.reg.driver_feature_sel) (u32 val);
  };
})
write_field s config_msix_vector val =
    if msix_change_allowed s.msix_table (s.msix_vector.config)
    then quiet (record s { msix_vector = record (s.msix_vector) { config = u16 val } })
    else quiet s
write_field s device_status val =
    let status = bit_and (u8 val) dev_status in
    some
      (change_status (record s { reg = record (s.reg) { status = status } }) (s.reg.status) status)
write_field s queue_select val = quiet (record s { reg = record (s.reg) { queue_sel = u16 val } })
write_field s queue_size val = quiet (on_selected s (λ q. record q { size = u16 val }))
write_field s queue_msix_vector val = elim (get_elem? (s.msix_vector.queues) (s.reg.queue_sel)) [
  | none ↦ quiet s
  | some old ↦
      if msix_change_allowed s.msix_table old
      then quiet (record s {
        msix_vector = record (s.msix_vector) {
          queues = set (s.msix_vector.queues) (s.reg.queue_sel) (u16 val);
        };
      })
      else quiet s
]
write_field s queue_enable val = quiet (on_selected s (λ q. record q { enabled = not (val == 0) }))
write_field s queue_desc_lo val =
    quiet (on_selected s (λ q. record q { desc = set_low32 q.desc (u32 val) }))
write_field s queue_desc_hi val =
    quiet (on_selected s (λ q. record q { desc = set_high32 q.desc (u32 val) }))
write_field s queue_driver_lo val =
    quiet (on_selected s (λ q. record q { driver = set_low32 q.driver (u32 val) }))
write_field s queue_driver_hi val =
    quiet (on_selected s (λ q. record q { driver = set_high32 q.driver (u32 val) }))
write_field s queue_device_lo val =
    quiet (on_selected s (λ q. record q { device = set_low32 q.device (u32 val) }))
write_field s queue_device_hi val =
    quiet (on_selected s (λ q. record q { device = set_high32 q.device (u32 val) }))
write_field s queue_reset val = none
write_field s device_feature val = quiet s
write_field s num_queues val = quiet s
write_field s config_generation val = quiet s
write_field s queue_notify_off val = quiet s
write_field s queue_notify_data val = quiet s

-- An access to no field notifies a queue, where it lies in the notification area.
unfoldable pub write :
    {F : Type 0} → VirtioPciRegister F → ℕ → ℕ → ℕ → Option (VirtioPciRegister F × Option WakeEvent)
unfolding write_field
write s offset size val = elim (field_at offset size) [
  | some f ↦ write_field s f val
  | none ↦
      if leb offset_queue_notify offset && ltb offset (offset_queue_notify + 4 * length s.queues)
      then some (s, some (notify (u16 (offset - offset_queue_notify) / 4)))
      else quiet s
]
