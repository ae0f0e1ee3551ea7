-- ===== src/Virtio/Pci/Vectors.antt =====
-- The MSI-X vectors of a virtio device.
use alioth.Base.{ℕ, ◌≡◌, ◌⊎◌, sym, ◌∙◌, Option, some, inl, inr, Option-cases, get_elem?, arith}
use alioth.Pci.Msix.{irq_fd}
use alioth.Virtio.Pci.{
  VirtioPciRegister, QueueReg, WakeEvent, reset_event, Field, device_feature_select, device_feature,
  driver_feature_select, driver_feature, config_msix_vector, num_queues, device_status,
  config_generation, queue_select, queue_size, queue_msix_vector, queue_enable, queue_notify_off,
  queue_desc_lo, queue_desc_hi, queue_driver_lo, queue_driver_hi, queue_device_lo, queue_device_hi,
  queue_notify_data, queue_reset, field_at, msix_change_allowed,
}
use alioth.Virtio.Pci.Access.{write, write_field, on_selected, quiet}
use alioth.Virtio.Pci.Queues.{write_known}

module _ {F : Type 0} where
  -- The vector of `s` is that of `s'`, or the device was reset.
  abbrev Kept : VirtioPciRegister F → VirtioPciRegister F → Option WakeEvent → Type 0
  Kept s s' event = (s'.msix_vector.config ≡ s.msix_vector.config) ⊎ (event ≡ some reset_event)

  by_queue :
      (s s' : VirtioPciRegister F) (event : Option WakeEvent) (put : QueueReg → QueueReg)
      → quiet (on_selected s put) ≡ some (s', event)
      → Kept s s' event
  by_queue s s' event put e = elim (Option-cases (get_elem? s.queues (s.reg.queue_sel))) [
    | inl out ↦ ground arith
    | inr (q, at) ↦ ground arith
  ]

  write_field-Kept :
      (s s' : VirtioPciRegister F) (f : Field) (val : ℕ) (event : Option WakeEvent) (fd : F)
      → get_elem? s.msix_table.entries (s.msix_vector.config) ≡ some (irq_fd fd)
      → write_field s f val ≡ some (s', event)
      → Kept s s' event
  unfolding write_field msix_change_allowed
  write_field-Kept s s' device_feature_select val event fd bound e = ground arith
  write_field-Kept s s' device_feature val event fd bound e = ground arith
  write_field-Kept s s' driver_feature_select val event fd bound e = ground arith
  write_field-Kept s s' driver_feature val event fd bound e = ground arith
  write_field-Kept s s' config_msix_vector val event fd bound e = ground arith
  write_field-Kept s s' num_queues val event fd bound e = ground arith
  write_field-Kept s s' device_status val event fd bound e = ground arith
  write_field-Kept s s' config_generation val event fd bound e = ground arith
  write_field-Kept s s' queue_select val event fd bound e = ground arith
  write_field-Kept s s' queue_size val event fd bound e = by_queue s s' event _ e
  write_field-Kept s s' queue_msix_vector val event fd bound e = ground arith
  write_field-Kept s s' queue_enable val event fd bound e = by_queue s s' event _ e
  write_field-Kept s s' queue_notify_off val event fd bound e = ground arith
  write_field-Kept s s' queue_desc_lo val event fd bound e = by_queue s s' event _ e
  write_field-Kept s s' queue_desc_hi val event fd bound e = by_queue s s' event _ e
  write_field-Kept s s' queue_driver_lo val event fd bound e = by_queue s s' event _ e
  write_field-Kept s s' queue_driver_hi val event fd bound e = by_queue s s' event _ e
  write_field-Kept s s' queue_device_lo val event fd bound e = by_queue s s' event _ e
  write_field-Kept s s' queue_device_hi val event fd bound e = by_queue s s' event _ e
  write_field-Kept s s' queue_notify_data val event fd bound e = ground arith
  write_field-Kept s s' queue_reset val event fd bound e = ground arith

  -- Where the configuration vector is bound to an interrupt file descriptor, no write of the guest
  -- changes it but one that resets the device.
  write-bound :
      (s s' : VirtioPciRegister F) (offset size val : ℕ) (event : Option WakeEvent) (fd : F)
      → get_elem? s.msix_table.entries (s.msix_vector.config) ≡ some (irq_fd fd)
      → write s offset size val ≡ some (s', event)
      → (s'.msix_vector.config ≡ s.msix_vector.config) ⊎ (event ≡ some reset_event)
  unfolding write
  write-bound s s' offset size val event fd bound e = elim (Option-cases (field_at offset size)) [
    | inl out ↦ ground arith
    | inr (f, at) ↦
        write_field-Kept s s' f val event fd bound (sym (write_known s offset size val f at) ∙ e)
  ]
