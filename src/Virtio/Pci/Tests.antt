-- ===== src/Virtio/Pci/Tests.antt =====
-- The theorems on the registers of pci.rs at a device with two queues, of which the second is
-- selected.
use alioth.Base.{ℕ, ◌+◌, ◌*◌, ◌^◌, ◌≡◌, ◌≢◌, refl, true, [], ◌∷◌, none, some, get_elem?, arith}
use alioth.Pci.Msix.{entry, irq_fd, default_entry}
use alioth.Virtio.Pci.{VirtioPciRegister, QueueReg, start, field_from, no_vector, collect_features}
use alioth.Virtio.Pci.Access.{write, write_field}
use alioth.Virtio.Pci.Queues.{driver_addr, with_address, write-address}
use alioth.Virtio.Pci.Status.{with_status, write-status}

abbrev queue : QueueReg
queue = record { size = 256; desc = 0; driver = 0x200000001; device = 0; enabled = true }

abbrev device : VirtioPciRegister ℕ
device = record {
  reg = record {
    device_feature = 0 ∷ 0 ∷ 0 ∷ 0 ∷ [];
    driver_feature = 5 ∷ 1 ∷ 0 ∷ 0 ∷ [];
    device_feature_sel = 0;
    driver_feature_sel = 0;
    queue_sel = 1;
    status = 11;
  };
  queues = queue ∷ queue ∷ [];
  msix_vector = record { config = 1; queues = no_vector ∷ no_vector ∷ [] };
  msix_table = record { entries = entry default_entry ∷ irq_fd 3 ∷ [] };
}

write-address_example :
    (s1 s2 : VirtioPciRegister ℕ) × (write device 40 4 9 ≡ some (s1, none))
    × (write s1 44 4 7 ≡ some (s2, none))
    × (get_elem? s2.queues 1 ≡ some (with_address driver_addr queue (7 * 2 ^ 32 + 9)))
    × ((j : ℕ) → 1 ≢ j → get_elem? s2.queues j ≡ get_elem? device.queues j)
write-address_example =
    write-address driver_addr device queue 9 7 refl (omega arith) (omega arith) (omega arith)

write-status_example :
    write device 20 1 15
    ≡ some (with_status device 15, some (start (collect_features 0 (5 ∷ 1 ∷ 0 ∷ 0 ∷ []) 0)))
write-status_example = write-status device 15

refused : write device 16 2 0 ≡ some (device, none)
unfolding write write_field field_from
refused = refl
