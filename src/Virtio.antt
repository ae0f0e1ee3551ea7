-- ===== src/Virtio.antt =====
-- alioth/src/virtio: the virtqueues and the registers of the PCI transport.
pub mod Queue
pub mod Pci
pub mod Dev
