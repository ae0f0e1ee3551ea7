-- ===== src/Pci.antt =====
-- alioth/src/pci: the PCI devices' capabilities and addresses.
pub mod Bdf
pub mod Msix
pub mod Msi
pub mod Config
pub mod Segment
pub mod Bus
