-- ===== src/Device.antt =====
-- alioth/src/device: the legacy devices of the machine.
pub mod Serial
pub mod IoApic
pub mod FwCfg
pub mod Pl011
pub mod Pl031
