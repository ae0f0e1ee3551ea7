-- ===== src/Mem.antt =====
-- alioth/src/mem: guest memory. The error type of mem/mem.rs, shared by the modules below.
pub mod Call
pub mod Emulated
pub mod Error
pub mod Region
pub mod Memory
pub mod Addressable
pub mod Mapped
