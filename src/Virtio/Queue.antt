-- ===== src/Virtio/Queue.antt =====
-- alioth/src/virtio/queue: descriptor flags and chains (queue.rs), and the two ring layouts.
pub mod Flag
pub mod Memory
pub mod Packed
pub mod Split
pub mod Handle
