-- ===== src/Virtio/Dev.antt =====
-- alioth/src/virtio/dev: the virtio devices.
pub mod Blk
