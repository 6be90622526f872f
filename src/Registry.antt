-- ===== src/Registry.antt =====
-- vision_os/perception/registry: the durable objects of one camera.
pub mod Lifecycle
pub mod Sweep
pub mod Partition
mod Tests
