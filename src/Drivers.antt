-- ===== src/Drivers.antt =====
-- os/src/drivers: the block devices of the two boards.
pub mod Spi
pub mod SdCard
pub mod Virtio
mod CardTests
mod VirtioTests
