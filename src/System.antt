-- ===== src/System.antt =====
-- lact-daemon/src/server/system.rs: the feature mask of the driver and the initramfs.
pub mod Bits
pub mod Text
pub mod Host
pub mod Initramfs
pub mod Overdrive
