-- ===== src/Nvidia.antt =====
-- lact-daemon/src/server/gpu_controller/nvidia.rs: how settings reach an Nvidia card, through NVML.
pub mod Device
pub mod Settings
pub mod Offsets
pub mod Report
pub mod States
pub mod Task
pub mod Controller
