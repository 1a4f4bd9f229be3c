-- ===== src/Amd.antt =====
-- lact-daemon/src/server/gpu_controller/amd.rs: how settings reach an AMD card.
pub mod Card
pub mod PowerCap
pub mod Clocks
pub mod Fan
pub mod Apply
pub mod Kept
pub mod KeptFan
pub mod Caps
pub mod Commits
pub mod Guards
pub mod States
pub mod Stats
pub mod Controller
pub mod Level
pub mod Stuck
