-- ===== src/Nvidia/Controller.antt =====
-- The Nvidia card as the controller that handler.rs works with.
use lact.Prelude.Exec.{msg, err}
use lact.Platform.{Platform}
use lact.Handler.State.{GpuController}
use lact.Nvidia.Device.{Device, Nvidia}
use lact.Nvidia.States.{get_power_states}
use lact.Nvidia.Settings.{apply_config, cleanup_clocks}

-- The calls that change the card, and what it does not support, beside the getters of `info`.
abbrev pub nvidia_controller :
    {P : Platform} {Reply : Type 0}
    → Device
    → GpuController P (Nvidia P) Reply
    → GpuController P (Nvidia P) Reply
nvidia_controller device info = record info {
  get_power_profile_modes = λ s. err (msg "Not supported on Nvidia");
  vbios_dump = λ s. err (msg "Not supported on Nvidia");
  get_power_states = λ gpu s. get_power_states device s;
  apply_config = apply_config device;
  reset_pmfw_settings = λ s. s;
  cleanup_clocks = cleanup_clocks device;
}
