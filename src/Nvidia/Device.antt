-- ===== src/Nvidia/Device.antt =====
-- An Nvidia card as NVML shows it: every call that may change it, or that `apply_config` makes, is
-- recorded, and answered as the card sees fit.
use lact.Prelude.{ℕ, ◌<◌, Bool, true, false, Option, none, List, [], ◌∷◌}
use lact.Prelude.Int.{ℤ, pos}
use lact.Prelude.Exec.{Exec, Result}
use lact.Platform.{Platform}
use lact.Curve.{FanCurve}
use lact.Config.{FanControlSettings}

-- `Clock::Graphics` and `Clock::Memory`, for the `gpc_` and `mem_` calls too.
pub data Clock : Type 0 where
  graphics memory : Clock

abbrev pub same : Clock → Clock → Bool
same graphics graphics = true
same graphics memory = false
same memory graphics = false
same memory memory = true

pub data Call : Type 0 where
  power_management_limit power_management_limit_default num_fans temperature : Call
  set_power_management_limit : ℕ → Call
  max_clock_info vf_offset min_max_vf_offset : Clock → Call
  set_vf_offset : Clock → ℤ → Call
  set_fan_speed : ℕ → ℕ → Call
  set_default_fan_speed : ℕ → Call
  stop_task start_task : Call

-- The newest call comes first.
abbrev pub Trace : Type 0
Trace = List Call

-- `PerformanceState::as_c`: 0 to 15, and 32 for an unknown state, so the number fits in u8.
abbrev pub Pstate : Type 0
Pstate = (number : ℕ) × (number < 256)

pub record Device : Type 0 where
  pub power_limit : Trace → Result ℕ
  pub default_limit : Trace → Result ℕ
  pub max_clock : Clock → Trace → Result ℕ
  pub offset : Clock → Trace → Result ℤ
  pub offset_range : Clock → Trace → Result (ℤ × ℤ)
  pub fan_count : Trace → Result ℕ
  pub temp : Trace → Result ℕ
  pub pstates : Trace → Result (List Pstate)
  pub clock_of_pstate : Clock → Pstate → Trace → Result (ℕ × ℕ)
  pub written : Call → Trace → Result (Unit {0})

-- `NvidiaGpuController`. `last_applied` has both of its `last_applied_…_offset` fields.
pub record Nvidia (P : Platform) : Type 0 where
  pub calls : Trace
  pub last_applied : Clock → ℤ
  pub fan_control_handle : Option (FanCurve P × FanControlSettings P)

abbrev pub Io : Platform → Type 0 → Type 0
Io P A = Exec (Nvidia P) A

module _ {P : Platform} where
  abbrev pub new : Nvidia P
  new = record { calls = []; last_applied = λ clock. pos 0; fan_control_handle = none }

  unfoldable pub ask : {A : Type 0} → Call → (Trace → Result A) → Io P A
  ask call answer s = (answer s.calls, record s { calls = call ∷ s.calls })

  unfoldable pub write : Device → Call → Io P (Unit {0})
  write device call s = (device.written call s.calls, record s { calls = call ∷ s.calls })
