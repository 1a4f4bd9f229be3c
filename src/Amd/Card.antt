-- ===== src/Amd/Card.antt =====
-- A card as the driver shows it: every call is recorded, and answered as the card sees fit.
use lact.Prelude.{ℕ, Bool, Option, List, ◌∷◌}
use lact.Prelude.Int.{ℤ}
use lact.Prelude.Exec.{Exec, Result}
use lact.Platform.{Platform}
use lact.Curve.{FanCurve, PmfwCurve}
use lact.Config.{FanControlSettings}

-- The firmware settings of a fan, each with its `get_`, `set_` and `reset_` call.
pub data FanSetting : Type 0 where
  acoustic_limit acoustic_target target_temperature minimum_pwm : FanSetting

pub data FanControlMethod : Type 0 where
  auto manual : FanControlMethod

-- The calls of `GpuHandle`, `HwMon` and `CommitHandle`, and the ends of the fan control task.
pub data Call (P : Platform) : Type 0 where
  get_power_input get_power_average get_power_cap get_power_cap_default : Call P
  set_power_cap : P.F64 → Call P
  get_power_force_performance_level get_core_clock_levels : Call P
  set_power_force_performance_level : P.PerformanceLevel → Call P
  get_clocks_table reset_clocks_table : Call P
  set_clocks_table : P.ClocksTable → Call P
  set_active_power_profile_mode : ℕ → Call P
  set_custom_power_profile_mode_heuristics : List (List (Option ℤ)) → Call P
  set_enabled_power_levels : P.PowerLevelKind → List ℕ → Call P
  get_fan_curve reset_fan_curve : Call P
  set_fan_curve : PmfwCurve → Call P
  get_fan_control_method : Call P
  set_fan_control_method : FanControlMethod → Call P
  set_fan_pwm : ℕ → Call P
  get_fan_setting reset_fan_setting : FanSetting → Call P
  set_fan_setting : FanSetting → ℕ → Call P
  commit : P.CommitHandle → Call P
  stop_task start_task : Call P

-- The newest call comes first.
abbrev pub Trace : Platform → Type 0
Trace P = List (Call P)

-- The answers of a card, which may depend on all that was asked of it before. `has_hw_mon` tells if
-- the card has a first hardware monitor. `fan_info` is the `current` of a setting's info, and
-- `active_level` the `active` of the core clock levels.
pub record Card (P : Platform) : Type 0 where
  pub has_hw_mon : Bool
  pub power_input : Trace P → Result P.F64
  pub power_average : Trace P → Result P.F64
  pub power_cap : Trace P → Result P.F64
  pub power_cap_default : Trace P → Result P.F64
  pub performance_level : Trace P → Result P.PerformanceLevel
  pub active_level : Trace P → Result (Option ℕ)
  pub clocks_table : Trace P → Result P.ClocksTable
  pub fan_curve : Trace P → Result PmfwCurve
  pub fan_control_method : Trace P → Result FanControlMethod
  pub fan_info : FanSetting → Trace P → Result ℕ
  pub written : Call P → Trace P → Result (Unit {0})
  pub staged : Call P → Trace P → Result P.CommitHandle

-- `AmdGpuController`: the calls made so far, and the running fan control task.
pub record Amd (P : Platform) : Type 0 where
  pub calls : Trace P
  pub fan_control_handle : Option (FanCurve P × FanControlSettings P)

abbrev pub Io : Platform → Type 0 → Type 0
Io P A = Exec (Amd P) A

module _ {P : Platform} where
  -- A call and its answer.
  unfoldable pub ask : {A : Type 0} → Call P → (Trace P → Result A) → Io P A
  ask call answer s = (answer s.calls, record s { calls = call ∷ s.calls })

module _ {P : Platform} (card : Card P) where
  unfoldable pub write : Call P → Io P (Unit {0})
  write call = ask call (card.written call)

  unfoldable pub stage : Call P → Io P P.CommitHandle
  stage call = ask call (card.staged call)
