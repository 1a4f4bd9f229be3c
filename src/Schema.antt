-- ===== src/Schema.antt =====
-- lact-schema/src/lib.rs and request.rs: the data that clients and the daemon exchange.
use lact.Prelude.{ℕ, String, Bool, true, false, Option, none, some, List, [], ◌∷◌, ◌&&◌, str_eq}
use lact.Prelude.Int.{ℤ}
use lact.Platform.{Platform}

pub data FanControlMode : Type 0 where
  static curve : FanControlMode

-- `FromStr`; the error is the message.
pub mode_from_str : String → Option FanControlMode
mode_from_str s = elim (str_eq s "curve") [
  | true ↦ some curve
  | false ↦ elim (str_eq s "static") [ true ↦ some static | false ↦ none ]
]

pub record PmfwOptions : Type 0 where
  pub acoustic_limit : Option ℕ
  pub acoustic_target : Option ℕ
  pub minimum_pwm : Option ℕ
  pub target_temperature : Option ℕ

abbrev pub default_pmfw_options : PmfwOptions
default_pmfw_options = record {
  acoustic_limit = none;
  acoustic_target = none;
  minimum_pwm = none;
  target_temperature = none;
}

abbrev pub is_none {ℓ} : {A : Type ℓ} → Option A → Bool
is_none none = true
is_none (some a) = false

-- `PmfwOptions::is_empty`: equal to the default.
pub pmfw_is_empty : PmfwOptions → Bool
pmfw_is_empty o =
    is_none o.acoustic_limit
    && is_none o.acoustic_target
    && is_none o.minimum_pwm
    && is_none o.target_temperature

pub record FanOptions (P : Platform) : Type 0 where
  pub id : String
  pub enabled : Bool
  pub mode : Option FanControlMode
  pub static_speed : Option P.F64
  pub curve : Option (List (ℤ × P.F32))
  pub pmfw : PmfwOptions
  pub spindown_delay_ms : Option ℕ
  pub change_threshold : Option ℕ

pub data SetClocksCommand : Type 0 where
  max_core_clock max_memory_clock max_voltage : ℤ → SetClocksCommand
  min_core_clock min_memory_clock min_voltage : ℤ → SetClocksCommand
  voltage_offset : ℤ → SetClocksCommand
  reset : SetClocksCommand

pub data ConfirmCommand : Type 0 where
  confirm revert : ConfirmCommand

pub data ProfileBase : Type 0 where
  empty default : ProfileBase
  profile : String → ProfileBase

pub record PowerState : Type 0 where
  pub enabled : Bool
  pub min_value : Option ℕ
  pub value : ℕ
  pub index : Option ℕ

pub record PowerStates : Type 0 where
  pub core : List PowerState
  pub vram : List PowerState

pub record ProfilesInfo : Type 0 where
  pub profiles : List String
  pub current_profile : Option String

pub record DeviceListEntry : Type 0 where
  pub id : String
  pub name : Option String

-- `FanInfo` of `amdgpu_sysfs`.
pub record FanInfo : Type 0 where
  pub current : ℕ
  pub allowed_range : Option (ℕ × ℕ)

pub record PmfwInfo : Type 0 where
  pub acoustic_limit : Option FanInfo
  pub acoustic_target : Option FanInfo
  pub target_temp : Option FanInfo
  pub minimum_pwm : Option FanInfo

pub record FanStats (P : Platform) : Type 0 where
  pub control_enabled : Bool
  pub control_mode : Option FanControlMode
  pub static_speed : Option P.F64
  pub curve : Option (List (ℤ × P.F32))
  pub pwm_current : Option ℕ
  pub speed_current : Option ℕ
  pub speed_max : Option ℕ
  pub speed_min : Option ℕ
  pub spindown_delay_ms : Option ℕ
  pub change_threshold : Option ℕ
  pub pmfw_info : PmfwInfo

-- `default_fan_curve`
unfoldable pub default_fan_curve : (P : Platform) → List (ℤ × P.F32)
default_fan_curve P =
    (ℤ.pos 40, P.f32.of_decimal 2 1)
    ∷ (ℤ.pos 50, P.f32.of_decimal 35 2)
    ∷ (ℤ.pos 60, P.f32.of_decimal 5 1)
    ∷ (ℤ.pos 70, P.f32.of_decimal 75 2)
    ∷ (ℤ.pos 80, P.f32.of_decimal 10 1)
    ∷ []

pub data Request (P : Platform) : Type 0 where
  ping list_devices system_info : Request P
  device_info device_stats device_clocks_info device_power_profile_modes : String → Request P
  set_fan_control : FanOptions P → Request P
  reset_pmfw : String → Request P
  set_power_cap : String → Option P.F64 → Request P
  set_performance_level : String → P.PerformanceLevel → Request P
  set_clocks_value : String → SetClocksCommand → Request P
  batch_set_clocks_value : String → List SetClocksCommand → Request P
  set_power_profile_mode : String → Option ℕ → List (List (Option ℤ)) → Request P
  get_power_states : String → Request P
  set_enabled_power_states : String → P.PowerLevelKind → List ℕ → Request P
  vbios_dump : String → Request P
  list_profiles : Request P
  set_profile : Option String → Request P
  create_profile : String → ProfileBase → Request P
  delete_profile : String → Request P
  enable_overdrive disable_overdrive generate_snapshot : Request P
  confirm_pending_config : ConfirmCommand → Request P
  rest_config : Request P
