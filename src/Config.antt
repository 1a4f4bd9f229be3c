-- ===== src/Config.antt =====
-- lact-daemon/src/config.rs: the configuration, its profiles and the settings of each GPU. Reading
-- and writing the file are the operating system's and `serde_yaml`'s.
pub mod Clocks
pub mod Profiles
use lact.Prelude.{
  ℕ, String, append, ◌≡◌, Bool, true, false, not, ◌&&◌, Option, none, some, List, [], ◌∷◌, str_eq,
}
use lact.Prelude.Int.{ℤ, eqb_ℤ}
use lact.Prelude.Exec.{Result, ok, err, msg, or_fail}
use lact.Prelude.Dict.{Dict, get, insert}
use lact.Platform.{Platform}
use lact.Schema.{
  FanControlMode, PmfwOptions, default_pmfw_options, default_fan_curve, SetClocksCommand,
  ProfileBase,
}
use lact.Curve.{FanCurve}

pub record ClocksConfiguration : Type 0 where
  pub min_core_clock : Option ℤ
  pub min_memory_clock : Option ℤ
  pub min_voltage : Option ℤ
  pub max_core_clock : Option ℤ
  pub max_memory_clock : Option ℤ
  pub max_voltage : Option ℤ
  pub voltage_offset : Option ℤ

abbrev pub default_clocks : ClocksConfiguration
default_clocks = record {
  min_core_clock = none;
  min_memory_clock = none;
  min_voltage = none;
  max_core_clock = none;
  max_memory_clock = none;
  max_voltage = none;
  voltage_offset = none;
}

pub record FanControlSettings (P : Platform) : Type 0 where
  pub mode : FanControlMode
  pub static_speed : P.F64
  pub temperature_key : String
  pub interval_ms : ℕ
  pub curve : FanCurve P
  pub spindown_delay_ms : Option ℕ
  pub change_threshold : Option ℕ

unfoldable pub default_fan_static_speed : (P : Platform) → P.F64
default_fan_static_speed P = P.f64.of_decimal 5 1

unfoldable pub default_fan_settings : (P : Platform) → FanControlSettings P
unfolding default_fan_curve default_fan_static_speed
default_fan_settings P = record {
  mode = FanControlMode.curve;
  static_speed = default_fan_static_speed P;
  temperature_key = "edge";
  interval_ms = 500;
  curve = record { points = default_fan_curve P };
  spindown_delay_ms = none;
  change_threshold = none;
}

pub record Gpu (P : Platform) : Type 0 where
  pub fan_control_enabled : Bool
  pub fan_control_settings : Option (FanControlSettings P)
  pub pmfw_options : PmfwOptions
  pub power_cap : Option P.F64
  pub performance_level : Option P.PerformanceLevel
  pub clocks_configuration : ClocksConfiguration
  pub power_profile_mode_index : Option ℕ
  pub custom_power_profile_mode_hueristics : List (List (Option ℤ))
  pub power_states : Dict P.PowerLevelKind (List ℕ)

abbrev pub default_gpu : (P : Platform) → Gpu P
default_gpu P = record {
  fan_control_enabled = false;
  fan_control_settings = none;
  pmfw_options = default_pmfw_options;
  power_cap = none;
  performance_level = none;
  clocks_configuration = default_clocks;
  power_profile_mode_index = none;
  custom_power_profile_mode_hueristics = [];
  power_states = [];
}

pub record Profile (P : Platform) : Type 0 where
  pub gpus : Dict String (Gpu P)

pub record Daemon : Type 0 where
  pub log_level : String
  pub admin_groups : List String
  pub disable_clocks_cleanup : Bool
  pub tcp_listen_address : Option String

pub record Config (P : Platform) : Type 0 where
  pub daemon : Daemon
  pub apply_settings_timer : ℕ
  pub gpus : Dict String (Gpu P)
  pub profiles : Dict String (Profile P)
  pub current_profile : Option String

abbrev pub default_config : (P : Platform) → Config P
default_config P = record {
  daemon = record {
    log_level = "info";
    admin_groups = "wheel" ∷ "sudo" ∷ [];
    disable_clocks_cleanup = false;
    tcp_listen_address = none;
  };
  apply_settings_timer = 5;
  gpus = [];
  profiles = [];
  current_profile = none;
}

abbrev pub eqb_option : Option ℤ → Option ℤ → Bool
eqb_option none none = true
eqb_option none (some b) = false
eqb_option (some a) none = false
eqb_option (some a) (some b) = eqb_ℤ a b

-- The derived `PartialEq`.
pub clocks_eq : ClocksConfiguration → ClocksConfiguration → Bool
clocks_eq a b =
    eqb_option a.min_core_clock b.min_core_clock
    && eqb_option a.min_memory_clock b.min_memory_clock
    && eqb_option a.min_voltage b.min_voltage
    && eqb_option a.max_core_clock b.max_core_clock
    && eqb_option a.max_memory_clock b.max_memory_clock
    && eqb_option a.max_voltage b.max_voltage
    && eqb_option a.voltage_offset b.voltage_offset

abbrev pub profile_not_found : String → String
profile_not_found name = append "Could not find profile '" (append name "'")

module _ (P : Platform) where
  unfoldable pub is_core_clocks_used : Gpu P → Bool
  unfolding clocks_eq
  is_core_clocks_used gpu = not (clocks_eq gpu.clocks_configuration default_clocks)

  pub set_clocks : ClocksConfiguration → SetClocksCommand → ClocksConfiguration
  set_clocks clocks (SetClocksCommand.max_core_clock clock) = record clocks {
    max_core_clock = some clock;
  }
  set_clocks clocks (SetClocksCommand.max_memory_clock clock) = record clocks {
    max_memory_clock = some clock;
  }
  set_clocks clocks (SetClocksCommand.max_voltage voltage) = record clocks {
    max_voltage = some voltage;
  }
  set_clocks clocks (SetClocksCommand.min_core_clock clock) = record clocks {
    min_core_clock = some clock;
  }
  set_clocks clocks (SetClocksCommand.min_memory_clock clock) = record clocks {
    min_memory_clock = some clock;
  }
  set_clocks clocks (SetClocksCommand.min_voltage voltage) = record clocks {
    min_voltage = some voltage;
  }
  set_clocks clocks (SetClocksCommand.voltage_offset offset) = record clocks {
    voltage_offset = some offset;
  }
  set_clocks clocks SetClocksCommand.reset = default_clocks

  -- The source asserts after a reset that the clocks are not in use.
  pub apply_clocks_command : Gpu P → SetClocksCommand → Gpu P
  unfolding set_clocks
  apply_clocks_command gpu command = record gpu {
    clocks_configuration = set_clocks gpu.clocks_configuration command;
  }

  -- `self.gpus` is the field, so the getter takes the profile's map, or the config's.
  unfoldable pub profile_gpus : Config P → String → Result (Dict String (Gpu P))
  profile_gpus config name = elim (get str_eq config.profiles name) [
    | none ↦ err (msg (profile_not_found name))
    | some profile ↦ ok profile.gpus
  ]

  -- `Config::gpus`
  unfoldable pub gpus : Config P → Result (Dict String (Gpu P))
  unfolding profile_gpus
  gpus config = elim config.current_profile [
    | none ↦ ok config.gpus
    | some name ↦ profile_gpus config name
  ]

  -- What a write through `Config::gpus_mut` leaves.
  unfoldable pub set_gpus : Config P → Dict String (Gpu P) → Config P
  set_gpus config new = elim config.current_profile [
    | none ↦ record config { gpus = new }
    | some name ↦ record config {
      profiles = insert str_eq config.profiles name (record { gpus = new });
    }
  ]

  -- `Config::profile`
  unfoldable pub find_profile : Config P → String → Result (Profile P)
  find_profile config name =
      or_fail (append "Profile " (append name " not found")) (get str_eq config.profiles name)

  unfoldable pub default_profile : Config P → Profile P
  default_profile config = record { gpus = config.gpus }

  unfoldable pub clear : Config P → Config P
  clear config = record config { gpus = []; profiles = []; current_profile = none }
