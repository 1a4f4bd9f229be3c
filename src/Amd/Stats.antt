-- ===== src/Amd/Stats.antt =====
-- `get_stats` of amd.rs, its part on the fan: the settings from the configuration, the rest read.
use lact.Prelude.{ℕ, Bool, false, Option, none, some}
use lact.Platform.{Platform}
use lact.Schema.{FanStats, PmfwInfo}
use lact.Config.{Gpu, FanControlSettings}

-- What the card's sensors and its firmware report.
pub record FanReadings : Type 0 where
  pub pwm_current : Option ℕ
  pub speed_current : Option ℕ
  pub speed_max : Option ℕ
  pub speed_min : Option ℕ
  pub pmfw_info : PmfwInfo

abbrev map_option : {A B : Type 0} → (A → B) → Option A → Option B
map_option f none = none
map_option f (some a) = some (f a)

abbrev and_then : {A B : Type 0} → (A → Option B) → Option A → Option B
and_then f none = none
and_then f (some a) = f a

module _ {P : Platform} where
  abbrev is_enabled : Option (Gpu P) → Bool
  is_enabled none = false
  is_enabled (some gpu) = gpu.fan_control_enabled

  abbrev pub fan_settings : Option (Gpu P) → Option (FanControlSettings P)
  fan_settings gpu_config = and_then (λ gpu. gpu.fan_control_settings) gpu_config

  unfoldable pub fan_stats : Option (Gpu P) → FanReadings → FanStats P
  fan_stats gpu_config readings =
      let settings = fan_settings gpu_config in
      record {
        control_enabled = is_enabled gpu_config;
        control_mode = map_option (λ s. s.mode) settings;
        static_speed = map_option (λ s. s.static_speed) settings;
        curve = map_option (λ s. s.curve.points) settings;
        spindown_delay_ms = and_then (λ s. s.spindown_delay_ms) settings;
        change_threshold = and_then (λ s. s.change_threshold) settings;
        pwm_current = readings.pwm_current;
        speed_current = readings.speed_current;
        speed_max = readings.speed_max;
        speed_min = readings.speed_min;
        pmfw_info = readings.pmfw_info;
      }
