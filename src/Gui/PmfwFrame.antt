-- ===== src/Gui/PmfwFrame.antt =====
-- pages/thermals_page/pmfw_frame.rs: the sliders of the fan firmware.
use lact.Prelude.{ℕ, Bool, not, ◌&&◌, Option, none, some}
use lact.Prelude.Int.{pos}
use lact.Platform.{Platform}
use lact.Schema.{FanInfo, PmfwInfo, PmfwOptions, is_none}
use lact.Gui.Toolkit.{Toolkit}
use lact.Gui.Adjustment.{OcAdjustment, set_lower, set_upper, set_initial_value, get_nonzero_value}

-- `*info == PmfwInfo::default()`
unfoldable pub info_is_default : PmfwInfo → Bool
info_is_default info =
    is_none info.acoustic_limit
    && is_none info.acoustic_target
    && is_none info.target_temp
    && is_none info.minimum_pwm

pub record PmfwFrame (P : Platform) : Type 0 where
  pub target_temperature : OcAdjustment P
  pub acoustic_limit : OcAdjustment P
  pub acoustic_target : OcAdjustment P
  pub minimum_pwm : OcAdjustment P
  pub reset_button : Bool

module _ {P : Platform} where
  abbrev with_range : Option (ℕ × ℕ) → ℕ → OcAdjustment P → OcAdjustment P
  with_range (some (min, max)) current a =
      set_upper (P.f64.of_int (pos max)) (set_lower (P.f64.of_int (pos min)) a)
  with_range none current a =
      set_upper (P.f64.of_int (pos current)) (set_lower (P.f64.of_decimal 0 1) a)

  module _ (tk : Toolkit P) where
    unfoldable pub set_fan_info : Option FanInfo → OcAdjustment P → OcAdjustment P
    unfolding set_initial_value
    set_fan_info (some info) a =
        set_initial_value tk (P.f64.of_int (pos info.current))
          (with_range info.allowed_range info.current a)
    set_fan_info none a =
        set_initial_value tk (P.f64.of_decimal 0 1) (set_upper (P.f64.of_decimal 0 1) a)

    unfoldable pub set_pmfw_info : PmfwInfo → PmfwFrame P → PmfwFrame P
    unfolding set_fan_info info_is_default
    set_pmfw_info info frame = record frame {
      acoustic_limit = set_fan_info info.acoustic_limit frame.acoustic_limit;
      acoustic_target = set_fan_info info.acoustic_target frame.acoustic_target;
      minimum_pwm = set_fan_info info.minimum_pwm frame.minimum_pwm;
      target_temperature = set_fan_info info.target_temp frame.target_temperature;
      reset_button = not (info_is_default info);
    }

  -- `.get_nonzero_value().map(|value| value as u32)`
  abbrev nonzero_u32 : OcAdjustment P → Option ℕ
  nonzero_u32 a = elim (get_nonzero_value a) [ none ↦ none | some v ↦ some (P.f64.to_u32 v) ]

  unfoldable pub get_pmfw_options : PmfwFrame P → PmfwOptions
  unfolding get_nonzero_value
  get_pmfw_options frame = record {
    acoustic_limit = nonzero_u32 frame.acoustic_limit;
    acoustic_target = nonzero_u32 frame.acoustic_target;
    minimum_pwm = nonzero_u32 frame.minimum_pwm;
    target_temperature = nonzero_u32 frame.target_temperature;
  }
