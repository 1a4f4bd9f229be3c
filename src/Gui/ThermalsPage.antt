-- ===== src/Gui/ThermalsPage.antt =====
-- pages/thermals_page/mod.rs: the fan control's page.
pub mod Unchanged
use lact.Prelude.{ℕ, Bool, true, false, not, ◌&&◌, Option, none, some, List, [], ◌∷◌, if◌then◌else◌}
use lact.Prelude.Int.{ℤ}
use lact.Platform.{Platform}
use lact.Schema.{FanControlMode, FanStats, PmfwOptions, default_fan_curve}
use lact.Gui.Toolkit.{Toolkit}
use lact.Gui.Adjustment.{OcAdjustment, set_value}
use lact.Gui.FanCurveFrame.{
  FanCurveFrame, set_curve, get_curve, set_spindown_delay_ms, set_change_threshold,
  get_spindown_delay_ms, get_change_threshold,
}
use lact.Gui.PmfwFrame.{PmfwFrame, set_pmfw_info, info_is_default, get_pmfw_options}

pub record ThermalsSettings (P : Platform) : Type 0 where
  pub manual_fan_control : Bool
  pub mode : Option FanControlMode
  pub static_speed : Option P.F64
  pub curve : Option (List (ℤ × P.F32))
  pub pmfw : PmfwOptions
  pub spindown_delay_ms : Option ℕ
  pub change_threshold : Option ℕ

-- The visible child of `fan_control_mode_stack`, by its name.
pub data Child : Type 0 where
  automatic curve static : Child

-- `sensitive` is that of the stack's switcher.
pub record ThermalsPage (P : Platform) : Type 0 where
  pub sensitive : Bool
  pub child : Child
  pub fan_static_speed_adjustment : OcAdjustment P
  pub fan_curve_frame : FanCurveFrame P
  pub pmfw_frame : PmfwFrame P
  pub pmfw_warning : Bool
  pub overdrive_enabled : Option Bool

abbrev child_of : Bool → Option FanControlMode → Child
child_of true (some FanControlMode.static) = static
child_of true (some FanControlMode.curve) = curve
child_of _ _ = automatic

abbrev pub mode_of : Child → Bool × Option FanControlMode
mode_of automatic = (false, none)
mode_of curve = (true, some FanControlMode.curve)
mode_of static = (true, some FanControlMode.static)

-- `fan_label.is_some()`
abbrev pub has_fan : Option ℕ → Option ℕ → Bool
has_fan none none = false
has_fan _ _ = true

abbrev pub nonempty {ℓ} : {A : Type ℓ} → List A → Option (List A)
nonempty [] = none
nonempty (a ∷ rest) = some (a ∷ rest)

abbrev is_set : Option Bool → Bool
is_set (some true) = true
is_set _ = false

module _ {P : Platform} where
  -- Whether the card is of a family with firmware fan control, which needs overdrive.
  unfoldable pub set_thermals_info : Bool → ThermalsPage P → ThermalsPage P
  set_thermals_info pmfw_family page =
      let pmfw_disabled = pmfw_family && not (is_set page.overdrive_enabled) in
      record page { pmfw_warning = pmfw_disabled; sensitive = page.sensitive && not pmfw_disabled }

  module _ (tk : Toolkit P) where
    abbrev show_static_speed : Option P.F64 → OcAdjustment P → OcAdjustment P
    show_static_speed none a = a
    show_static_speed (some speed) a = set_value tk (P.f64.mul speed (P.f64.of_int (ℤ.pos 100))) a

    abbrev show_curve : Option (List (ℤ × P.F32)) → FanCurveFrame P → FanCurveFrame P
    show_curve none frame = frame
    show_curve (some points) frame = set_curve tk points frame

    -- Without fan control, an empty curve is shown as the default one.
    abbrev pub default_if_empty : Bool → List (ℤ × P.F32) → FanCurveFrame P → FanCurveFrame P
    default_if_empty control_enabled [] frame =
        if control_enabled then frame else set_curve tk (default_fan_curve P) frame
    default_if_empty control_enabled (p ∷ points) frame = frame

    abbrev pub filled_frame : FanStats P → FanCurveFrame P → FanCurveFrame P
    filled_frame fan frame =
        let shown : FanCurveFrame P =
          set_change_threshold tk fan.change_threshold
            (set_spindown_delay_ms tk fan.spindown_delay_ms (show_curve fan.curve frame)) in
        record shown { hysteresis_grid = info_is_default fan.pmfw_info }

    abbrev pub curve_frame_of : FanStats P → FanCurveFrame P → FanCurveFrame P
    curve_frame_of fan frame =
        default_if_empty fan.control_enabled (get_curve tk (filled_frame fan frame))
          (filled_frame fan frame)

    -- `set_stats`, less its labels.
    unfoldable pub set_fan_stats : FanStats P → Bool → ThermalsPage P → ThermalsPage P
    unfolding set_value set_curve get_curve set_pmfw_info info_is_default
    set_fan_stats fan initial page =
        if initial
        then record page {
          sensitive = has_fan fan.speed_current fan.pwm_current;
          child = child_of fan.control_enabled fan.control_mode;
          fan_static_speed_adjustment =
              show_static_speed fan.static_speed page.fan_static_speed_adjustment;
          fan_curve_frame = curve_frame_of fan page.fan_curve_frame;
          pmfw_frame = set_pmfw_info tk fan.pmfw_info page.pmfw_frame;
        }
        else page

    abbrev pub settings_of : ThermalsPage P → ThermalsSettings P
    settings_of page = record {
      manual_fan_control = (mode_of page.child).0;
      mode = (mode_of page.child).1;
      static_speed =
          some (P.f64.div page.fan_static_speed_adjustment.value (P.f64.of_int (ℤ.pos 100)));
      curve = nonempty (get_curve tk page.fan_curve_frame);
      pmfw = get_pmfw_options page.pmfw_frame;
      change_threshold = some (get_change_threshold tk page.fan_curve_frame);
      spindown_delay_ms = some (get_spindown_delay_ms tk page.fan_curve_frame);
    }

    unfoldable pub get_thermals_settings : ThermalsPage P → Option (ThermalsSettings P)
    unfolding get_curve get_pmfw_options
    get_thermals_settings page = if page.sensitive then some (settings_of page) else none
