-- ===== src/Amd/KeptFan.antt =====
-- What the fan's part of `configure` and its end keep of the calls made, in amd.rs.
use lact.Prelude.{ℕ, Bool, Option, none, some, List, [], ◌∷◌}
use lact.Prelude.Int.{ℤ}
use lact.Prelude.Exec.{Result, ok, err}
use lact.Platform.{Platform}
use lact.Schema.{FanControlMode, PmfwOptions}
use lact.Curve.{FanCurve, FanCurveRanges, PmfwCurve}
use lact.Config.{FanControlSettings, Gpu}
use lact.Prelude.Io.{Upholds, Upholds-if}
use lact.Amd.Card.{Card, Amd, Trace, FanSetting, FanControlMethod}
use lact.Amd.Fan.{
  set_static_fan_control, start_curve_fan_control, stop_fan_control, apply_fan_setting,
  set_automatic, reset_curve, reset_fan_mode, take_over, write_static_curve, write_static_pwm,
  static_by, start_curve_fan_control_task, curve_by, stage_setting,
}
use lact.Amd.Apply.{start_curve, apply_mode_of, apply_enabled, apply_pmfw, apply_fan, configure}
use lact.Amd.Kept.{
  IsKept, On, call_rules, Upholds-apply_power_cap, Upholds-apply_clocks, Upholds-apply_level,
  Upholds-apply_mode, Upholds-apply_states,
}

module _ {P : Platform} (card : Card P) (Q : Trace P → Type 0) (k : IsKept card Q) where
  abbrev Kept : Amd P → Type 0
  Kept = On card Q k

  Upholds-set_automatic : (r : Result FanControlMethod) → Upholds Kept (set_automatic card r)
  unfolding set_automatic
  Upholds-set_automatic (ok FanControlMethod.manual) = search call_rules
  Upholds-set_automatic (ok FanControlMethod.auto) = search call_rules
  Upholds-set_automatic (err e) = search call_rules

  Upholds-reset_curve : (r : Result PmfwCurve) → Upholds Kept (reset_curve card r)
  unfolding reset_curve
  Upholds-reset_curve (ok curve) = search call_rules
  Upholds-reset_curve (err e) = search call_rules

  Upholds-reset_fan_mode : Upholds Kept (reset_fan_mode card)
  unfolding reset_fan_mode
  Upholds-reset_fan_mode = search (call_rules, Upholds-set_automatic, Upholds-reset_curve) depth 9

  Upholds-stop_fan_control : (b : Bool) → Upholds Kept (stop_fan_control card b)
  unfolding stop_fan_control
  Upholds-stop_fan_control b = search (call_rules, Upholds-reset_fan_mode) depth 9

  Upholds-write_static_curve :
      (o : Option FanCurveRanges) (points : List (ℤ × ℕ)) (speed : P.F64)
      → Upholds Kept (write_static_curve card o points speed)
  unfolding write_static_curve
  Upholds-write_static_curve none points speed = search call_rules
  Upholds-write_static_curve (some ranges) points speed = search call_rules depth 9

  Upholds-take_over : Upholds Kept (take_over card)
  unfolding take_over
  Upholds-take_over = search call_rules depth 9

  Upholds-write_static_pwm : (speed : P.F64) → Upholds Kept (write_static_pwm card speed)
  unfolding write_static_pwm
  Upholds-write_static_pwm speed = search (call_rules, Upholds-take_over) depth 9

  Upholds-static_by : (speed : P.F64) (r : Result PmfwCurve) → Upholds Kept (static_by card speed r)
  unfolding static_by
  Upholds-static_by speed (ok c) = Upholds-write_static_curve c.allowed_ranges c.points speed
  Upholds-static_by speed (err e) = Upholds-write_static_pwm speed

  Upholds-set_static : (speed : P.F64) → Upholds Kept (set_static_fan_control card speed)
  unfolding set_static_fan_control
  Upholds-set_static speed =
      search (call_rules, Upholds-stop_fan_control, Upholds-static_by) depth 9

  Upholds-start_task :
      (curve : FanCurve P) (settings : FanControlSettings P)
      → Upholds Kept (start_curve_fan_control_task card curve settings)
  unfolding start_curve_fan_control_task
  Upholds-start_task curve settings =
      search (call_rules, Upholds-stop_fan_control, Upholds-take_over) depth 12

  Upholds-curve_by :
      (curve : FanCurve P) (settings : FanControlSettings P) (r : Result PmfwCurve)
      → Upholds Kept (curve_by card curve settings r)
  unfolding curve_by
  Upholds-curve_by curve settings (ok c) = search call_rules depth 12
  Upholds-curve_by curve settings (err e) = Upholds-start_task curve settings

  Upholds-start_curve :
      (points : List (ℤ × P.F32)) (settings : FanControlSettings P)
      → Upholds Kept (start_curve card points settings)
  unfolding start_curve start_curve_fan_control
  Upholds-start_curve [] settings = search call_rules
  Upholds-start_curve (p ∷ ps) settings = search (call_rules, Upholds-curve_by) depth 9

  Upholds-apply_mode_of :
      (mode : FanControlMode) (settings : FanControlSettings P)
      → Upholds Kept (apply_mode_of card mode settings)
  unfolding apply_mode_of
  Upholds-apply_mode_of FanControlMode.static settings = search (call_rules, Upholds-set_static)
  Upholds-apply_mode_of FanControlMode.curve settings =
      Upholds-start_curve settings.curve.points settings

  Upholds-apply_enabled : (o : Option (FanControlSettings P)) → Upholds Kept (apply_enabled card o)
  unfolding apply_enabled
  Upholds-apply_enabled none = search call_rules
  Upholds-apply_enabled (some settings) = search (call_rules, Upholds-apply_mode_of) depth 9

  Upholds-stage_setting :
      (setting : FanSetting) (value : ℕ) → Upholds Kept (stage_setting card setting value)
  unfolding stage_setting
  Upholds-stage_setting setting value = search call_rules depth 9

  Upholds-apply_fan_setting :
      (setting : FanSetting) (o : Option ℕ) → Upholds Kept (apply_fan_setting card setting o)
  unfolding apply_fan_setting
  Upholds-apply_fan_setting setting none = search call_rules
  Upholds-apply_fan_setting setting (some value) =
      search (call_rules, Upholds-stage_setting) depth 9

  Upholds-apply_pmfw : (options : PmfwOptions) → Upholds Kept (apply_pmfw card options)
  unfolding apply_pmfw
  Upholds-apply_pmfw options =
      search (call_rules, Upholds-apply_fan_setting, Upholds-stop_fan_control) depth 16

  pub Upholds-apply_fan : (config : Gpu P) → Upholds Kept (apply_fan card config)
  unfolding apply_fan
  Upholds-apply_fan config =
      Upholds-if config.fan_control_enabled _ _ (Upholds-apply_enabled config.fan_control_settings)
        (Upholds-apply_pmfw config.pmfw_options)

  pub Upholds-configure : (config : Gpu P) → Upholds Kept (configure card config)
  unfolding configure
  Upholds-configure config =
      search
        (
          call_rules, Upholds-apply_power_cap, Upholds-apply_clocks, Upholds-apply_level,
          Upholds-apply_mode, Upholds-apply_states, Upholds-apply_fan,
        )
        depth 16
