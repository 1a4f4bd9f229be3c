-- ===== src/Amd/Fan.antt =====
-- The fan in amd.rs: a static speed, a curve, or automatic control with the firmware's options.
use lact.Prelude.{
  String, ℕ, Bool, true, false, Option, none, some, List, [], ◌∷◌, max, ◌==◌, if◌then◌else◌,
}
use lact.Prelude.Int.{ℤ, pos}
use lact.Prelude.Exec.{msg, Result, ok, err}
use lact.Platform.{Platform}
use lact.Curve.{FanCurve, FanCurveRanges, PmfwCurve, into_pmfw_curve}
use lact.Config.{FanControlSettings}
use lact.Prelude.Io.{pure, raise, lift, attempt, in_context, ◌>>=◌, ◌>>◌}
use lact.Amd.Card.{Card, Io, Call, ask, write, stage, FanControlMethod, FanSetting}

module _ {P : Platform} (card : Card P) where
  -- `take()` of the running task's handle.
  unfoldable pub take_handle : Io P Bool
  take_handle s = (
    ok (elim s.fan_control_handle [ none ↦ false | some task ↦ true ]),
    record s { fan_control_handle = none },
  )

  unfoldable pub store_handle : FanCurve P → FanControlSettings P → Io P (Unit {0})
  store_handle curve settings s = (ok tt, record s { fan_control_handle = some (curve, settings) })

  unfoldable pub set_automatic : Result FanControlMethod → Io P (Unit {0})
  set_automatic (ok FanControlMethod.manual) =
      in_context "Could not set fan control back to automatic"
        (write card (Call.set_fan_control_method FanControlMethod.auto))
  set_automatic (ok FanControlMethod.auto) = pure tt
  set_automatic (err e) = pure tt

  unfoldable pub reset_curve : Result PmfwCurve → Io P (Unit {0})
  reset_curve (ok curve) = do attempt (write card Call.reset_fan_curve); pure tt
  reset_curve (err e) = pure tt

  -- The end of `stop_fan_control` with `reset_mode`.
  unfoldable pub reset_fan_mode : Io P (Unit {0})
  reset_fan_mode = do
    curve ← attempt (ask Call.get_fan_curve card.fan_curve)
    reset_curve curve
    if card.has_hw_mon
        then (attempt (ask Call.get_fan_control_method card.fan_control_method) >>= set_automatic)
        else pure tt

  unfoldable pub stop_fan_control : Bool → Io P (Unit {0})
  stop_fan_control reset_mode = do
    running ← take_handle
    if running then write card Call.stop_task else pure tt
    if reset_mode then reset_fan_mode else pure tt

  -- `for _ in 1..len`: the other points of a static curve, all at the highest temperature.
  pub other_points : List (ℤ × ℕ) → ℤ × ℕ → List (ℤ × ℕ)
  other_points [] p = []
  other_points (x ∷ []) p = []
  other_points (x ∷ y ∷ rest) p = p ∷ other_points (y ∷ rest) p

  pub static_pwm : FanCurveRanges → P.F64 → ℕ
  static_pwm ranges speed =
      max ranges.speed_start (P.f64.to_u8 (P.f64.mul (P.f64.of_int (pos ranges.speed_end)) speed))

  pub static_curve : FanCurveRanges → List (ℤ × ℕ) → P.F64 → PmfwCurve
  static_curve ranges points speed = record {
    points =
        (ranges.temperature_start, static_pwm ranges speed)
        ∷ other_points points (ranges.temperature_end, static_pwm ranges speed);
    allowed_ranges = some ranges;
  }

  -- With the allowed ranges of the current curve and its points.
  unfoldable pub write_static_curve :
      Option FanCurveRanges → List (ℤ × ℕ) → P.F64 → Io P (Option P.CommitHandle)
  write_static_curve none points speed =
      raise (msg "The GPU does not allow setting custom fan values (is overdrive enabled?)")
  write_static_curve (some ranges) points speed = do
    handle ←
        in_context "Could not set fan curve"
          (stage card (Call.set_fan_curve (static_curve ranges points speed)))
    pure (some handle)

  -- `hw_monitors.first()`, then manual control.
  unfoldable pub take_over : Io P (Unit {0})
  take_over = do
    if card.has_hw_mon then pure tt else raise (msg "This GPU has no monitor")
    in_context "Could not set fan control method"
        (write card (Call.set_fan_control_method FanControlMethod.manual))

  unfoldable pub write_static_pwm : P.F64 → Io P (Option P.CommitHandle)
  write_static_pwm speed = do
    take_over
    in_context "could not set fan speed"
        (write card (Call.set_fan_pwm (P.f64.to_u8 (P.f64.mul (P.f64.of_int (pos 255)) speed))))
    pure none

  unfoldable pub static_by : P.F64 → Result PmfwCurve → Io P (Option P.CommitHandle)
  static_by speed (ok current_curve) =
      write_static_curve current_curve.allowed_ranges current_curve.points speed
  static_by speed (err e) = write_static_pwm speed

  unfoldable pub set_static_fan_control : P.F64 → Io P (Option P.CommitHandle)
  set_static_fan_control speed = do
    stop_fan_control false
    curve ← attempt (ask Call.get_fan_curve card.fan_curve)
    static_by speed curve

  unfoldable pub start_curve_fan_control_task :
      FanCurve P → FanControlSettings P → Io P (Option P.CommitHandle)
  start_curve_fan_control_task curve settings = do
    stop_fan_control false
    take_over
    write card Call.start_task
    store_handle curve settings
    pure none

  unfoldable pub curve_by :
      FanCurve P → FanControlSettings P → Result PmfwCurve → Io P (Option P.CommitHandle)
  curve_by curve settings (ok current_curve) = do
    new_curve ← in_context "Invalid fan curve" (lift (into_pmfw_curve P curve current_curve))
    handle ← in_context "Could not set fan curve" (stage card (Call.set_fan_curve new_curve))
    pure (some handle)
  curve_by curve settings (err e) = start_curve_fan_control_task curve settings

  unfoldable pub start_curve_fan_control :
      FanCurve P → FanControlSettings P → Io P (Option P.CommitHandle)
  start_curve_fan_control curve settings = do
    current ← attempt (ask Call.get_fan_curve card.fan_curve)
    curve_by curve settings current

  abbrev pub get_failed : FanSetting → String
  get_failed FanSetting.acoustic_limit = "Could not get acoustic limit"
  get_failed FanSetting.acoustic_target = "Could not get acoustic target"
  get_failed FanSetting.target_temperature = "Could not get target temperature"
  get_failed FanSetting.minimum_pwm = "Could not get minimum pwm"

  abbrev pub set_failed : FanSetting → String
  set_failed FanSetting.acoustic_limit = "Could not set acoustic limit"
  set_failed FanSetting.acoustic_target = "Could not set acoustic target"
  set_failed FanSetting.target_temperature = "Could not set target temperature"
  set_failed FanSetting.minimum_pwm = "Could not set minimum pwm"

  unfoldable pub stage_setting : FanSetting → ℕ → Io P (List P.CommitHandle)
  stage_setting setting value = do
    handle ← in_context (set_failed setting) (stage card (Call.set_fan_setting setting value))
    pure (handle ∷ [])

  -- One of the four firmware options: written only where it differs from the current value.
  unfoldable pub apply_fan_setting : FanSetting → Option ℕ → Io P (List P.CommitHandle)
  apply_fan_setting setting none = pure []
  apply_fan_setting setting (some value) = do
    current ←
        in_context (get_failed setting) (ask (Call.get_fan_setting setting) (card.fan_info setting))
    if current == value then pure [] else stage_setting setting value
