-- ===== src/Gui/ThermalsPage/Unchanged.antt =====
-- Fan settings that come back from the page as they were shown.
use lact.Prelude.{◌≡◌, refl, sym, ap, ◌∙◌, true, some, List, [], ◌∷◌, All, String, inl, inr, arith}
use lact.Prelude.Int.{ℤ}
use lact.Prelude.Exec.{Result-cases, ok, is_ok}
use lact.Platform.{Platform}
use lact.Schema.{FanStats, FanOptions, FanControlMode}
use lact.Curve.{validate}
use lact.Config.{Gpu, FanControlSettings}
use lact.Handler.State.{Env}
use lact.Handler.Settings.{
  requested_settings, or_keep, curve_settings, new_curve, checked_curve, with_fan_options,
}
use lact.Server.Prompt.Requests.{fan_edit}
use lact.Amd.Stats.{FanReadings, fan_stats, fan_settings}
use lact.Gui.Toolkit.{Toolkit}
use lact.Gui.FanCurveFrame.{FanCurveFrame, set_curve, get_curve}
use lact.Gui.FanCurveFrame.Points.{IsExact, Follows, InRange, get_curve-set_curve}
use lact.Gui.Apply.{fan_options}
use lact.Gui.ThermalsPage.{
  Child, mode_of, ThermalsPage, ThermalsSettings, has_fan, filled_frame, default_if_empty, nonempty,
  settings_of, filled_frame, curve_frame_of, set_fan_stats, get_thermals_settings,
}

module _ {P : Platform} (tk : Toolkit P) (exact : IsExact tk) where
  module _ (fan : FanStats P) (frame : FanCurveFrame P) (p : ℤ × P.F32) (points : List (ℤ × P.F32))
      (shown : fan.curve ≡ some (p ∷ points)) (follows : Follows [] (p ∷ points))
      (range : All (InRange tk) (p ∷ points)) where
    filled_shows : get_curve tk (filled_frame tk fan frame) ≡ p ∷ points
    unfolding get_curve set_curve
    filled_shows = rw shown (get_curve-set_curve tk exact (p ∷ points) frame follows range)

    keeps_frame : curve_frame_of tk fan frame ≡ filled_frame tk fan frame
    keeps_frame =
        ap (λ c. default_if_empty tk fan.control_enabled c (filled_frame tk fan frame)) filled_shows

    frame_shows : get_curve tk (curve_frame_of tk fan frame) ≡ p ∷ points
    frame_shows = ap (get_curve tk) keeps_frame ∙ filled_shows

  module _ (gpu : Gpu P) (settings : FanControlSettings P) (readings : FanReadings)
      (page : ThermalsPage P) (p : ℤ × P.F32) (points : List (ℤ × P.F32))
      (enabled : gpu.fan_control_enabled ≡ true) (stored : gpu.fan_control_settings ≡ some settings)
      (by_curve : settings.mode ≡ FanControlMode.curve)
      (its_points : settings.curve.points ≡ p ∷ points)
      (fan : has_fan readings.speed_current readings.pwm_current ≡ true)
      (follows : Follows [] (p ∷ points)) (range : All (InRange tk) (p ∷ points)) where
    abbrev stats : FanStats P
    stats = fan_stats (some gpu) readings

    abbrev after : ThermalsPage P
    after = set_fan_stats tk stats true page

    asks : get_thermals_settings tk after ≡ some (settings_of tk after)
    unfolding get_thermals_settings set_fan_stats fan_stats
    asks = rw fan refl

    child_lem : after.child ≡ Child.curve
    unfolding set_fan_stats fan_stats
    child_lem = rw (enabled, stored, by_curve) refl

    curve_lem : (settings_of tk after).curve ≡ some (p ∷ points)
    unfolding set_fan_stats fan_stats
    curve_lem = ap nonempty (
        frame_shows stats page.fan_curve_frame p points (rw (stored, its_points) refl) follows
          range)

-- Settings by curve, with the options of a request.
abbrev pub renewed : {P : Platform} → FanOptions P → FanControlSettings P → FanControlSettings P
renewed opts settings = record settings {
  mode = FanControlMode.curve;
  change_threshold = or_keep opts.change_threshold settings.change_threshold;
  spindown_delay_ms = or_keep opts.spindown_delay_ms settings.spindown_delay_ms;
}

-- The daemon takes the settings that it has already, with the options that came along.
module _ (E : Env) (gpu : Gpu E.platform) (settings : FanControlSettings E.platform)
    (stored : gpu.fan_control_settings ≡ some settings)
    (valid : is_ok (validate E.platform settings.curve) ≡ true) (opts : FanOptions E.platform)
    (mode : opts.mode ≡ some FanControlMode.curve)
    (same : opts.curve ≡ some settings.curve.points) where
  curve_checked : checked_curve E.platform settings.curve.points ≡ ok settings.curve
  unfolding checked_curve
  curve_checked = elim (Result-cases (validate E.platform settings.curve)) [
    | inl (u, p) ↦ rw (p, checked_curve) refl
    | inr (e, p) ↦ absurd (ground arith)
  ]

  settings_renewed : curve_settings E.platform (some settings) opts ≡ ok (renewed opts settings)
  unfolding curve_settings new_curve
  settings_renewed =
      let taken = ap (λ c. new_curve E.platform c settings.curve) same ∙ curve_checked in
      rw (taken, curve_settings) refl

  request_renewed :
      requested_settings E.platform (some FanControlMode.curve) gpu opts
      ≡ ok (some (renewed opts settings))
  unfolding requested_settings
  request_renewed =
      let taken = ap (λ s. curve_settings E.platform s opts) stored ∙ settings_renewed in
      rw (taken, requested_settings) refl

  fan_edit-renewed :
      fan_edit E opts gpu ≡ ok (with_fan_options E.platform opts (some (renewed opts settings)) gpu)
  fan_edit-renewed =
      let asked = ap (λ m. requested_settings E.platform m gpu opts) mode ∙ request_renewed in
      rw asked refl

-- Where the casts are exact on the numbers used, for a card with a fan that is controlled by a
-- curve which the daemon accepts, whose temperatures rise and whose points are within the sliders'
-- limits: the thermals page, filled from the card's statistics, asks for fan control, the daemon
-- takes that request, fan control stays on, and the card's fan control settings stay the same, the
-- curve included, apart from the two numbers of the hysteresis, which are those of the sliders.
pub thermals_unchanged :
    (E : Env) (tk : Toolkit E.platform) (gpu : Gpu E.platform)
    (settings : FanControlSettings E.platform) (readings : FanReadings)
    (page : ThermalsPage E.platform) (id : String) (p : ℤ × E.platform.F32)
    (points : List (ℤ × E.platform.F32))
    → IsExact tk
    → gpu.fan_control_enabled ≡ true
    → gpu.fan_control_settings ≡ some settings
    → settings.mode ≡ FanControlMode.curve
    → settings.curve.points ≡ p ∷ points
    → is_ok (validate E.platform settings.curve) ≡ true
    → has_fan readings.speed_current readings.pwm_current ≡ true
    → Follows [] (p ∷ points)
    → All (InRange tk) (p ∷ points)
    → (asked : ThermalsSettings E.platform) × (new : Gpu E.platform) × (get_thermals_settings tk
          (set_fan_stats tk (fan_stats (some gpu) readings) true page)
        ≡ some asked)
      × (fan_edit E (fan_options id asked) gpu ≡ ok new)
      × (new.fan_control_enabled ≡ true)
      × (fan_settings (some new) ≡ some (renewed (fan_options id asked) settings))
unfolding fan_options with_fan_options
thermals_unchanged E tk gpu settings readings page id p points exact on stored by its valid fan
      follows range =
    let asked = settings_of tk (set_fan_stats tk (fan_stats (some gpu) readings) true page) in
    let opts = fan_options id asked in
    let child =
      child_lem tk exact gpu settings readings page p points on stored by its fan follows range in
    let shown =
      curve_lem tk exact gpu settings readings page p points on stored by its fan follows range in
    (
      asked,
      with_fan_options E.platform opts (some (renewed opts settings)) gpu,
      asks tk exact gpu settings readings page p points on stored by its fan follows range,
      fan_edit-renewed E gpu settings stored valid opts (ap (λ c. (mode_of c).1) child)
          (shown ∙ ap some (sym its)),
      ap (λ c. (mode_of c).0) child,
      refl,
    )
