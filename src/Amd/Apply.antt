-- ===== src/Amd/Apply.antt =====
-- `apply_config`, `reset_pmfw_settings` and `cleanup_clocks` of `AmdGpuController`.
use lact.Prelude.{ℕ, true, Option, none, some, List, [], ◌∷◌, ◌++◌, if◌then◌else◌}
use lact.Prelude.Int.{ℤ}
use lact.Prelude.Exec.{Error, msg, Result, ok, err}
use lact.Platform.{Platform}
use lact.Schema.{FanControlMode, PmfwOptions}
use lact.Config.{FanControlSettings, Gpu}
use lact.Prelude.Io.{pure, raise, attempt, in_context, ◌>>=◌, ◌>>◌}
use lact.Amd.Card.{Card, Io, Call, ask, write, FanSetting}
use lact.Amd.PowerCap.{apply_power_cap}
use lact.Amd.Clocks.{apply_clocks, apply_level, apply_mode, apply_states}
use lact.Amd.Fan.{
  set_static_fan_control, start_curve_fan_control, stop_fan_control, apply_fan_setting,
}

module _ {P : Platform} (card : Card P) where
  -- `commit_handles.push(…)` of what a fan call may return.
  pub pushed : Option P.CommitHandle → List P.CommitHandle
  pushed none = []
  pushed (some handle) = handle ∷ []

  abbrev pub no_settings : Error
  no_settings = msg "Trying to enable fan control with no settings provided"

  -- The check of `settings.curve.0.is_empty()`, on the points.
  unfoldable pub start_curve :
      List (ℤ × P.F32) → FanControlSettings P → Io P (Option P.CommitHandle)
  start_curve [] settings = raise (msg "Cannot use empty fan curve")
  start_curve (p ∷ ps) settings =
      in_context "Failed to set curve fan control"
        (start_curve_fan_control card settings.curve settings)

  unfoldable pub apply_mode_of :
      FanControlMode → FanControlSettings P → Io P (Option P.CommitHandle)
  apply_mode_of FanControlMode.static settings =
      in_context "Failed to set static fan control"
        (set_static_fan_control card settings.static_speed)
  apply_mode_of FanControlMode.curve settings = start_curve settings.curve.points settings

  unfoldable pub apply_enabled : Option (FanControlSettings P) → Io P (List P.CommitHandle)
  apply_enabled none = raise no_settings
  apply_enabled (some settings) = do
    handle ← apply_mode_of settings.mode settings
    pure (pushed handle)

  unfoldable pub apply_pmfw : PmfwOptions → Io P (List P.CommitHandle)
  apply_pmfw options = do
    limit ← apply_fan_setting card FanSetting.acoustic_limit options.acoustic_limit
    target ← apply_fan_setting card FanSetting.acoustic_target options.acoustic_target
    temperature ← apply_fan_setting card FanSetting.target_temperature options.target_temperature
    pwm ← apply_fan_setting card FanSetting.minimum_pwm options.minimum_pwm
    in_context "Failed to stop fan control" (stop_fan_control card true)
    pure (limit ++ (target ++ (temperature ++ pwm)))

  unfoldable pub apply_fan : Gpu P → Io P (List P.CommitHandle)
  apply_fan config =
      if config.fan_control_enabled
      then apply_enabled config.fan_control_settings
      else apply_pmfw config.pmfw_options

  -- Everything up to the commits, with the handles that are to be committed, in order.
  unfoldable pub configure : Gpu P → Io P (List P.CommitHandle)
  configure config = do
    apply_power_cap card config.power_cap
    clocks ← apply_clocks card config
    apply_level card config.performance_level
    apply_mode card config.power_profile_mode_index config.performance_level
        config.custom_power_profile_mode_hueristics
    apply_states card config.power_states config.performance_level
    fan ← apply_fan config
    pure (clocks ++ fan)

  unfoldable pub commit_all : List P.CommitHandle → Io P (Unit {0})
  commit_all [] = pure tt
  commit_all (handle ∷ handles) = do write card (Call.commit handle); commit_all handles

  unfoldable pub apply_config : Gpu P → Io P (Unit {0})
  apply_config config = do commit_handles ← configure config; commit_all commit_handles

  reset_if : FanSetting → Result ℕ → Io P (Unit {0})
  reset_if setting (ok info) = do attempt (write card (Call.reset_fan_setting setting)); pure tt
  reset_if setting (err e) = pure tt

  reset_setting : FanSetting → Io P (Unit {0})
  unfolding reset_if
  reset_setting setting = do
    info ← attempt (ask (Call.get_fan_setting setting) (card.fan_info setting))
    reset_if setting info

  pub reset_pmfw_settings : Io P (Unit {0})
  unfolding reset_setting
  reset_pmfw_settings = do
    reset_setting FanSetting.target_temperature
    reset_setting FanSetting.acoustic_target
    reset_setting FanSetting.acoustic_limit
    reset_setting FanSetting.minimum_pwm

  cleanup_table : Result P.ClocksTable → Io P (Unit {0})
  cleanup_table (ok table) = write card Call.reset_clocks_table
  cleanup_table (err e) = pure tt

  unfoldable pub cleanup_clocks : Io P (Unit {0})
  unfolding cleanup_table
  cleanup_clocks = do
    table ← attempt (ask Call.get_clocks_table card.clocks_table)
    cleanup_table table
