-- ===== src/Handler/Settings.antt =====
-- The requests of handler.rs that edit the settings of one card.
pub mod Fan
pub mod Power
use lact.Prelude.{
  ℕ, String, ◌≡◌, Bool, true, false, not, ◌&&◌, Option, none, some, List, [], ◌∷◌, str_eq,
  if◌then◌else◌,
}
use lact.Prelude.Int.{ℤ}
use lact.Prelude.Exec.{
  Exec, Error, msg, Result, ok, err, pure, raise, lift, gets, modify, skip, in_context, ◌>>=◌, ◌>>◌,
}
use lact.Prelude.Dict.{Dict, get, insert}
use lact.Platform.{Platform}
use lact.Schema.{
  FanControlMode, FanOptions, SetClocksCommand, default_fan_curve, default_pmfw_options,
  PowerStates,
}
use lact.Curve.{FanCurve, validate}
use lact.Config.{
  Config, Gpu, FanControlSettings, default_fan_settings, default_fan_static_speed, gpus, set_gpus,
  apply_clocks_command, default_gpu,
}
use lact.Config.Clocks.{apply_commands}
use lact.Handler.State.{Env, Handler, on_world, controller_by_id, GpuController}
use lact.Handler.Edit.{edit_gpu_config, or_default}

abbrev pub or_else {ℓ} : {A : Type ℓ} → Option A → A → A
or_else none d = d
or_else (some a) d = a

abbrev pub or_keep {ℓ} : {A : Type ℓ} → Option A → Option A → Option A
or_keep none old = old
or_keep (some a) old = some a

module _ (P : Platform) where
  -- `Some(speed) if !(0.0..=1.0).contains(&speed)`
  unfoldable pub out_of_range : Option P.F64 → Bool
  out_of_range none = false
  out_of_range (some speed) =
      not (P.f64.le (P.f64.of_decimal 0 1) speed && P.f64.le speed (P.f64.of_decimal 10 1))

  unfoldable pub static_settings :
      Option (FanControlSettings P) → Option P.F64 → FanControlSettings P
  static_settings (some existing) speed = record existing {
    mode = FanControlMode.static;
    static_speed = or_else speed existing.static_speed;
  }
  static_settings none speed = record (default_fan_settings P) {
    mode = FanControlMode.static;
    static_speed = or_else speed (default_fan_static_speed P);
  }

  -- A new curve is validated, also where it is the default one.
  unfoldable pub checked_curve : List (ℤ × P.F32) → Result (FanCurve P)
  checked_curve raw =
      let curve : FanCurve P = record { points = raw } in
      elim (validate P curve) [ ok _ ↦ ok curve | err e ↦ err e ]

  unfoldable pub new_curve : Option (List (ℤ × P.F32)) → FanCurve P → Result (FanCurve P)
  unfolding checked_curve
  new_curve none old = ok old
  new_curve (some raw) old = checked_curve raw

  unfoldable pub curve_settings :
      Option (FanControlSettings P) → FanOptions P → Result (FanControlSettings P)
  unfolding new_curve checked_curve
  curve_settings (some existing) opts = elim (new_curve opts.curve existing.curve) [
    | err e ↦ err e
    | ok curve ↦ ok (record existing {
      mode = FanControlMode.curve;
      change_threshold = or_keep opts.change_threshold existing.change_threshold;
      spindown_delay_ms = or_keep opts.spindown_delay_ms existing.spindown_delay_ms;
      curve = curve;
    })
  ]
  curve_settings none opts = elim (checked_curve (or_else opts.curve (default_fan_curve P))) [
    | err e ↦ err e
    | ok curve ↦ ok (record (default_fan_settings P) {
      mode = FanControlMode.curve;
      curve = curve;
      change_threshold = opts.change_threshold;
      spindown_delay_ms = opts.spindown_delay_ms;
    })
  ]

  -- The settings that the request asks for; `none` is a request without a mode.
  unfoldable pub requested_settings :
      Option FanControlMode → Gpu P → FanOptions P → Result (Option (FanControlSettings P))
  unfolding out_of_range static_settings curve_settings
  requested_settings none gpu opts = ok none
  requested_settings (some FanControlMode.static) gpu opts =
      if out_of_range opts.static_speed
      then err (msg "static speed value out of range")
      else ok (some (static_settings gpu.fan_control_settings opts.static_speed))
  requested_settings (some FanControlMode.curve) gpu opts =
      elim (curve_settings gpu.fan_control_settings opts) [
        | err e ↦ err e
        | ok settings ↦ ok (some settings)
      ]

  unfoldable pub with_fan_options : FanOptions P → Option (FanControlSettings P) → Gpu P → Gpu P
  with_fan_options opts none gpu = record gpu {
    fan_control_enabled = opts.enabled;
    pmfw_options = opts.pmfw;
  }
  with_fan_options opts (some settings) gpu = record gpu {
    fan_control_enabled = opts.enabled;
    fan_control_settings = some settings;
    pmfw_options = opts.pmfw;
  }

  -- `gpus_mut()?.entry(id).or_default()`: the entry, and the config that has it.
  unfoldable pub entry_or_default : Config P → String → Result (Gpu P × Config P)
  unfolding gpus set_gpus get insert
  entry_or_default config id = elim (gpus P config) [
    | err e ↦ err e
    | ok settings ↦ elim (get str_eq settings id) [
      | some gpu ↦ ok (gpu, config)
      | none ↦ ok (default_gpu P, set_gpus P config (insert str_eq settings id (default_gpu P)))
    ]
  ]

  -- `level != PerformanceLevel::Manual` clears the power states.
  unfoldable pub with_performance_level : P.PerformanceLevel → Gpu P → Gpu P
  with_performance_level level gpu = record gpu {
    performance_level = some level;
    power_states = if P.level_eq level P.manual then gpu.power_states else [];
  }

module _ (E : Env) where
  -- The entry is made before the options are checked, and stays if the check fails.
  unfoldable pub fan_entry : String → Exec (Handler E) (Gpu E.platform)
  unfolding entry_or_default
  fan_entry id h = elim (entry_or_default E.platform h.config id) [
    | err e ↦ (err e, h)
    | ok (gpu, config) ↦ (ok gpu, record h { config = config })
  ]

  unfoldable pub set_fan_control : FanOptions E.platform → Exec (Handler E) ℕ
  unfolding fan_entry requested_settings with_fan_options
  set_fan_control opts = do
    gpu ← fan_entry opts.id
    settings ← lift (requested_settings E.platform opts.mode gpu opts)
    in_context "Failed to edit GPU config"
        (edit_gpu_config E opts.id (with_fan_options E.platform opts settings))

  unfoldable pub reset_pmfw : String → Exec (Handler E) ℕ
  reset_pmfw id = do
    controller ← controller_by_id E id
    modify (λ h. record h { world = controller.reset_pmfw_settings h.world })
    in_context "Failed to edit GPU config and reset pmfw"
        (edit_gpu_config E id (λ gpu. record gpu { pmfw_options = default_pmfw_options }))

  unfoldable pub set_power_cap : String → Option E.platform.F64 → Exec (Handler E) ℕ
  set_power_cap id maybe_cap =
      in_context "Failed to edit GPU config and set power cap"
        (edit_gpu_config E id (λ gpu. record gpu { power_cap = maybe_cap }))

  unfoldable pub set_performance_level : String → E.platform.PerformanceLevel → Exec (Handler E) ℕ
  unfolding with_performance_level
  set_performance_level id level =
      in_context "Failed to edit GPU config and set performance level"
        (edit_gpu_config E id (with_performance_level E.platform level))

  -- A reset first cleans the card's clocks, and stops if that fails.
  pub cleanup_before : String → SetClocksCommand → Exec (Handler E) (Unit {0})
  cleanup_before id SetClocksCommand.reset = do
    controller ← controller_by_id E id
    on_world E controller.cleanup_clocks
  cleanup_before id _ = skip

  unfoldable pub set_clocks_value : String → SetClocksCommand → Exec (Handler E) ℕ
  unfolding cleanup_before
  set_clocks_value id command = do
    cleanup_before id command
    in_context "Failed to edit GPU config and set clocks value"
        (edit_gpu_config E id (λ gpu. apply_clocks_command E.platform gpu command))

  unfoldable pub batch_set_clocks_value : String → List SetClocksCommand → Exec (Handler E) ℕ
  batch_set_clocks_value id commands =
      in_context "Failed to edit GPU config and batch set clocks"
        (edit_gpu_config E id (λ gpu. apply_commands E.platform gpu commands))

  unfoldable pub set_power_profile_mode :
      String → Option ℕ → List (List (Option ℤ)) → Exec (Handler E) ℕ
  set_power_profile_mode id index custom_heuristics =
      in_context "Failed to edit GPU config and set power profile mode" (
        edit_gpu_config E id (λ gpu. record gpu {
          power_profile_mode_index = index;
          custom_power_profile_mode_hueristics = custom_heuristics;
        }))

  unfoldable pub set_enabled_power_states :
      String → E.platform.PowerLevelKind → List ℕ → Exec (Handler E) ℕ
  set_enabled_power_states id kind enabled_states =
      in_context "Failed to edit GPU config and set enabled power states" (
        edit_gpu_config E id (λ gpu. record gpu {
          power_states = insert E.platform.kind_eq gpu.power_states kind enabled_states;
        }))

  -- `config.gpus()?.get(id)`
  unfoldable pub configured : String → Exec (Handler E) (Option (Gpu E.platform))
  configured id h =
      lift
        (elim (gpus E.platform h.config) [
          | ok settings ↦ ok (get str_eq settings id)
          | err e ↦ err e
        ])
        h

  unfoldable pub get_power_states : String → Exec (Handler E) PowerStates
  unfolding configured
  get_power_states id = do
    gpu_config ← configured id
    controller ← controller_by_id E id
    gets (λ h. controller.get_power_states gpu_config h.world)
