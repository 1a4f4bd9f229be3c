-- ===== src/Tests/Cards.antt =====
-- The examples of amd.rs.
use lact.Prelude.{◌≡◌, refl, true, false, none, some, List, [], ◌∷◌}
use lact.Prelude.Exec.{msg, ok, err, is_ok}
use lact.Platform.Fixed.{fixed}
use lact.Config.{Gpu, default_gpu}
use lact.Config.{is_core_clocks_used}
use lact.Prelude.{ℕ, str_eq}
use lact.Prelude.Dict.{get}
use lact.Prelude.Exec.{Result}
use lact.Config.{Config, default_config, gpus}
use lact.Handler.State.{GpuController, Handler}
use lact.Handler.Settings.{set_performance_level}
use lact.Amd.Controller.{amd_env, set_performance_level_stuck}
use lact.Prelude.Io.{pure, raise, lift, attempt, in_context, ◌>>=◌}
use lact.Amd.Card.{Card, Amd, Call, FanSetting, FanControlMethod, ask, write, stage}
use lact.Amd.PowerCap.{
  apply_power_cap, apply_cap, first_hw_mon, get_usage, or_average, lower_level, lower_from,
  after_lowering, wait_until_lowest_clock_level, is_lowest, set_cap_if_changed, set_if, differs,
  restore_level,
}
use lact.Amd.Clocks.{apply_clocks, apply_level, apply_mode, apply_states}
use lact.Amd.Fan.{
  apply_fan_setting, stage_setting, stop_fan_control, take_handle, reset_fan_mode, set_automatic,
  reset_curve,
}
use lact.Amd.Apply.{configure, apply_config, commit_all, apply_fan, apply_pmfw}
use lact.Amd.Caps.{IsGuarded, nothing, apply_config-IsGuarded}
use lact.Amd.Commits.{commits, committed, apply_config_commits}
use lact.Amd.Guards.{no_settings, apply_config_refuses}

-- A card that draws 250 W with a limit of 220 W, and runs every call. It has firmware fan control.
abbrev pub willing : Card fixed
willing = record {
  has_hw_mon = true;
  power_input = λ t. ok 250000;
  power_average = λ t. ok 250000;
  power_cap = λ t. ok 220000;
  power_cap_default = λ t. ok 220000;
  performance_level = λ t. ok 0;
  active_level = λ t. ok (some 0);
  clocks_table = λ t. ok 0;
  fan_curve = λ t. err (msg "no curve");
  fan_control_method = λ t. ok FanControlMethod.auto;
  fan_info = λ setting t. ok 30;
  written = λ call t. ok tt;
  staged = λ call t. ok 9;
}

abbrev pub fresh_card : Amd fixed
fresh_card = record { calls = []; fan_control_handle = none }

-- A limit of 150 W and another target temperature.
abbrev settings : Gpu fixed
settings = record (default_gpu fixed) {
  power_cap = some 150000;
  pmfw_options = record {
    acoustic_limit = none;
    acoustic_target = none;
    minimum_pwm = none;
    target_temperature = some 80;
  };
}

runs : is_ok (apply_config willing settings fresh_card).0 ≡ true
unfolding apply_config configure commit_all apply_power_cap apply_cap first_hw_mon get_usage
    or_average lower_level lower_from after_lowering wait_until_lowest_clock_level is_lowest
    set_cap_if_changed set_if differs restore_level apply_clocks is_core_clocks_used apply_level
    apply_mode apply_states apply_fan apply_pmfw apply_fan_setting stage_setting stop_fan_control
    take_handle reset_fan_mode set_automatic reset_curve ask write stage pure raise lift attempt
    in_context ◌>>=◌
runs = refl

-- The level was lowered and restored around the new limit, and the write was committed at the end.
calls_of_settings :
    (apply_config willing settings fresh_card).1.calls
    ≡ Call.commit 9
      ∷ Call.get_fan_control_method
      ∷ Call.get_fan_curve
      ∷ Call.set_fan_setting FanSetting.target_temperature 80
      ∷ Call.get_fan_setting FanSetting.target_temperature
      ∷ Call.set_power_force_performance_level 0
      ∷ Call.reset_clocks_table
      ∷ Call.set_power_force_performance_level 0
      ∷ Call.set_power_cap 150000
      ∷ Call.get_power_cap
      ∷ Call.get_core_clock_levels
      ∷ Call.set_power_force_performance_level 1
      ∷ Call.get_power_force_performance_level
      ∷ Call.get_power_input
      ∷ []
unfolding apply_config configure commit_all apply_power_cap apply_cap first_hw_mon get_usage
    or_average lower_level lower_from after_lowering wait_until_lowest_clock_level is_lowest
    set_cap_if_changed set_if differs restore_level apply_clocks is_core_clocks_used apply_level
    apply_mode apply_states apply_fan apply_pmfw apply_fan_setting stage_setting stop_fan_control
    take_handle reset_fan_mode set_automatic reset_curve ask write stage pure raise lift attempt
    in_context ◌>>=◌
calls_of_settings = refl

apply_config-IsGuarded_example :
    IsGuarded willing (apply_config willing settings fresh_card).1.calls
apply_config-IsGuarded_example = apply_config-IsGuarded willing settings fresh_card nothing

apply_config_commits_example :
    (handles : List fixed.CommitHandle) × ((configure willing settings fresh_card).0 ≡ ok handles)
    × ((apply_config willing settings fresh_card).1.calls
        ≡ committed handles (configure willing settings fresh_card).1.calls)
    × (commits (configure willing settings fresh_card).1.calls ≡ [])
apply_config_commits_example = apply_config_commits willing settings fresh_card runs

abbrev modes : Gpu fixed
modes = record (default_gpu fixed) { power_profile_mode_index = some 1; performance_level = some 3 }

apply_config_refuses_example :
    is_ok
      (apply_config willing
        (record (default_gpu fixed) { fan_control_enabled = true })
        fresh_card).0
    ≡ false
apply_config_refuses_example =
    apply_config_refuses willing (record (default_gpu fixed) { fan_control_enabled = true })
      fresh_card (no_settings refl refl)

-- A daemon with a card that runs every call, and a mode configured for it.
abbrev info : GpuController fixed (Amd fixed) ℕ
info = record {
  pci_model = none;
  get_info = λ s. 0;
  get_stats = λ gpu s. 0;
  get_clocks_info = λ s. ok 0;
  get_power_states = λ gpu s. record { core = []; vram = [] };
  get_power_profile_modes = λ s. ok 0;
  vbios_dump = λ s. ok 0;
  apply_config = λ gpu s. (ok tt, s);
  reset_pmfw_settings = λ s. s;
  cleanup_clocks = λ s. (ok tt, s);
}

abbrev save : Config fixed → Amd fixed → Result (Unit {0}) × Amd fixed
save config s = (ok tt, s)

abbrev now : Amd fixed → ℕ
now s = 0

abbrev amd_daemon : Handler (amd_env willing info "gpu" save now)
amd_daemon = record {
  config = record (default_config fixed) { gpus = ("gpu", modes) ∷ [] };
  confirm_config_tx = none;
  config_last_saved = 0;
  tasks = [];
  next_channel = 0;
  world = fresh_card;
}

readable : gpus fixed amd_daemon.config ≡ ok (("gpu", modes) ∷ [])
unfolding gpus
readable = refl

configured : get str_eq (("gpu", modes) ∷ []) "gpu" ≡ some modes
unfolding get
configured = refl

set_performance_level_stuck_example :
    (is_ok (set_performance_level (amd_env willing info "gpu" save now) "gpu" 1 amd_daemon).0
      ≡ false)
    × ((set_performance_level (amd_env willing info "gpu" save now) "gpu" 1 amd_daemon).1.config
        ≡ amd_daemon.config)
    × ((set_performance_level
          (amd_env willing info "gpu" save now)
          "gpu"
          1
          amd_daemon).1.confirm_config_tx
        ≡ none)
set_performance_level_stuck_example =
    set_performance_level_stuck willing info "gpu" save now amd_daemon (("gpu", modes) ∷ []) modes 1
      1 refl readable configured refl refl

-- A card without a hardware monitor takes no limit.
abbrev bare : Card fixed
bare = record willing { has_hw_mon = false }

stops : (configure bare settings fresh_card).0 ≡ err (msg "GPU has no hardware monitor")
unfolding configure apply_power_cap apply_cap first_hw_mon pure raise ◌>>=◌
stops = refl
