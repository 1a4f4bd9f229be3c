-- ===== src/Tests/Apps.antt =====
-- The examples of the window: its pages, its dialog and its header, over `fixed`.
use lact.Prelude.{arith, ℕ, ◌≡◌, ◌-◌, ◌<◌, ◌≤◌, refl, true, false, none, some, [], ◌∷◌}
use lact.Prelude.Dict.{get}
use lact.Platform.Fixed.{fixed}
use lact.Prelude.Int.{pos}
use lact.Prelude.Exec.{ok}
use lact.Curve.{validate, in_unit, validate_points}
use lact.Config.{Gpu, FanControlSettings, default_fan_settings, gpus}
use lact.Server.Prompt.Requests.{fan_edit}
use lact.Amd.Stats.{FanReadings, fan_stats, fan_settings}
use lact.Gui.ThermalsPage.Unchanged.{renewed, thermals_unchanged}
use lact.Schema.{FanControlMode}
use lact.Handler.Profiles.{list_profiles}
use lact.Server.Prompt.{Holds}
use lact.Gui.Clocks.{max_sclk, get_commands, move}
use lact.Gui.PerformanceFrame.{manual}
use lact.Gui.OcPage.{OcPage}
use lact.Gui.ThermalsPage.{
  ThermalsSettings, get_thermals_settings, set_fan_stats, ThermalsPage, static,
}
use lact.Gui.Header.{Header, show_profiles, selected_profile}
use lact.Gui.Header.Selected.{selected_profile-show_profiles}
use lact.Gui.Apply.{apply_settings, fan_options}
use lact.Gui.Apply.Changes.{pages_change}
use lact.Gui.Apply.Effect.{prompt_daemon}
use lact.Gui.Apply.Ends.{Ended, apply_settings_lem}
use lact.Gui.App.{App}
use lact.Gui.App.Dialogs.{ticks, open_at, over, ticks-open}
use lact.Tests.Fixtures.{env, config, with_profiles, with_cap, saved, daemon}
use lact.Tests.Requests.{system, readable}
use lact.Tests.Guis.{exact, toolkit, slider, shown, fan_frame}

-- The power limit was moved to 150, and the core clock to 2600; the level is manual.
abbrev oc_page : OcPage fixed
oc_page = record {
  power_cap_section = record {
    adjustment = record slider { value = 150; changed = true };
    default_value = 100;
    visible = true;
  };
  performance_frame = record {
    visible = true;
    selected = manual;
    mode_box = false;
    mode_menu_button = true;
    modes_table = none;
    selected_row = some 1;
    notebook_visible = false;
    values = [];
  };
  power_states_frame = record {
    sensitive = true;
    expanded = false;
    core = record { enabled = true; index = 0; active = true } ∷ [];
    vram = [];
  };
  clocks_frame = move toolkit max_sclk 2600000 shown;
}

abbrev thermals_page : ThermalsPage fixed
thermals_page = record {
  sensitive = true;
  child = static;
  fan_static_speed_adjustment = record slider { value = 50000 };
  fan_curve_frame = fan_frame;
  pmfw_frame = record {
    target_temperature = slider;
    acoustic_limit = slider;
    acoustic_target = slider;
    minimum_pwm = slider;
    reset_button = false;
  };
  pmfw_warning = false;
  overdrive_enabled = some true;
}

holds : Holds env "gpu" (with_cap 200) (daemon config)
unfolding gpus get
holds = record {
  quiet = record { no_change = refl; no_task = refl };
  settings = saved;
  read = refl;
  entry = refl;
}

apply_settings_lem_example :
    Ended env system "gpu"
      (pages_change env "gpu" toolkit oc_page thermals_page (with_cap 200))
      (get_commands oc_page.clocks_frame)
      (apply_settings
        (prompt_daemon env system)
        "gpu"
        toolkit
        oc_page
        thermals_page
        (daemon config))
apply_settings_lem_example =
    apply_settings_lem env system "gpu" toolkit oc_page thermals_page (with_cap 200) (daemon config)
      holds

abbrev header : Header
header = record { gpus = []; selected_gpu = 0; profiles = []; selected_profile_index = 0 }

selected_profile-show_profiles_example :
    (after : Header) × (show_profiles (list_profiles env (daemon with_profiles)) header
      ≡ some after)
    × (selected_profile after ≡ some (some "gaming"))
selected_profile-show_profiles_example =
    selected_profile-show_profiles env (daemon with_profiles) header readable

abbrev app : App fixed ℕ
app = record {
  oc_page = oc_page;
  thermals_page = thermals_page;
  header = header;
  apply_revealer = false;
  stats_task = none;
  reconnecting = false;
  dialog = none;
  asking = [];
  sent = [];
  daemon = 0;
}

ticks-open_example :
    (3 < 5 → ticks 3 (open_at 5 app) ≡ open_at (5 - 3) app)
    × (0 < 5 → 5 ≤ 3 → ticks 3 (open_at 5 app) ≡ over app)
ticks-open_example = ticks-open 3 5 app

abbrev by_curve : FanControlSettings fixed
by_curve = record (default_fan_settings fixed) {
  mode = FanControlMode.curve;
  curve = record { points = (pos 40, 300) ∷ (pos 60, 700) ∷ [] };
}

abbrev fan_gpu : Gpu fixed
fan_gpu = record (with_cap 200) { fan_control_enabled = true; fan_control_settings = some by_curve }

abbrev readings : FanReadings
readings = record {
  pwm_current = none;
  speed_current = some 900;
  speed_max = none;
  speed_min = none;
  pmfw_info = record {
    acoustic_limit = none;
    acoustic_target = none;
    target_temp = none;
    minimum_pwm = none;
  };
}

thermals_unchanged_example :
    (asked : ThermalsSettings fixed) × (new : Gpu fixed) × (get_thermals_settings toolkit
        (set_fan_stats toolkit (fan_stats (some fan_gpu) readings) true thermals_page)
      ≡ some asked)
    × (fan_edit env (fan_options "gpu" asked) fan_gpu ≡ ok new)
    × (new.fan_control_enabled ≡ true)
    × (fan_settings (some new) ≡ some (renewed (fan_options "gpu" asked) by_curve))
unfolding validate in_unit validate_points
thermals_unchanged_example =
    thermals_unchanged env toolkit fan_gpu by_curve readings thermals_page "gpu" (pos 40, 300)
      ((pos 60, 700) ∷ []) exact refl refl refl refl refl refl (tt, ((refl, tt), tt))
      ((omega arith, omega arith, refl, refl), ((omega arith, omega arith, refl, refl), tt))
