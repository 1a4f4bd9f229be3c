-- ===== src/Tests/Requests.antt =====
-- The examples of server.rs, the profiles and the settings of handler.rs.
use lact.Prelude.{
  ◌⊎◌, List, String, ◌≡◌, ◌≢◌, refl, true, false, none, some, [], ◌∷◌, str_eq, eq_iff,
  if◌then◌else◌, length,
}
use mathlib.Core.Bool.{false≢true}
use lact.Prelude.Exec.{msg, Result, ok, err, is_ok}
use lact.Prelude.Dict.{Dict, get, insert}
use lact.Platform.Fixed.{fixed}
use lact.Schema.{
  ConfirmCommand, ProfileBase, FanOptions, FanControlMode, default_pmfw_options, Request,
  default_fan_curve,
}
use lact.Curve.{validate, in_unit, validate_points}
use lact.Config.{
  Gpu, FanControlSettings, gpus, default_fan_settings, default_gpu, default_fan_static_speed,
}
use lact.Handler.State.{find_controller}
use lact.Handler.Edit.{command, finish_task}
use lact.Handler.Settings.{
  set_fan_control, requested_settings, with_fan_options, out_of_range, static_settings,
}
use lact.Handler.Settings.Fan.{
  AreValid, WithEntry, SameElsewhere, requested_settings-IsValid, set_fan_control-WithEntry,
}
use lact.Handler.Profiles.{set_profile, delete_profile, is_current}
use lact.Handler.Profiles.Valid.{IsReadable}
use lact.Handler.Profiles.Switch.{
  IsRefused, IsCreated, create_profile_lem, delete_profile_lem, confirm_after_switch,
}
use lact.Server.{Line, System, handle_request, handle_stream}
use lact.Server.Pending.{edits_refused}
use lact.Server.Stream.{handle_request-IsReadable, handle_stream_lem}
use lact.Tests.Fixtures.{
  env, card, config, with_profiles, daemon, saved, with_cap, pending, waiting_task,
}

abbrev pub system : System env
system = record {
  info = λ w. (ok 0, w);
  enable_overdrive = λ w. (ok 0, w);
  disable_overdrive = λ w. (ok 0, w);
  generate_snapshot = λ w. (ok 0, w);
}

pub readable : IsReadable with_profiles
unfolding gpus get
readable = refl

abbrev cap_request : Request fixed
cap_request = Request.set_power_cap "gpu" (some 150)

handle_request-IsReadable_example :
    IsReadable
      (handle_request env system (Request.delete_profile "gaming") (daemon with_profiles)).1.config
handle_request-IsReadable_example =
    handle_request-IsReadable env system (daemon with_profiles) (Request.delete_profile "gaming")
      readable

-- Only the line "ping" parses.
abbrev parse : String → Result (Request fixed)
parse line = if str_eq line "ping" then ok Request.ping else err (msg "unknown")

abbrev line : String → Line
line text = record { text = ok text; written = ok tt }

-- A line that does not parse is answered too; the one after the last is not UTF-8.
abbrev lines : List Line
lines = line "ping" ∷ line "pong" ∷ record (line "") { text = err (msg "not UTF-8") } ∷ []

two_responses : length (handle_stream env system parse lines (daemon with_profiles)).1 ≡ 2
two_responses = (handle_stream_lem env system parse lines (daemon with_profiles) readable).0

edits_refused_example :
    (is_ok (handle_request env system cap_request pending).0 ≡ false)
    × ((handle_request env system cap_request pending).1.confirm_config_tx ≡ some 4)
    × ((handle_request env system cap_request pending).1.tasks ≡ pending.tasks)
edits_refused_example = edits_refused env system pending 4 refl cap_request refl

create_profile_lem_example :
    IsRefused env (daemon with_profiles) "new" ProfileBase.default
    ⊎ IsCreated env (daemon with_profiles) "new" ProfileBase.default
create_profile_lem_example = create_profile_lem env (daemon with_profiles) "new" ProfileBase.default

leaves : is_ok (set_profile env none (daemon with_profiles)).0 ≡ true
unfolding set_profile gpus get
leaves = refl

delete_profile_lem_example :
    (get str_eq (delete_profile env "gaming" (daemon with_profiles)).1.config.profiles "gaming"
      ≡ none)
    × (is_current env (delete_profile env "gaming" (daemon with_profiles)).1.config "gaming"
        ≡ false)
    × ((j : String)
        → j ≢ "gaming"
        → get str_eq (delete_profile env "gaming" (daemon with_profiles)).1.config.profiles j
          ≡ get str_eq with_profiles.profiles j)
delete_profile_lem_example = delete_profile_lem env (daemon with_profiles) "gaming" λ e. leaves

confirm_after_switch_example :
    (gpus fixed
        (finish_task env
          (waiting_task 4)
          (command ConfirmCommand.confirm)
          (set_profile env (some "quiet") (daemon with_profiles)).1).config
      ≡ ok (insert str_eq [] "gpu" (with_cap 150)))
    × ((finish_task env
          (waiting_task 4)
          (command ConfirmCommand.confirm)
          (set_profile env (some "quiet") (daemon with_profiles)).1).config.current_profile
        ≡ some "quiet")
    × (get str_eq
          (finish_task env
            (waiting_task 4)
            (command ConfirmCommand.confirm)
            (set_profile env (some "quiet") (daemon with_profiles)).1).config.profiles
          "gaming"
        ≡ get str_eq with_profiles.profiles "gaming")
unfolding get find_controller
confirm_after_switch_example =
    confirm_after_switch env (daemon with_profiles) (waiting_task 4) "gaming" "quiet"
      (record { gpus = [] }) card refl (λ e. false≢true ((eq_iff "gaming" "quiet").1 e)) refl refl

-- A request for half the speed.
abbrev half : FanOptions fixed
half = record {
  id = "gpu";
  enabled = true;
  mode = some FanControlMode.static;
  static_speed = some 500;
  curve = none;
  pmfw = default_pmfw_options;
  spindown_delay_ms = none;
  change_threshold = none;
}

abbrev half_settings : FanControlSettings fixed
unfolding default_fan_settings
half_settings = record (default_fan_settings fixed) {
  mode = FanControlMode.static;
  static_speed = 500;
}

requested_settings-IsValid_example :
    AreValid fixed
      (with_fan_options fixed half (some half_settings) (default_gpu fixed)).fan_control_settings
unfolding requested_settings static_settings out_of_range default_fan_settings
    default_fan_static_speed validate validate_points in_unit default_fan_curve
requested_settings-IsValid_example =
    requested_settings-IsValid fixed (some FanControlMode.static) (default_gpu fixed) half
      (some half_settings) (record { speed = refl; shares = refl }) tt refl

set_fan_control-WithEntry_example :
    (settings : Dict String (Gpu fixed)) × (gpus fixed
        (set_fan_control env half (daemon config)).1.config
      ≡ ok settings)
    × WithEntry fixed saved "gpu" settings
    × SameElsewhere fixed config (set_fan_control env half (daemon config)).1.config
unfolding gpus
set_fan_control-WithEntry_example = set_fan_control-WithEntry env (daemon config) half saved refl
