-- ===== src/Gui/Apply.antt =====
-- `apply_settings` of lact-gui/src/app.rs: the requests that the pages lead to.
pub mod Effect
pub mod Changes
pub mod Ends
use lact.Prelude.{ℕ, String, Option, none, some, List, [], ◌∷◌}
use lact.Prelude.Exec.{Exec, Error, Result, ok, err}
use lact.Prelude.Io.{pure, lift, in_context, ◌>>=◌, ◌>>◌}
use lact.Platform.{Platform}
use lact.Schema.{FanOptions, SetClocksCommand, ConfirmCommand, Request, confirm}
use lact.Gui.Toolkit.{Toolkit}
use lact.Gui.Clocks.{get_commands}
use lact.Gui.PerformanceFrame.{
  get_selected_power_profile_mode, get_power_profile_mode_custom_heuristics,
}
use lact.Gui.OcPage.{OcPage, get_power_cap, get_performance_level, get_page_power_states}
use lact.Gui.ThermalsPage.{ThermalsPage, ThermalsSettings, get_thermals_settings}

-- The daemon's client: a request with its answer, read already. `timer` reads a confirmation time.
pub record DaemonCalls (P : Platform) (Payload World : Type 0) : Type 0 where
  pub call : Request P → Exec World Payload
  pub timer : Payload → Result ℕ

unfoldable pub fan_options : {P : Platform} → String → ThermalsSettings P → FanOptions P
fan_options gpu_id settings = record {
  id = gpu_id;
  enabled = settings.manual_fan_control;
  mode = settings.mode;
  static_speed = settings.static_speed;
  curve = settings.curve;
  pmfw = settings.pmfw;
  spindown_delay_ms = settings.spindown_delay_ms;
  change_threshold = settings.change_threshold;
}

module _ {P : Platform} {Payload World : Type 0} (daemon : DaemonCalls P Payload World) where
  -- A change, and its confirmation.
  unfoldable pub commit : String → Request P → Exec World (Unit {0})
  commit message request =
      in_context message (daemon.call request)
      >> (in_context "Could not commit config"
            (daemon.call (Request.confirm_pending_config ConfirmCommand.confirm))
          >> pure tt)

  module _ (gpu_id : String) where
    unfoldable pub apply_power_cap : Option P.F64 → Exec World (Unit {0})
    unfolding commit
    apply_power_cap none = pure tt
    apply_power_cap (some cap) =
        commit "Failed to set power cap" (Request.set_power_cap gpu_id (some cap))

    unfoldable pub apply_performance_level :
        Option P.PerformanceLevel → OcPage P → Exec World (Unit {0})
    unfolding commit get_power_profile_mode_custom_heuristics
    apply_performance_level none page = pure tt
    apply_performance_level (some level) page =
        commit "Failed to set power profile" (Request.set_performance_level gpu_id level)
        >> commit "Could not set active power profile mode" (
            Request.set_power_profile_mode gpu_id
              (get_selected_power_profile_mode page.performance_frame)
              (get_power_profile_mode_custom_heuristics page.performance_frame))

    unfoldable pub apply_thermals : Option (ThermalsSettings P) → Exec World (Unit {0})
    unfolding commit fan_options
    apply_thermals none = pure tt
    apply_thermals (some settings) =
        commit "Could not set fan control" (Request.set_fan_control (fan_options gpu_id settings))

    unfoldable pub apply_states : P.PowerLevelKind → List ℕ → Exec World (Unit {0})
    unfolding commit
    apply_states kind [] = pure tt
    apply_states kind (state ∷ states) =
        commit "Could not set power states"
          (Request.set_enabled_power_states gpu_id kind (state ∷ states))

    unfoldable pub apply_power_states : List (P.PowerLevelKind × List ℕ) → Exec World (Unit {0})
    unfolding apply_states
    apply_power_states [] = pure tt
    apply_power_states ((kind, states) ∷ rest) = apply_states kind states >> apply_power_states rest

    -- The clocks are not confirmed here: the result is the time in which the user may do so.
    unfoldable pub apply_clocks : List SetClocksCommand → Exec World (Option ℕ)
    apply_clocks [] = pure none
    apply_clocks (command ∷ commands) =
        in_context "Could not commit clocks settings" (
          daemon.call (Request.batch_set_clocks_value gpu_id (command ∷ commands))
          >>= (λ payload. lift (daemon.timer payload)))
        >>= (λ delay. pure (some delay))

    unfoldable pub apply_settings : Toolkit P → OcPage P → ThermalsPage P → Exec World (Option ℕ)
    unfolding apply_power_cap commit apply_performance_level apply_thermals apply_power_states
        apply_clocks get_power_cap get_performance_level get_thermals_settings get_page_power_states
        get_commands
    apply_settings tk oc_page thermals_page =
        apply_power_cap (get_power_cap oc_page)
        >> (commit "Could not set default power profile mode"
              (Request.set_power_profile_mode gpu_id none [])
            >> (apply_performance_level (get_performance_level tk oc_page) oc_page
                >> (apply_thermals (get_thermals_settings tk thermals_page)
                    >> (apply_power_states (get_page_power_states oc_page)
                        >> apply_clocks (get_commands oc_page.clocks_frame)))))
