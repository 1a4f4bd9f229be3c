-- ===== src/Gui/App/Messages.antt =====
-- `AppModel::handle_msg` and what it calls.
use lact.Prelude.{ℕ, String, Bool, true, false, Option, none, some, [], ◌∷◌, ◌++◌}
use lact.Prelude.Exec.{msg, Result, ok, err, Exec}
use lact.Platform.{Platform}
use lact.Schema.{SetClocksCommand, ConfirmCommand, Request, PowerStates}
use lact.Client.{disconnected, reconnected}
use lact.Gui.Toolkit.{Toolkit}
use lact.Gui.Clocks.{ClocksTable, set_clocks_table, set_vram_clock_ratio}
use lact.Gui.PerformanceFrame.{PowerProfileModesTable, set_power_profile_modes}
use lact.Gui.PowerStatesFrame.{set_power_states}
use lact.Gui.OcPage.{OcPage, set_oc_stats}
use lact.Gui.ThermalsPage.{set_fan_stats, set_thermals_info}
use lact.Gui.Header.{show_profiles, selected_gpu_id}
use lact.Gui.Apply.{DaemonCalls, apply_settings}
use lact.Gui.App.{
  DeviceStats, Replies, AppMsg, App, Act, ◌>>=◌, ◌>>◌, change, send, may_panic, optional, opened,
}

-- The parts of a page that the answers replace; `none` is a panic of the widget.
abbrev with_modes : {P : Platform} → Option PowerProfileModesTable → OcPage P → Option (OcPage P)
with_modes table page = elim (set_power_profile_modes table page.performance_frame) [
  | none ↦ none
  | some frame ↦ some (record page { performance_frame = frame })
]

abbrev with_states : {P : Platform} → Option PowerStates → OcPage P → Option (OcPage P)
with_states none page = some page
with_states (some states) page = elim (set_power_states states page.power_states_frame) [
  | none ↦ none
  | some frame ↦ some (record page { power_states_frame = frame })
]

-- `unwrap_or(1.0)`, and `Option::flatten`.
abbrev or_one : (P : Platform) → Option P.F64 → P.F64
or_one P none = P.f64.of_decimal 10 1
or_one P (some ratio) = ratio

abbrev flatten : {A : Type 0} → Option (Option A) → Option A
flatten none = none
flatten (some a) = a

module _ {P : Platform} {Payload World : Type 0} (daemon : DaemonCalls P Payload World)
    (replies : Replies P Payload) (tk : Toolkit P) where
  abbrev on_oc_page : (OcPage P → Option (OcPage P)) → App P World → Option (App P World)
  on_oc_page f app = elim (f app.oc_page) [
    | none ↦ none
    | some page ↦ some (record app { oc_page = page })
  ]

  -- An action on the daemon, a request, and a request whose answer is read.
  abbrev on_daemon : {A : Type 0} → Exec World A → Act (App P World) A
  on_daemon act app = some ((act app.daemon).0, record app { daemon = (act app.daemon).1 })

  abbrev ask : Request P → Act (App P World) Payload
  ask request = on_daemon (daemon.call request)

  abbrev fetch : {A : Type 0} → Request P → (Payload → Result A) → Act (App P World) A
  fetch request read = ask request >>= λ payload app. some (read payload, app)

  unfoldable pub current_gpu_id : Act (App P World) String
  unfolding selected_gpu_id
  current_gpu_id app = elim (selected_gpu_id app.header) [
    | none ↦ some (err (msg "No GPU selected"), app)
    | some id ↦ some (ok id, app)
  ]

  unfoldable pub reload_profiles : Act (App P World) (Unit {0})
  unfolding show_profiles
  reload_profiles = fetch Request.list_profiles replies.profiles >>= λ info. may_panic (λ app.
      elim (show_profiles info app.header) [
        | none ↦ none
        | some header ↦ some (record app { header = header })
      ])

  abbrev show_stats : DeviceStats P → Bool → App P World → App P World
  show_stats stats initial app = record app {
    oc_page = set_oc_stats tk stats.oc initial app.oc_page;
    thermals_page = set_fan_stats tk stats.fan initial app.thermals_page;
  }

  abbrev show_table : Option (ClocksTable P) → App P World → App P World
  show_table table app = record app {
    oc_page = record app.oc_page {
      clocks_frame = set_clocks_table tk table app.oc_page.clocks_frame;
    };
  }

  -- The answers on clocks, modes and states may be missing; the one on statistics may not.
  unfoldable pub update_gpu_data : String → Act (App P World) (Unit {0})
  unfolding set_oc_stats set_fan_stats set_clocks_table set_power_profile_modes set_power_states
  update_gpu_data id =
      change (λ app. record app { stats_task = none })
      >> (fetch (Request.device_stats id) replies.stats >>= λ stats.
          change (show_stats stats true)
          >> (optional (fetch (Request.device_clocks_info id) replies.clocks) >>= λ table.
              change (show_table (flatten table))
              >> (optional (fetch (Request.device_power_profile_modes id) replies.modes)
                  >>= λ modes.
                      may_panic (on_oc_page (with_modes modes))
                      >> (optional (fetch (Request.get_power_states id) replies.states)
                          >>= λ states.
                              may_panic (on_oc_page (with_states states))
                              >> change (λ app. record app {
                                apply_revealer = false;
                                stats_task = some id;
                              })))))

  unfoldable pub update_gpu_data_full : String → Act (App P World) (Unit {0})
  unfolding update_gpu_data set_vram_clock_ratio set_thermals_info
  update_gpu_data_full id = fetch (Request.device_info id) replies.info >>= λ info.
      change (λ app. record app {
        oc_page = record app.oc_page {
          clocks_frame =
              set_vram_clock_ratio (or_one P info.vram_clock_ratio) app.oc_page.clocks_frame;
        };
      })
      >> (update_gpu_data id
          >> change (λ app. record app {
            thermals_page = set_thermals_info info.pmfw_family app.thermals_page;
          }))

  abbrev update : Bool → String → Act (App P World) (Unit {0})
  update true id = update_gpu_data_full id
  update false id = update_gpu_data id

  -- A dialog opens where a time is given.
  abbrev ask_settings_confirmation : Option ℕ → App P World → App P World
  ask_settings_confirmation none app = app
  ask_settings_confirmation (some delay) app = record app { dialog = some (opened delay) }

  -- After a failure to apply, the data is read again too.
  abbrev or_reload : Act (App P World) (Unit {0}) → Act (App P World) (Unit {0})
  or_reload act app = elim (act app) [
    | none ↦ none
    | some (r, app') ↦ elim r [
      | ok a ↦ some (ok a, app')
      | err e ↦ some (err e, record app' { sent = app'.sent ++ AppMsg.reload_data false ∷ [] })
    ]
  ]

  unfoldable pub apply_to : String → Act (App P World) (Unit {0})
  unfolding apply_settings
  apply_to id app =
      (on_daemon (apply_settings daemon id tk app.oc_page app.thermals_page) >>= λ delay.
      change (ask_settings_confirmation delay) >> send (AppMsg.reload_data false))
        app

  abbrev confirmed_reload : Request P → Act (App P World) (Unit {0})
  confirmed_reload request =
      ask request
      >> (ask (Request.confirm_pending_config ConfirmCommand.confirm)
          >> send (AppMsg.reload_data false))

  -- The answer is only shown.
  abbrev ask_shown : Request P → Act (App P World) (Unit {0})
  ask_shown request = optional (ask request) >>= λ answer. change (λ app. app)

  unfoldable pub handle_msg : AppMsg P → Act (App P World) (Unit {0})
  unfolding current_gpu_id reload_profiles update_gpu_data update_gpu_data_full apply_to
      set_oc_stats set_fan_stats
  handle_msg (AppMsg.error e) = λ app. some (err e, app)
  handle_msg AppMsg.reload_profiles = reload_profiles >> send (AppMsg.reload_data false)
  handle_msg (AppMsg.reload_data full) = current_gpu_id >>= update full
  handle_msg (AppMsg.select_profile name) =
      ask (Request.set_profile name) >> send (AppMsg.reload_data false)
  handle_msg (AppMsg.create_profile name base) =
      ask (Request.create_profile name base)
      >> (ask (Request.set_profile (some name)) >> send AppMsg.reload_profiles)
  handle_msg (AppMsg.delete_profile name) =
      ask (Request.delete_profile name) >> send AppMsg.reload_profiles
  handle_msg (AppMsg.stats stats) = change (show_stats stats false)
  handle_msg AppMsg.apply_changes = current_gpu_id >>= λ id. or_reload (apply_to id)
  handle_msg AppMsg.revert_changes = send (AppMsg.reload_data false)
  handle_msg AppMsg.reset_clocks =
      current_gpu_id >>= λ id. confirmed_reload (Request.set_clocks_value id SetClocksCommand.reset)
  handle_msg AppMsg.reset_pmfw = current_gpu_id >>= λ id. confirmed_reload (Request.reset_pmfw id)
  handle_msg AppMsg.show_graphs_window = change (λ app. app)
  handle_msg AppMsg.dump_vbios = current_gpu_id >>= λ id. ask_shown (Request.vbios_dump id)
  handle_msg AppMsg.debug_snapshot = ask_shown Request.generate_snapshot
  handle_msg AppMsg.enable_overdrive = ask_shown Request.enable_overdrive
  handle_msg AppMsg.disable_overdrive = ask_shown Request.disable_overdrive
  handle_msg AppMsg.reset_config = ask Request.rest_config >> send (AppMsg.reload_data true)
  handle_msg (AppMsg.connection_status disconnected) =
      change (λ app. record app { reconnecting = true })
  handle_msg (AppMsg.connection_status reconnected) =
      change (λ app. record app { reconnecting = false })
  handle_msg (AppMsg.ask_confirmation message) =
      change (λ app. record app { asking = app.asking ++ message ∷ [] })
