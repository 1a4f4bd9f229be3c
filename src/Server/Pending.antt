-- ===== src/Server/Pending.antt =====
-- What happens to requests while a change waits for its answer.
use lact.Prelude.{ℕ, String, ◌≡◌, Bool, true, false, some, arith}
use lact.Prelude.Exec.{Exec, err, is_ok}
use lact.Platform.{Platform}
use lact.Schema.{FanOptions, Request, SetClocksCommand}
use lact.Config.{Gpu}
use lact.Handler.State.{Env, Handler}
use lact.Handler.Edit.{edit_gpu_config, unconfirmed_pending}
use lact.Handler.Settings.{
  set_fan_control, reset_pmfw, set_power_cap, set_performance_level, set_clocks_value,
  batch_set_clocks_value, set_power_profile_mode, set_enabled_power_states,
}
use lact.Server.{System, handle_request}

abbrev pub is_edit : {P : Platform} → Request P → Bool
is_edit (Request.set_fan_control opts) = true
is_edit (Request.reset_pmfw id) = true
is_edit (Request.set_power_cap id cap) = true
is_edit (Request.set_performance_level id level) = true
is_edit (Request.set_clocks_value id command) = true
is_edit (Request.batch_set_clocks_value id commands) = true
is_edit (Request.set_power_profile_mode id index custom_heuristics) = true
is_edit (Request.set_enabled_power_states id kind enabled) = true
is_edit _ = false

module _ (E : Env) where
  edit_pending :
      (h : Handler E) (id : String) (f : Gpu E.platform → Gpu E.platform) (c : ℕ)
      → h.confirm_config_tx ≡ some c
      → edit_gpu_config E id f h ≡ (err unconfirmed_pending, h)
  unfolding edit_gpu_config
  edit_pending h id f c e = ground arith

  module _ (system : System E) (h : Handler E) (c : ℕ)
      (pending : h.confirm_config_tx ≡ some c) where
    abbrev IsRefused : Exec (Handler E) ℕ → Type 0
    IsRefused m =
        (is_ok (m h).0 ≡ false) × ((m h).1.confirm_config_tx ≡ some c) × ((m h).1.tasks ≡ h.tasks)

    set_fan_control_refused : (opts : FanOptions E.platform) → IsRefused (set_fan_control E opts)
    unfolding set_fan_control edit_gpu_config
    set_fan_control_refused opts = ground arith

    reset_pmfw_refused : (id : String) → IsRefused (reset_pmfw E id)
    unfolding reset_pmfw edit_gpu_config
    reset_pmfw_refused id = ground arith

    set_clocks_value_refused :
        (id : String) (command : SetClocksCommand) → IsRefused (set_clocks_value E id command)
    unfolding set_clocks_value edit_gpu_config
    set_clocks_value_refused id SetClocksCommand.reset = ground arith
    set_clocks_value_refused id _ = ground arith

    -- While a change is pending, every request that edits a card's settings fails; the pending
    -- change and the tasks stay.
    pub edits_refused :
        (r : Request E.platform)
        → is_edit r ≡ true
        → (is_ok (handle_request E system r h).0 ≡ false)
          × ((handle_request E system r h).1.confirm_config_tx ≡ some c)
          × ((handle_request E system r h).1.tasks ≡ h.tasks)
    unfolding handle_request set_power_cap set_performance_level batch_set_clocks_value
        set_power_profile_mode set_enabled_power_states edit_gpu_config
    edits_refused (Request.set_fan_control opts) e = ground (arith, set_fan_control_refused opts)
    edits_refused (Request.reset_pmfw id) e = ground (arith, reset_pmfw_refused id)
    edits_refused (Request.set_clocks_value id command) e =
        ground (arith, set_clocks_value_refused id command)
    edits_refused _ e = ground arith
