-- ===== src/Server/Prompt/Requests.antt =====
-- What the requests for settings do to a card's settings, each as a function of them.
use lact.Prelude.{
  ℕ, String, ◌≡◌, refl, sym, ap, ◌∙◌, inl, inr, Option, List, str_eq, eq_iff, Option-cases,
}
use lact.Prelude.Int.{ℤ}
use lact.Prelude.Exec.{Exec, Result, ok, err, with_context, continue, in_context}
use lact.Prelude.Dict.{get, insert, get-insert}
use lact.Schema.{FanOptions, SetClocksCommand, Request}
use lact.Config.{Gpu, FanControlSettings, set_gpus, default_gpu}
use lact.Config.Clocks.{apply_commands}
use lact.Config.Profiles.{gpus-set_gpus}
use lact.Handler.State.{Env, Handler}
use lact.Handler.Edit.{edit_gpu_config, or_default}
use lact.Handler.Settings.{
  fan_entry, entry_or_default, requested_settings, with_fan_options, with_performance_level,
  set_fan_control, set_power_cap, set_performance_level, batch_set_clocks_value,
  set_power_profile_mode, set_enabled_power_states,
}
use lact.Server.{System, Payload, timer, handle_request}
use lact.Server.Prompt.{Holds}
use lact.Server.Prompt.Edits.{Edited, edit-Edited}

module _ (E : Env) where
  abbrev with_options :
      FanOptions E.platform
      → Result (Option (FanControlSettings E.platform))
      → Gpu E.platform
      → Result (Gpu E.platform)
  with_options opts (err e) gpu = err e
  with_options opts (ok settings) gpu = ok (with_fan_options E.platform opts settings gpu)

  -- The settings after a request for fan control, which may be refused.
  abbrev pub fan_edit : FanOptions E.platform → Gpu E.platform → Result (Gpu E.platform)
  fan_edit opts gpu = with_options opts (requested_settings E.platform opts.mode gpu opts) gpu

  module _ (id : String) where
    timed-Edited :
        (c : String) (old : Gpu E.platform) (expected : Result (Gpu E.platform)) (r : Result ℕ)
        (h : Handler E)
        → Edited E id old expected (r, h)
        → Edited E id old expected
            (continue {B = Payload E} (with_context c r) (λ n k. (ok (timer n), k)) h)
    timed-Edited c old expected (ok n) h edited = edited
    timed-Edited c old expected (err e) h edited = edited

    module _ (system : System E) (gpu : Gpu E.platform) (h : Handler E)
        (holds : Holds E id gpu h) where
      abbrev Does : Request E.platform → Result (Gpu E.platform) → Type 0
      Does r expected = Edited E id gpu expected (handle_request E system r h)

      edit_timed :
          (c : String) (f : Gpu E.platform → Gpu E.platform)
          → Edited E id gpu (ok (f gpu)) (
              continue {B = Payload E}
                (with_context c (edit_gpu_config E id f h).0)
                (λ n k. (ok (timer n), k))
                (edit_gpu_config E id f h).1)
      edit_timed c f = timed-Edited c _ _ _ _ (edit-Edited E id f gpu h holds)

      pub set_power_cap-Does :
          (cap : Option E.platform.F64)
          → Does (Request.set_power_cap id cap) (ok (record gpu { power_cap = cap }))
      unfolding handle_request set_power_cap
      set_power_cap-Does cap = edit_timed _ _

      pub set_performance_level-Does :
          (level : E.platform.PerformanceLevel)
          → Does
              (Request.set_performance_level id level)
              (ok (with_performance_level E.platform level gpu))
      unfolding handle_request set_performance_level
      set_performance_level-Does level = edit_timed _ _

      pub batch_set_clocks_value-Does :
          (commands : List SetClocksCommand)
          → Does
              (Request.batch_set_clocks_value id commands)
              (ok (apply_commands E.platform gpu commands))
      unfolding handle_request batch_set_clocks_value
      batch_set_clocks_value-Does commands = edit_timed _ _

      pub set_power_profile_mode-Does :
          (index : Option ℕ) (heuristics : List (List (Option ℤ)))
          → Does (Request.set_power_profile_mode id index heuristics) (
              ok (record gpu {
                power_profile_mode_index = index;
                custom_power_profile_mode_hueristics = heuristics;
              }))
      unfolding handle_request set_power_profile_mode
      set_power_profile_mode-Does index heuristics = edit_timed _ _

      pub set_enabled_power_states-Does :
          (kind : E.platform.PowerLevelKind) (states : List ℕ)
          → Does (Request.set_enabled_power_states id kind states) (
              ok (record gpu {
                power_states = insert E.platform.kind_eq gpu.power_states kind states;
              }))
      unfolding handle_request set_enabled_power_states
      set_enabled_power_states-Does kind states = edit_timed _ _

      abbrev with_default : Handler E
      with_default = record h {
        config =
            set_gpus E.platform h.config (insert str_eq holds.settings id (default_gpu E.platform));
      }

      fan_entry-Holds : (k : Handler E) × (fan_entry E id h ≡ (ok gpu, k)) × Holds E id gpu k
      unfolding fan_entry entry_or_default
      fan_entry-Holds = elim (Option-cases (get str_eq holds.settings id)) [
        | inr (old, p) ↦ (
          h,
          rw (holds.read, fan_entry, entry_or_default)
              (rw (p, entry_or_default)
                (ap (λ g. (ok g, h)) (sym (ap or_default p) ∙ holds.entry))),
          holds,
        )
        | inl p ↦ (
          with_default,
          rw (holds.read, fan_entry, entry_or_default)
              (rw (p, entry_or_default)
                (ap (λ g. (ok g, with_default)) (sym (ap or_default p) ∙ holds.entry))),
          record {
            quiet = record { no_change = holds.quiet.no_change; no_task = holds.quiet.no_task };
            settings = insert str_eq holds.settings id (default_gpu E.platform);
            read = (gpus-set_gpus E.platform h.config holds.settings _ holds.read).0;
            entry =
                rw
                  (
                    get-insert str_eq eq_iff holds.settings id id (default_gpu E.platform),
                    (eq_iff id id).1 refl,
                  )
                  (sym (ap or_default p) ∙ holds.entry);
          },
        )
      ]

      -- The request once the fan's settings are known, or refused.
      abbrev chosen :
          FanOptions E.platform
          → Result (Option (FanControlSettings E.platform))
          → Exec (Handler E) ℕ
      chosen opts r k =
          continue r
            (λ settings.
              in_context "Failed to edit GPU config"
                (edit_gpu_config E id (with_fan_options E.platform opts settings)))
            k

      chosen-Edited :
          (opts : FanOptions E.platform) (r : Result (Option (FanControlSettings E.platform)))
          (k : Handler E)
          → Holds E id gpu k
          → Edited E id gpu (with_options opts r gpu) (
              continue {B = Payload E}
                (chosen opts r k).0
                (λ n l. (ok (timer n), l))
                (chosen opts r k).1)
      chosen-Edited opts (err e) k kept = (kept.quiet, inl (e, refl))
      chosen-Edited opts (ok settings) k kept =
          timed-Edited _ _ _ _ _
            (edit-Edited E id (with_fan_options E.platform opts settings) gpu k kept)

      pub set_fan_control-Does :
          (opts : FanOptions E.platform)
          → opts.id ≡ id
          → Does (Request.set_fan_control opts) (fan_edit opts gpu)
      unfolding handle_request set_fan_control
      set_fan_control-Does opts p =
          let (k, q, kept) = fan_entry-Holds in rw (p, q) (chosen-Edited opts _ k kept)
