-- ===== src/Gui/Apply/Changes.antt =====
-- What each part of `apply_settings` does to the card's settings, as a function of the pages.
use lact.Prelude.{ℕ, String, refl, Option, none, some, List, [], ◌∷◌}
use lact.Prelude.Int.{ℤ}
use lact.Prelude.Dict.{insert}
use lact.Prelude.Exec.{ok}
use lact.Handler.State.{Env}
use lact.Handler.Settings.{with_performance_level}
use lact.Server.{System}
use lact.Server.Prompt.Requests.{
  fan_edit, set_power_cap-Does, set_performance_level-Does, set_power_profile_mode-Does,
  set_enabled_power_states-Does, set_fan_control-Does,
}
use lact.Gui.Toolkit.{Toolkit}
use lact.Gui.PerformanceFrame.{
  get_selected_power_profile_mode, get_power_profile_mode_custom_heuristics,
}
use lact.Gui.OcPage.{OcPage, get_power_cap, get_performance_level, get_page_power_states}
use lact.Gui.ThermalsPage.{ThermalsPage, ThermalsSettings, get_thermals_settings}
use lact.Gui.Apply.{
  fan_options, apply_power_cap, apply_performance_level, apply_thermals, apply_states,
  apply_power_states,
}
use lact.Gui.Apply.Effect.{Change, and_then, Does, prompt_daemon, commit-Does, pure-Does, bind-Does}

module _ (E : Env) where
  abbrev pub cap_change : Option E.platform.F64 → Change E
  cap_change none gpu = ok gpu
  cap_change (some cap) gpu = ok (record gpu { power_cap = some cap })

  abbrev pub mode_change : Option ℕ → List (List (Option ℤ)) → Change E
  mode_change index heuristics gpu = ok (record gpu {
    power_profile_mode_index = index;
    custom_power_profile_mode_hueristics = heuristics;
  })

  abbrev pub level_change : Option E.platform.PerformanceLevel → OcPage E.platform → Change E
  level_change none page gpu = ok gpu
  level_change (some level) page gpu =
      mode_change (get_selected_power_profile_mode page.performance_frame)
        (get_power_profile_mode_custom_heuristics page.performance_frame)
        (with_performance_level E.platform level gpu)

  abbrev pub thermals_change : String → Option (ThermalsSettings E.platform) → Change E
  thermals_change id none gpu = ok gpu
  thermals_change id (some settings) gpu = fan_edit E (fan_options id settings) gpu

  abbrev pub states_change : E.platform.PowerLevelKind → List ℕ → Change E
  states_change kind [] gpu = ok gpu
  states_change kind (state ∷ states) gpu = ok (record gpu {
    power_states = insert E.platform.kind_eq gpu.power_states kind (state ∷ states);
  })

  abbrev pub power_states_change : List (E.platform.PowerLevelKind × List ℕ) → Change E
  power_states_change [] gpu = ok gpu
  power_states_change ((kind, states) ∷ rest) gpu =
      and_then E (states_change kind states gpu) (power_states_change rest)

  -- What the two pages ask of the card's settings, less the clocks.
  unfoldable pub pages_change :
      String → Toolkit E.platform → OcPage E.platform → ThermalsPage E.platform → Change E
  pages_change id tk oc_page thermals_page gpu =
      and_then E (cap_change (get_power_cap oc_page) gpu) (λ g1.
        and_then E (mode_change none [] g1) (λ g2.
          and_then E (level_change (get_performance_level tk oc_page) oc_page g2) (λ g3.
            and_then E (thermals_change id (get_thermals_settings tk thermals_page) g3)
              (power_states_change (get_page_power_states oc_page)))))

  module _ (system : System E) (id : String) where
    pub apply_power_cap-Does :
        (cap : Option E.platform.F64)
        → Does E id (cap_change cap) (apply_power_cap (prompt_daemon E system) id cap)
    unfolding apply_power_cap
    apply_power_cap-Does none = pure-Does E system id
    apply_power_cap-Does (some cap) =
        commit-Does E system id _ _ _ (λ gpu h holds. set_power_cap-Does E id system gpu h holds _)

    pub apply_performance_level-Does :
        (level : Option E.platform.PerformanceLevel) (page : OcPage E.platform)
        → Does E id
            (level_change level page)
            (apply_performance_level (prompt_daemon E system) id level page)
    unfolding apply_performance_level
    apply_performance_level-Does none page = pure-Does E system id
    apply_performance_level-Does (some level) page =
        bind-Does E system id _ _ _ _
          (commit-Does E system id _ _ _
            (λ gpu h holds. set_performance_level-Does E id system gpu h holds level))
          (commit-Does E system id _ _ (mode_change _ _)
            (λ gpu h holds. set_power_profile_mode-Does E id system gpu h holds _ _))

    pub apply_thermals-Does :
        (settings : Option (ThermalsSettings E.platform))
        → Does E id
            (thermals_change id settings)
            (apply_thermals (prompt_daemon E system) id settings)
    unfolding apply_thermals fan_options
    apply_thermals-Does none = pure-Does E system id
    apply_thermals-Does (some settings) =
        commit-Does E system id _ _ _ (λ gpu h holds.
          set_fan_control-Does E id system gpu h holds (fan_options id settings) refl)

    apply_states-Does :
        (kind : E.platform.PowerLevelKind) (states : List ℕ)
        → Does E id
            (states_change kind states)
            (apply_states (prompt_daemon E system) id kind states)
    unfolding apply_states
    apply_states-Does kind [] = pure-Does E system id
    apply_states-Does kind (state ∷ states) =
        commit-Does E system id _ _ _ (λ gpu h holds.
          set_enabled_power_states-Does E id system gpu h holds kind (state ∷ states))

    pub apply_power_states-Does :
        (states : List (E.platform.PowerLevelKind × List ℕ))
        → Does E id
            (power_states_change states)
            (apply_power_states (prompt_daemon E system) id states)
    unfolding apply_power_states
    apply_power_states-Does [] = pure-Does E system id
    apply_power_states-Does ((kind, states) ∷ rest) =
        bind-Does E system id _ _ _ _ (apply_states-Does kind states) (apply_power_states-Does rest)
