-- ===== src/Amd/Controller.antt =====
-- The AMD card as the controller that handler.rs works with, and what a request then comes to.
use lact.Prelude.{
  ℕ, String, ◌≡◌, refl, sym, ap, ◌∙◌, false, none, some, [], ◌∷◌, inl, inr, str_eq, eq_iff,
}
use mathlib.Core.Bool.{false≢true}
use lact.Prelude.Exec.{Exec, Result-cases, ok, is_ok}
use lact.Prelude.Dict.{Dict, get}
use lact.Platform.{Platform}
use lact.Config.{Config, Gpu, gpus}
use lact.Handler.State.{GpuController, Env, Handler, find_controller}
use lact.Handler.Edit.{or_default}
use lact.Handler.Edit.Outcome.{edit_rejected}
use lact.Handler.Settings.{with_performance_level, set_performance_level}
use lact.Amd.Card.{Card, Amd}
use lact.Amd.Apply.{apply_config, reset_pmfw_settings, cleanup_clocks}
use lact.Amd.Guards.{apply_level_change_refused}

module _ {P : Platform} {Reply : Type 0} (card : Card P) where
  -- The calls that change the card, beside the getters of `info`.
  abbrev pub amd_controller : GpuController P (Amd P) Reply → GpuController P (Amd P) Reply
  amd_controller info = record info {
    apply_config = apply_config card;
    reset_pmfw_settings = λ s. (reset_pmfw_settings card s).1;
    cleanup_clocks = cleanup_clocks card;
  }

module _ {P : Platform} {Reply : Type 0} (card : Card P) (info : GpuController P (Amd P) Reply)
    (id : String) (save : Config P → Exec (Amd P) (Unit {0})) (now : Amd P → ℕ) where
  -- A daemon with this card alone.
  abbrev pub amd_env : Env
  amd_env = record {
    platform = P;
    World = Amd P;
    Reply = Reply;
    gpu_controllers = (id, amd_controller card info) ∷ [];
    save = save;
    now = now;
  }

  found : find_controller amd_env id ≡ ok (amd_controller card info)
  unfolding find_controller get
  found = rw ((eq_iff id id).1 refl) refl

  -- With an AMD card alone, no change pending, a known profile and a power profile mode configured
  -- for the card: a request for another performance level than the manual one fails, whatever the
  -- card answers; the configuration is unchanged and no change is pending.
  pub set_performance_level_stuck :
      (h : Handler amd_env) (settings : Dict String (Gpu P)) (gpu : Gpu P)
      (level : P.PerformanceLevel) (index : ℕ)
      → h.confirm_config_tx ≡ none
      → gpus P h.config ≡ ok settings
      → get str_eq settings id ≡ some gpu
      → gpu.power_profile_mode_index ≡ some index
      → P.level_eq level P.manual ≡ false
      → (is_ok (set_performance_level amd_env id level h).0 ≡ false)
        × ((set_performance_level amd_env id level h).1.config ≡ h.config)
        × ((set_performance_level amd_env id level h).1.confirm_config_tx ≡ none)
  unfolding set_performance_level
  set_performance_level_stuck h settings gpu level index idle read entry mode other =
      let f = with_performance_level P level in
      let edited : Gpu P = f (or_default (get str_eq settings id)) in
      let refused : is_ok (apply_config card edited h.world).0 ≡ false =
        rw entry (apply_level_change_refused card gpu level index h.world mode other) in
      elim (Result-cases (apply_config card edited h.world).0) [
        | inl (u, e) ↦ absurd (false≢true (sym refused ∙ ap is_ok e))
        | inr (er, e) ↦
            rw
              (edit_rejected amd_env h id f settings (amd_controller card info) idle read found er
                (apply_config card edited h.world).1
                (ap (λ r. (r, (apply_config card edited h.world).1)) e))
              (refl, refl, idle)
      ]
