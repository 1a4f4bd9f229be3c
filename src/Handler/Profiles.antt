-- ===== src/Handler/Profiles.antt =====
-- The requests of handler.rs that concern profiles and the whole configuration.
pub mod Valid
pub mod Switch
use lact.Prelude.{
  ℕ, String, append, ◌≡◌, Bool, true, false, Option, none, some, List, [], ◌∷◌, str_eq,
  if◌then◌else◌,
}
use lact.Prelude.Exec.{
  Exec, Error, msg, Result, ok, err, pure, raise, lift, gets, modify, skip, attempt, ◌>>=◌, ◌>>◌,
}
use lact.Prelude.Dict.{Dict, get, insert, remove, contains_key, keys}
use lact.Platform.{Platform}
use lact.Schema.{ProfileBase, ProfilesInfo}
use lact.Config.{Config, Gpu, Profile, gpus, find_profile, default_profile, default_gpu, clear}
use lact.Handler.State.{Env, Handler, Task, GpuController, on_world}

module _ (E : Env) where
  -- Each configured card gets its settings; errors are logged, unknown cards skipped.
  apply_all : Dict String (Gpu E.platform) → E.World → E.World
  apply_all [] w = w
  apply_all ((id, gpu) ∷ rest) w = apply_all rest (elim (get str_eq E.gpu_controllers id) [
    | none ↦ w
    | some controller ↦ (controller.apply_config gpu w).1
  ])

  pub apply_current_config : Exec (Handler E) (Unit {0})
  unfolding apply_all
  apply_current_config h = elim (gpus E.platform h.config) [
    | err e ↦ (err e, h)
    | ok settings ↦ (ok tt, record h { world = apply_all settings h.world })
  ]

  cleanup_controller : Bool → GpuController E.platform E.World E.Reply → E.World → E.World
  cleanup_controller disable_clocks_cleanup controller w =
      let cleaned : E.World =
        if disable_clocks_cleanup then w else (controller.cleanup_clocks w).1 in
      (controller.apply_config (default_gpu E.platform) (controller.reset_pmfw_settings cleaned)).1

  cleanup_all : Bool → Dict String (GpuController E.platform E.World E.Reply) → E.World → E.World
  unfolding cleanup_controller
  cleanup_all disable_clocks_cleanup [] w = w
  cleanup_all disable_clocks_cleanup ((id, controller) ∷ rest) w =
      cleanup_all disable_clocks_cleanup rest
        (cleanup_controller disable_clocks_cleanup controller w)

  pub cleanup : Handler E → Handler E
  unfolding cleanup_all
  cleanup h = record h {
    world = cleanup_all h.config.daemon.disable_clocks_cleanup E.gpu_controllers h.world;
  }

  pub save_config : Exec (Handler E) (Unit {0})
  save_config h = on_world E (E.save h.config) h

  unfoldable pub list_profiles : Handler E → ProfilesInfo
  list_profiles h = record {
    profiles = keys h.config.profiles;
    current_profile = h.config.current_profile;
  }

  pub check_profile : Option String → Exec (Handler E) (Unit {0})
  unfolding find_profile
  check_profile none h = (ok tt, h)
  check_profile (some name) h = elim (find_profile E.platform h.config name) [
    | ok profile ↦ (ok tt, h)
    | err e ↦ (err e, h)
  ]

  unfoldable pub set_profile : Option String → Exec (Handler E) (Unit {0})
  unfolding check_profile cleanup apply_current_config save_config
  set_profile name = do
    check_profile name
    modify (λ h. cleanup h)
    modify (λ h. record h { config = record h.config { current_profile = name } })
    apply_current_config
    save_config

  pub base_profile : Config E.platform → ProfileBase → Result (Profile E.platform)
  unfolding find_profile default_profile
  base_profile config ProfileBase.empty = ok (record { gpus = [] })
  base_profile config ProfileBase.default = ok (default_profile E.platform config)
  base_profile config (ProfileBase.profile name) = find_profile E.platform config name

  abbrev pub profile_exists : String → Error
  profile_exists name = msg (append "Profile " (append name " already exists"))

  pub create_profile : String → ProfileBase → Exec (Handler E) (Unit {0})
  unfolding base_profile save_config
  create_profile name base = do
    config ← gets (λ h. h.config)
    if contains_key str_eq config.profiles name then raise (profile_exists name) else skip
    profile ← lift (base_profile config base)
    modify (λ h. record h {
      config = record h.config { profiles = insert str_eq h.config.profiles name profile };
    })
    save_config

  pub is_current : Config E.platform → String → Bool
  is_current config name = elim config.current_profile [
    | none ↦ false
    | some current ↦ str_eq current name
  ]

  -- The current profile is left before it is deleted.
  pub leave_profile : String → Exec (Handler E) (Unit {0})
  unfolding is_current set_profile
  leave_profile name h = if is_current h.config name then set_profile none h else (ok tt, h)

  pub delete_profile : String → Exec (Handler E) (Unit {0})
  unfolding leave_profile save_config
  delete_profile name = do
    leave_profile name
    modify (λ h. record h {
      config = record h.config { profiles = remove str_eq h.config.profiles name };
    })
    save_config

  -- An error of the save is only logged.
  pub reset_config : Handler E → Handler E
  unfolding cleanup clear
  reset_config h =
      let config : Config E.platform = clear E.platform h.config in
      let saved : Result (Unit {0}) × E.World = E.save config (cleanup h).world in
      record h { config = config; world = saved.1; config_last_saved = E.now saved.1 }
