-- ===== src/Handler/Profiles/Valid.antt =====
-- The selected profile exists, whatever the requests.
use lact.Prelude.{
  String, ◌≡◌, refl, true, false, Option, none, some, arith, inl, inr, str_eq, eq_iff, Option-cases,
  Bool-cases,
}
use lact.Prelude.Exec.{Result-cases, is_ok}
use lact.Prelude.Dict.{insert, remove, contains_key, get-insert, get-remove}
use lact.Platform.{Platform}
use lact.Schema.{ProfileBase, FanOptions, ConfirmCommand}
use lact.Config.{Config, Gpu, Profile, gpus, find_profile}
use lact.Config.Profiles.{gpus-set_gpus, gpus-clear}
use lact.Handler.State.{Env, Handler, Task, GpuController, find_controller}
use lact.Handler.Edit.{
  end_task, finish_task, Wake, timeout, command, dropped, on_wake, write_gpu, remove_task,
}
use lact.Handler.Settings.{set_fan_control}
use lact.Handler.Settings.Fan.{set_fan_control-WithEntry}
use lact.Handler.Profiles.{
  set_profile, create_profile, base_profile, delete_profile, reset_config, leave_profile,
  is_current,
}

-- The settings of the current profile can be read.
abbrev pub IsReadable : {P : Platform} → Config P → Type 0
IsReadable {P} config = is_ok (gpus P config) ≡ true

module _ (E : Env) where
  with_profile :
      (config : Config E.platform) (name : String) (profile : Profile E.platform)
      → IsReadable config
      → IsReadable (record config { profiles = insert str_eq config.profiles name profile })
  unfolding gpus
  with_profile config name profile v = elim (Option-cases config.current_profile) [
    | inl p ↦ ground arith
    | inr (current, p) ↦
        ground (arith, get-insert str_eq eq_iff config.profiles name current profile)
  ]

  without_profile :
      (config : Config E.platform) (name : String)
      → is_current E config name ≡ false
      → IsReadable config
      → IsReadable (record config { profiles = remove str_eq config.profiles name })
  unfolding gpus is_current
  without_profile config name n v = elim (Option-cases config.current_profile) [
    | inl p ↦ ground arith
    | inr (current, p) ↦ ground (
      arith,
      get-remove str_eq eq_iff config.profiles name current,
      eq_iff name current,
      eq_iff current name,
    )
  ]

  leave_profile-IsReadable :
      (h : Handler E) (name : String)
      → IsReadable h.config
      → IsReadable (leave_profile E name h).1.config
        × (is_current E (leave_profile E name h).1.config name ≡ false)
  unfolding leave_profile gpus is_current
  leave_profile-IsReadable h name v = ground arith

  pub set_profile-IsReadable :
      (h : Handler E) (name : Option String)
      → IsReadable h.config
      → IsReadable (set_profile E name h).1.config
  unfolding set_profile gpus find_profile
  set_profile-IsReadable h none v = ground arith
  set_profile-IsReadable h (some name) v = ground arith

  pub create_profile-IsReadable :
      (h : Handler E) (name : String) (base : ProfileBase)
      → IsReadable h.config
      → IsReadable (create_profile E name base h).1.config
  unfolding create_profile
  create_profile-IsReadable h name base v =
      elim (Bool-cases (contains_key str_eq h.config.profiles name)) [
        | inl p ↦ rw (p, create_profile) v
        | inr p ↦ elim (Result-cases (base_profile E h.config base)) [
          | inl (profile, q) ↦
              rw (p, create_profile) (rw (q, create_profile) (with_profile h.config name profile v))
          | inr (e, q) ↦ rw (p, create_profile) (rw (q, create_profile) v)
        ]
      ]

  pub delete_profile-IsReadable :
      (h : Handler E) (name : String)
      → IsReadable h.config
      → IsReadable (delete_profile E name h).1.config
  unfolding delete_profile
  delete_profile-IsReadable h name v =
      let left = leave_profile-IsReadable h name v in
      ground (arith, left, without_profile (leave_profile E name h).1.config name (left.1) (left.0))

  pub reset_config-IsReadable : (h : Handler E) → IsReadable (reset_config E h).config
  unfolding reset_config
  reset_config-IsReadable h = rw ((gpus-clear E.platform h.config).0) refl

  pub set_fan_control-IsReadable :
      (h : Handler E) (opts : FanOptions E.platform)
      → IsReadable h.config
      → IsReadable (set_fan_control E opts h).1.config
  set_fan_control-IsReadable h opts v = elim (Result-cases (gpus E.platform h.config)) [
    | inl (settings, p) ↦ rw ((set_fan_control-WithEntry E h opts settings p).1) refl
    | inr (e, p) ↦ absurd (ground arith)
  ]

  write_gpu-IsReadable :
      (config : Config E.platform) (id : String) (gpu : Gpu E.platform)
      → IsReadable config
      → IsReadable (write_gpu config id gpu)
  unfolding write_gpu
  write_gpu-IsReadable config id gpu v = elim (Result-cases (gpus E.platform config)) [
    | inl (settings, p) ↦
        rw (p, write_gpu) (rw ((gpus-set_gpus E.platform config settings _ p).0) refl)
    | inr (e, p) ↦ absurd (ground arith)
  ]

  on_wake-IsReadable :
      (controller : GpuController E.platform E.World E.Reply) (t : Task E.platform) (w : Wake)
      (h : Handler E)
      → IsReadable h.config
      → IsReadable (on_wake E controller t w h).config
  unfolding on_wake
  on_wake-IsReadable controller t timeout h v = v
  on_wake-IsReadable controller t (command ConfirmCommand.confirm) h v =
      write_gpu-IsReadable h.config t.id t.new_config v
  on_wake-IsReadable controller t (command ConfirmCommand.revert) h v = v
  on_wake-IsReadable controller t dropped h v = v

  -- The selected profile still exists after a waiting task has ended, however it was woken.
  pub finish_task-IsReadable :
      (t : Task E.platform) (w : Wake) (h : Handler E)
      → IsReadable h.config
      → IsReadable (finish_task E t w h).config
  unfolding finish_task end_task
  finish_task-IsReadable t w h v = elim (Result-cases (find_controller E t.id)) [
    | inl (controller, p) ↦
        rw (p, end_task)
          (on_wake-IsReadable controller t w (record h { tasks = remove_task t.channel h.tasks }) v)
    | inr (e, p) ↦ rw (p, end_task) v
  ]
