-- ===== src/Handler/Profiles/Switch.antt =====
-- Profiles as a client sees them, and a change that is pending while the profile is switched.
use lact.Prelude.{
  String, ◌≡◌, ◌≢◌, refl, true, false, none, some, [], arith, str_eq, eq_iff, ◌⊎◌, inl, inr,
  Bool-cases,
}
use lact.Prelude.Exec.{Error, ok, err, is_ok, Result-cases}
use lact.Prelude.Dict.{Dict, get, insert, remove, contains_key, get-insert, get-remove}
use lact.Schema.{ProfileBase, ConfirmCommand}
use lact.Config.{Config, Gpu, Profile, gpus, set_gpus, find_profile, default_profile}
use lact.Platform.{Platform}
use lact.Handler.State.{Env, Handler, Task, GpuController, find_controller}
use lact.Handler.Edit.{end_task, finish_task, command, on_wake, write_gpu}
use lact.Handler.Profiles.{
  set_profile, create_profile, base_profile, delete_profile, leave_profile, is_current,
}

-- The settings that a profile made from a base starts with.
abbrev pub HasBase : {P : Platform} → Config P → ProfileBase → Dict String (Gpu P) → Type 0
HasBase config ProfileBase.empty settings = settings ≡ []
HasBase config ProfileBase.default settings = settings ≡ config.gpus
HasBase config (ProfileBase.profile name) settings =
    get str_eq config.profiles name ≡ some (record { gpus = settings })

abbrev pub IsMissing : {P : Platform} → Config P → ProfileBase → Type 0
IsMissing config ProfileBase.empty = ⊥
IsMissing config ProfileBase.default = ⊥
IsMissing config (ProfileBase.profile name) = get str_eq config.profiles name ≡ none

module _ (E : Env) where
  -- Nothing has changed, since the name is taken or the base does not exist.
  abbrev pub IsRefused : Handler E → String → ProfileBase → Type 0
  IsRefused h name base =
      (is_ok (create_profile E name base h).0 ≡ false)
      × ((create_profile E name base h).1 ≡ h)
      × ((contains_key str_eq h.config.profiles name ≡ true) ⊎ IsMissing h.config base)

  -- The new profile is there with its base's settings, everything else is as it was, and the
  -- configuration was saved, which gives the answer.
  abbrev pub IsCreated : Handler E → String → ProfileBase → Type 0
  IsCreated h name base =
      let h' = (create_profile E name base h).1 in
      (settings : Dict String (Gpu E.platform)) × (contains_key str_eq h.config.profiles name
        ≡ false)
      × HasBase h.config base settings
      × (get str_eq h'.config.profiles name ≡ some (record { gpus = settings }))
      × ((j : String)
          → (name ≡ j) ⊎ (get str_eq h'.config.profiles j ≡ get str_eq h.config.profiles j))
      × (h' ≡ record h {
        config = record h.config { profiles = h'.config.profiles };
        world = (E.save h'.config h.world).1;
      })
      × ((create_profile E name base h).0 ≡ (E.save h'.config h.world).0)

  base_profile_ok :
      (config : Config E.platform) (base : ProfileBase) (profile : Profile E.platform)
      → base_profile E config base ≡ ok profile
      → HasBase config base profile.gpus
  unfolding base_profile find_profile default_profile
  base_profile_ok config ProfileBase.empty profile p = ground arith
  base_profile_ok config ProfileBase.default profile p = ground arith
  base_profile_ok config (ProfileBase.profile name) profile p = ground arith

  base_profile_err :
      (config : Config E.platform) (base : ProfileBase) (e : Error)
      → base_profile E config base ≡ err e
      → IsMissing config base
  unfolding base_profile find_profile default_profile
  base_profile_err config ProfileBase.empty e p = absurd (ground arith)
  base_profile_err config ProfileBase.default e p = absurd (ground arith)
  base_profile_err config (ProfileBase.profile name) e p = ground arith

  created :
      (h : Handler E) (name : String) (base : ProfileBase) (profile : Profile E.platform)
      → contains_key str_eq h.config.profiles name ≡ false
      → base_profile E h.config base ≡ ok profile
      → IsCreated h name base
  unfolding create_profile
  created h name base profile free p =
      rw (free, create_profile)
        (rw (p, create_profile)
          (
            profile.gpus,
            refl,
            base_profile_ok h.config base profile p,
            ground (
              arith,
              get-insert str_eq eq_iff h.config.profiles name name profile,
              eq_iff name name,
            ),
            λ j. elim (Bool-cases (str_eq name j)) [
              | inl e ↦ inl ((eq_iff name j).0 e)
              | inr e ↦
                  inr (ground (arith, get-insert str_eq eq_iff h.config.profiles name j profile))
            ],
            refl,
            refl,
          ))

  -- Creating a profile either fails and changes nothing, since the name is taken or the base is a
  -- profile that does not exist; or the name was free, and the new profile has no settings, the
  -- default ones or those of the base profile, as the base says, every other profile keeps its own,
  -- the selection, the default settings and the pending change stay, the configuration is saved,
  -- and the answer is that of the save.
  pub create_profile_lem :
      (h : Handler E) (name : String) (base : ProfileBase)
      → IsRefused h name base ⊎ IsCreated h name base
  unfolding create_profile
  create_profile_lem h name base = elim (Bool-cases (contains_key str_eq h.config.profiles name)) [
    | inl taken ↦ inl (ground arith, ground arith, inl taken)
    | inr free ↦ elim (Result-cases (base_profile E h.config base)) [
      | inl (profile, p) ↦ inr (created h name base profile free p)
      | inr (e, p) ↦ inl (ground arith, ground arith, inr (base_profile_err h.config base e p))
    ]
  ]

  leave_profile_lem :
      (h : Handler E) (name : String)
      → (is_current E h.config name ≡ true → is_ok (set_profile E none h).0 ≡ true)
      → ((leave_profile E name h).0 ≡ ok tt)
        × (is_current E (leave_profile E name h).1.config name ≡ false)
        × ((leave_profile E name h).1.config.profiles ≡ h.config.profiles)
  unfolding leave_profile set_profile is_current
  leave_profile_lem h name left = ground arith

  delete_profile-config :
      (h : Handler E) (name : String)
      → (leave_profile E name h).0 ≡ ok tt
      → (delete_profile E name h).1.config ≡ record (leave_profile E name h).1.config {
        profiles = remove str_eq (leave_profile E name h).1.config.profiles name;
      }
  unfolding delete_profile
  delete_profile-config h name e = rw (e, delete_profile) refl

  set_profile-config :
      (h : Handler E) (new : String) (profile : Profile E.platform)
      → get str_eq h.config.profiles new ≡ some profile
      → (set_profile E (some new) h).1.config ≡ record h.config { current_profile = some new }
  unfolding set_profile find_profile
  set_profile-config h new profile e = ground arith

  -- A deleted profile is gone and not selected, unless it was selected and the save failed that
  -- goes with leaving it; the other profiles keep their settings.
  pub delete_profile_lem :
      (h : Handler E) (name : String)
      → (is_current E h.config name ≡ true → is_ok (set_profile E none h).0 ≡ true)
      → (get str_eq (delete_profile E name h).1.config.profiles name ≡ none)
        × (is_current E (delete_profile E name h).1.config name ≡ false)
        × ((j : String)
            → j ≢ name
            → get str_eq (delete_profile E name h).1.config.profiles j
              ≡ get str_eq h.config.profiles j)
  unfolding is_current
  delete_profile_lem h name left =
      let (e, n, p) = leave_profile_lem h name left in
      rw (delete_profile-config h name e) (
        rw p (
          rw (get-remove str_eq eq_iff h.config.profiles name name)
              (ground (arith, eq_iff name name)),
          n,
          λ j d.
              rw (get-remove str_eq eq_iff h.config.profiles name j)
                (ground (arith, eq_iff name j)),
        ))

  finish_task-config :
      (h : Handler E) (t : Task E.platform) (controller : GpuController E.platform E.World E.Reply)
      → find_controller E t.id ≡ ok controller
      → (finish_task E t (command ConfirmCommand.confirm) h).config
        ≡ write_gpu h.config t.id t.new_config
  unfolding finish_task end_task on_wake
  finish_task-config h t controller f = rw (f, end_task) refl

  switched :
      (config : Config E.platform) (t : Task E.platform) (old new : String)
      (profile : Profile E.platform)
      → old ≢ new
      → get str_eq config.profiles new ≡ some profile
      → let written : Config E.platform =
          write_gpu (record config { current_profile = some new }) t.id t.new_config in
        (gpus E.platform written ≡ ok (insert str_eq profile.gpus t.id t.new_config))
        × (written.current_profile ≡ some new)
        × (get str_eq written.profiles old ≡ get str_eq config.profiles old)
  unfolding write_gpu set_gpus gpus
  switched config t old new profile n k =
      let after : Profile E.platform = record {
        gpus = insert str_eq profile.gpus t.id t.new_config;
      } in
      ground (
        arith,
        get-insert str_eq eq_iff config.profiles new new after,
        get-insert str_eq eq_iff config.profiles new old after,
        eq_iff new new,
        eq_iff new old,
      )

  -- A change that is confirmed after the profile was switched is written to the new profile: the
  -- one it was made for keeps its old settings.
  pub confirm_after_switch :
      (h : Handler E) (t : Task E.platform) (old new : String) (profile : Profile E.platform)
      (controller : GpuController E.platform E.World E.Reply)
      → h.config.current_profile ≡ some old
      → old ≢ new
      → get str_eq h.config.profiles new ≡ some profile
      → find_controller E t.id ≡ ok controller
      → let s = finish_task E t (command ConfirmCommand.confirm) (set_profile E (some new) h).1 in
        (gpus E.platform s.config ≡ ok (insert str_eq profile.gpus t.id t.new_config))
        × (s.config.current_profile ≡ some new)
        × (get str_eq s.config.profiles old ≡ get str_eq h.config.profiles old)
  confirm_after_switch h t old new profile controller c n k f =
      let e = set_profile-config h new profile k in
      rw (finish_task-config _ t controller f) (rw e (switched h.config t old new profile n k))
