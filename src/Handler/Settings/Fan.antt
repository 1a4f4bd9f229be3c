-- ===== src/Handler/Settings/Fan.antt =====
-- What a fan request leaves in the configuration, and which settings it lets through.
use lact.Prelude.{
  String, ◌≡◌, refl, ap, ◌∙◌, ◌⊎◌, false, Option, none, some, List, arith, inl, inr, str_eq, eq_iff,
  Option-cases, Bool-cases, if◌then◌else◌,
}
use lact.Prelude.Exec.{Result-cases, ok}
use lact.Prelude.Int.{ℤ}
use lact.Prelude.Dict.{Dict, get, insert, get-insert}
use lact.Platform.{Platform}
use lact.Schema.{FanControlMode, FanOptions}
use lact.Curve.{FanCurve, validate}
use lact.Config.{Config, Gpu, FanControlSettings, default_fan_settings, gpus, set_gpus, default_gpu}
use lact.Config.Profiles.{gpus-set_gpus}
use lact.Handler.State.{Env, Handler}
use lact.Handler.Edit.{edit_gpu_config, or_default}
use lact.Handler.Edit.Outcome.{edit_cases}
use lact.Handler.Settings.{
  requested_settings, entry_or_default, set_fan_control, with_fan_options, out_of_range,
  static_settings, curve_settings, checked_curve, new_curve,
}

module _ (P : Platform) where
  -- A static speed and a curve between 0.0 and 1.0.
  pub record IsValid (s : FanControlSettings P) : Type 0 where
    pub speed : out_of_range P (some s.static_speed) ≡ false
    pub shares : validate P s.curve ≡ ok tt

  abbrev pub AreValid : Option (FanControlSettings P) → Type 0
  AreValid none = Unit {0}
  AreValid (some s) = IsValid s

  checked_curve-validate :
      (raw : List (ℤ × P.F32)) (c : FanCurve P) → checked_curve P raw ≡ ok c → validate P c ≡ ok tt
  unfolding checked_curve
  checked_curve-validate raw c e = ground arith

  curve_settings-IsValid :
      (old : Option (FanControlSettings P)) (opts : FanOptions P) (s : FanControlSettings P)
      → IsValid (default_fan_settings P)
      → AreValid old
      → curve_settings P old opts ≡ ok s
      → IsValid s
  unfolding curve_settings new_curve
  curve_settings-IsValid none opts s d v e = ground arith
  curve_settings-IsValid (some existing) opts s d v e = ground arith

  static_settings-IsValid :
      (old : Option (FanControlSettings P)) (speed : Option P.F64)
      → IsValid (default_fan_settings P)
      → AreValid old
      → out_of_range P speed ≡ false
      → IsValid (static_settings P old speed)
  unfolding static_settings default_fan_settings
  static_settings-IsValid none none d v e = record { speed = d.speed; shares = d.shares }
  static_settings-IsValid none (some speed) d v e = record { speed = e; shares = d.shares }
  static_settings-IsValid (some old) none d v e = record { speed = v.speed; shares = v.shares }
  static_settings-IsValid (some old) (some speed) d v e = record { speed = e; shares = v.shares }

  -- Where the card's old fan settings and the default ones have a static speed and a curve between
  -- 0.0 and 1.0, so have the settings that a successful fan request puts on the card.
  pub requested_settings-IsValid :
      (mode : Option FanControlMode) (gpu : Gpu P) (opts : FanOptions P)
      (requested : Option (FanControlSettings P))
      → IsValid (default_fan_settings P)
      → AreValid gpu.fan_control_settings
      → requested_settings P mode gpu opts ≡ ok requested
      → AreValid (with_fan_options P opts requested gpu).fan_control_settings
  unfolding requested_settings with_fan_options
  requested_settings-IsValid mode gpu opts requested d v e = ground (
    arith,
    static_settings-IsValid gpu.fan_control_settings opts.static_speed d v,
    λ (s : FanControlSettings P). curve_settings-IsValid gpu.fan_control_settings opts s d v,
  )

  -- The entry of a card, once `or_default` has made it.
  abbrev pub WithEntry : Dict String (Gpu P) → String → Dict String (Gpu P) → Type 0
  WithEntry settings id settings' =
      (j : String)
      → get str_eq settings' j ≡ (
          if str_eq id j then some (or_default (get str_eq settings id)) else get str_eq settings j)

  -- What lies outside the selected settings is the same: the daemon's section, the timer, the
  -- selection, the default settings unless they are selected, and every profile that is not.
  pub record SameElsewhere (config config' : Config P) : Type 0 where
    pub daemon : config'.daemon ≡ config.daemon
    pub timer : config'.apply_settings_timer ≡ config.apply_settings_timer
    pub selection : config'.current_profile ≡ config.current_profile
    pub defaults : (config.current_profile ≡ none) ⊎ (config'.gpus ≡ config.gpus)
    pub others :
        (name : String)
        → (config.current_profile ≡ some name)
          ⊎ (get str_eq config'.profiles name ≡ get str_eq config.profiles name)

  set_gpus-SameElsewhere :
      (config : Config P) (new : Dict String (Gpu P)) → SameElsewhere config (set_gpus P config new)
  unfolding set_gpus
  set_gpus-SameElsewhere config new = elim (Option-cases config.current_profile) [
    | inl c ↦ record {
      daemon = ground arith;
      timer = ground arith;
      selection = ground arith;
      defaults = inl c;
      others = λ name. inr (ground arith);
    }
    | inr (p, c) ↦ record {
      daemon = ground arith;
      timer = ground arith;
      selection = ground arith;
      defaults = inr (ground arith);
      others = λ name. elim (Bool-cases (str_eq p name)) [
        | inl e ↦ inl (c ∙ ap some ((eq_iff p name).0 e))
        | inr e ↦ inr (
            ground (arith, get-insert str_eq eq_iff config.profiles p name (record { gpus = new })))
      ];
    }
  ]

  record IsEntered (config : Config P) (settings : Dict String (Gpu P)) (id : String) : Type 0 where
    new : Config P
    settings' : Dict String (Gpu P)
    entered : entry_or_default P config id ≡ ok (or_default (get str_eq settings id), new)
    read : gpus P new ≡ ok settings'
    entry : WithEntry settings id settings'
    rest : SameElsewhere config new

  entry_or_default-IsEntered :
      (config : Config P) (settings : Dict String (Gpu P)) (id : String)
      → gpus P config ≡ ok settings
      → IsEntered config settings id
  unfolding entry_or_default
  entry_or_default-IsEntered config settings id e = elim (Option-cases (get str_eq settings id)) [
    | inl p ↦ record {
      new = set_gpus P config (insert str_eq settings id (default_gpu P));
      settings' = insert str_eq settings id (default_gpu P);
      entered = ground arith;
      read = (gpus-set_gpus P config settings (insert str_eq settings id (default_gpu P)) e).0;
      entry = λ j. rw (get-insert str_eq eq_iff settings id j (default_gpu P), p) refl;
      rest = set_gpus-SameElsewhere config (insert str_eq settings id (default_gpu P));
    }
    | inr (gpu, p) ↦ record {
      new = config;
      settings' = settings;
      entered = ground arith;
      read = e;
      entry = λ j. ground (arith, eq_iff id j);
      rest = record {
        daemon = refl;
        timer = refl;
        selection = refl;
        defaults = inr refl;
        others = λ name. inr refl;
      };
    }
  ]

module _ (E : Env) where
  pub edit-config :
      (h : Handler E) (id : String) (f : Gpu E.platform → Gpu E.platform)
      → (edit_gpu_config E id f h).1.config ≡ h.config
  edit-config h id f = edit_cases E h id f (λ k. k.config ≡ h.config) (λ w. refl) (λ old w c. refl)

  set_fan_control-config :
      (h : Handler E) (opts : FanOptions E.platform) (gpu : Gpu E.platform)
      (config : Config E.platform)
      → entry_or_default E.platform h.config opts.id ≡ ok (gpu, config)
      → (set_fan_control E opts h).1.config ≡ config
  unfolding set_fan_control
  set_fan_control-config h opts gpu config e =
      elim (Result-cases (requested_settings E.platform opts.mode gpu opts)) [
        | inr (x, p) ↦ ground arith
        | inl (s, p) ↦ ground (
          arith,
          edit-config (record h { config = config }) opts.id (with_fan_options E.platform opts s),
        )
      ]

  -- Where the selected settings can be read: a fan request, whether it succeeds or fails, writes
  -- one thing to the configuration at once, the card's entry among these settings, with default
  -- settings if it had none. The other entries stay as they were until the change is confirmed, and
  -- so do the profiles and default settings that are not selected, the selection, the timer and the
  -- daemon's section.
  pub set_fan_control-WithEntry :
      (h : Handler E) (opts : FanOptions E.platform) (settings : Dict String (Gpu E.platform))
      → gpus E.platform h.config ≡ ok settings
      → (settings' : Dict String (Gpu E.platform)) × (gpus E.platform
            (set_fan_control E opts h).1.config
          ≡ ok settings')
        × WithEntry E.platform settings opts.id settings'
        × SameElsewhere E.platform h.config (set_fan_control E opts h).1.config
  set_fan_control-WithEntry h opts settings e =
      let v = entry_or_default-IsEntered E.platform h.config settings opts.id e in
      (
        v.settings',
        rw (set_fan_control-config h opts _ v.new v.entered) v.read,
        v.entry,
        rw (set_fan_control-config h opts _ v.new v.entered) v.rest,
      )
