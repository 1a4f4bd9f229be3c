-- ===== src/Amd/Guards.antt =====
-- The settings that `apply_config` of amd.rs refuses whatever the card answers.
use lact.Prelude.{ℕ, ◌≡◌, refl, true, false, Option, none, some, List, [], ◌∷◌, arith}
use lact.Prelude.Int.{ℤ}
use lact.Prelude.Dict.{Dict}
use lact.Prelude.Exec.{Exec, Result, Error, ok, err, is_ok, continue}
use lact.Platform.{Platform}
use lact.Schema.{FanControlMode}
use lact.Config.{Gpu, FanControlSettings}
use lact.Handler.Settings.{with_performance_level}
use lact.Prelude.Io.{raise, ◌>>=◌}
use lact.Amd.Card.{Card, Amd}
use lact.Amd.Clocks.{apply_mode, apply_states, is_manual}
use lact.Amd.Apply.{configure, apply_config, apply_fan, apply_enabled, apply_mode_of, start_curve}

-- `m` fails, in whatever state it runs.
pub record Fails {S A : Type 0} (m : Exec S A) : Type 0 where
  pub at : (s : S) → is_ok (m s).0 ≡ false

module _ {S A : Type 0} where
  Fails-raise : (e : Error) → Fails (raise {S = S} {A = A} e)
  unfolding raise
  Fails-raise e = record { at = λ s. refl }

module _ {S A B : Type 0} where
  Fails-continue :
      (r : Result A) (f : A → Exec S B) (s : S) → is_ok r ≡ false → is_ok (continue r f s).0 ≡ false
  Fails-continue (ok a) f s p = ground arith
  Fails-continue (err e) f s p = refl

  continue-Fails :
      (r : Result A) (f : A → Exec S B) (s : S)
      → ((a : A) → Fails (f a))
      → is_ok (continue r f s).0 ≡ false
  continue-Fails (ok a) f s k = (k a).at s
  continue-Fails (err e) f s k = refl

  Fails-first : (m : Exec S A) (f : A → Exec S B) → Fails m → Fails (m >>= f)
  unfolding ◌>>=◌
  Fails-first m f k = record { at = λ s. Fails-continue (m s).0 f (m s).1 (k.at s) }

  Fails-then : (m : Exec S A) (f : A → Exec S B) → ((a : A) → Fails (f a)) → Fails (m >>= f)
  unfolding ◌>>=◌
  Fails-then m f k = record { at = λ s. continue-Fails (m s).0 f (m s).1 k }

module _ {P : Platform} (card : Card P) where
  Fails-apply_mode :
      (index : ℕ) (level : Option P.PerformanceLevel) (hs : List (List (Option ℤ)))
      → is_manual card level ≡ false
      → Fails (apply_mode card (some index) level hs)
  unfolding apply_mode
  Fails-apply_mode index level hs p = rw p (Fails-raise _)

  Fails-apply_states :
      (kind : P.PowerLevelKind) (states : List ℕ) (rest : Dict P.PowerLevelKind (List ℕ))
      (level : Option P.PerformanceLevel)
      → is_manual card level ≡ false
      → Fails (apply_states card ((kind, states) ∷ rest) level)
  unfolding apply_states
  Fails-apply_states kind states rest level p = rw p (Fails-first _ _ (Fails-raise _))

  -- The settings that need the manual level, or a fan curve, and lack it.
  pub data IsRefused (config : Gpu P) : Type 0 where
    mode :
        (index : ℕ)
        → config.power_profile_mode_index ≡ some index
        → is_manual card config.performance_level ≡ false
        → IsRefused config
    states :
        (kind : P.PowerLevelKind) (levels : List ℕ) (rest : Dict P.PowerLevelKind (List ℕ))
        → config.power_states ≡ (kind, levels) ∷ rest
        → is_manual card config.performance_level ≡ false
        → IsRefused config
    no_settings :
        config.fan_control_enabled ≡ true → config.fan_control_settings ≡ none → IsRefused config
    empty_curve :
        (settings : FanControlSettings P)
        → config.fan_control_enabled ≡ true
        → config.fan_control_settings ≡ some settings
        → settings.mode ≡ FanControlMode.curve
        → settings.curve.points ≡ []
        → IsRefused config

  Fails-apply_fan-none :
      (config : Gpu P)
      → config.fan_control_enabled ≡ true
      → config.fan_control_settings ≡ none
      → Fails (apply_fan card config)
  unfolding apply_fan apply_enabled
  Fails-apply_fan-none config p q = rw (p, q) (Fails-raise _)

  Fails-apply_fan-empty :
      (config : Gpu P) (settings : FanControlSettings P)
      → config.fan_control_enabled ≡ true
      → config.fan_control_settings ≡ some settings
      → settings.mode ≡ FanControlMode.curve
      → settings.curve.points ≡ []
      → Fails (apply_fan card config)
  unfolding apply_fan apply_enabled apply_mode_of start_curve
  Fails-apply_fan-empty config settings p q m e =
      rw (p, q) (Fails-first _ _ (rw (m, e) (Fails-raise _)))

  Fails-configure : (config : Gpu P) → IsRefused config → Fails (configure card config)
  unfolding configure
  Fails-configure config (mode index e p) = Fails-then _ _ λ _.
      Fails-then _ _ λ _. Fails-then _ _ λ _. Fails-first _ _ (rw e (Fails-apply_mode index _ _ p))
  Fails-configure config (states kind levels rest e p) = Fails-then _ _ λ _. Fails-then _ _ λ _.
      Fails-then _ _
        λ _. Fails-then _ _ λ _. Fails-first _ _ (rw e (Fails-apply_states kind levels rest _ p))
  Fails-configure config (no_settings p e) = Fails-then _ _ λ _. Fails-then _ _ λ _.
      Fails-then _ _ λ _.
        Fails-then _ _ λ _. Fails-then _ _ λ _. Fails-first _ _ (Fails-apply_fan-none config p e)
  Fails-configure config (empty_curve settings p q m e) = Fails-then _ _ λ _. Fails-then _ _ λ _.
      Fails-then _ _ λ _.
        Fails-then _ _
          λ _. Fails-then _ _ λ _. Fails-first _ _ (Fails-apply_fan-empty config settings p q m e)

  -- Whatever the card answers, `apply_config` fails where the settings name a power profile mode or
  -- some power states without the manual performance level, or enable the fan control without
  -- settings or with the curve mode and an empty curve.
  pub apply_config_refuses :
      (config : Gpu P) (s : Amd P) → IsRefused config → is_ok (apply_config card config s).0 ≡ false
  unfolding apply_config
  apply_config_refuses config s r = (Fails-first _ _ (Fails-configure config r)).at s

  -- Where a power profile mode is configured, the settings after a change of the performance level
  -- to another level than the manual one make `apply_config` fail, whatever the card answers.
  pub apply_level_change_refused :
      (config : Gpu P) (level : P.PerformanceLevel) (index : ℕ) (s : Amd P)
      → config.power_profile_mode_index ≡ some index
      → P.level_eq level P.manual ≡ false
      → is_ok (apply_config card (with_performance_level P level config) s).0 ≡ false
  unfolding with_performance_level is_manual
  apply_level_change_refused config level index s e p =
      apply_config_refuses (with_performance_level P level config) s (mode index e p)
