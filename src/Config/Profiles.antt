-- ===== src/Config/Profiles.antt =====
-- The settings that are read and written through the current profile.
use lact.Prelude.{
  String, ◌≡◌, refl, ◌≢◌, none, some, [], arith, str_eq, eq_iff, Option-cases, inl, inr,
}
use lact.Prelude.Exec.{ok}
use lact.Prelude.Dict.{Dict, get, get-insert}
use lact.Platform.{Platform}
use lact.Config.{Config, Gpu, gpus, set_gpus, clear}

module _ (P : Platform) where
  -- A write through `gpus_mut` is read back by `gpus`; the other profiles keep their settings, and
  -- so does the config itself while a profile is selected.
  pub gpus-set_gpus :
      (config : Config P) (old new : Dict String (Gpu P))
      → gpus P config ≡ ok old
      → (gpus P (set_gpus P config new) ≡ ok new)
        × ((name : String)
            → config.current_profile ≢ some name
            → get str_eq (set_gpus P config new).profiles name ≡ get str_eq config.profiles name)
        × (config.current_profile ≢ none → (set_gpus P config new).gpus ≡ config.gpus)
  unfolding gpus set_gpus
  gpus-set_gpus config old new e = elim (Option-cases config.current_profile) [
    | inl c ↦ (ground arith, λ name n. ground arith, λ n. absurd (n c))
    | inr (p, c) ↦ (
      ground
          (arith, get-insert str_eq eq_iff config.profiles p p (record { gpus = new }), eq_iff p p),
      λ name n. ground (
        arith,
        get-insert str_eq eq_iff config.profiles p name (record { gpus = new }),
        eq_iff p name,
      ),
      λ n. ground arith,
    )
  ]

  -- After `clear` there are no settings and no profile, and `gpus` succeeds.
  pub gpus-clear :
      (config : Config P)
      → (gpus P (clear P config) ≡ ok [])
        × ((name : String) → get str_eq (clear P config).profiles name ≡ none)
        × ((clear P config).daemon ≡ config.daemon)
  unfolding gpus clear get
  gpus-clear config = (refl, λ name. refl, refl)
