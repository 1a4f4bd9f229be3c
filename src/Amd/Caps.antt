-- ===== src/Amd/Caps.antt =====
-- When `apply_config` writes a power limit, in amd.rs.
use lact.Prelude.{◌≡◌, refl, true, false, List, [], ◌∷◌}
use lact.Platform.{Platform}
use lact.Config.{Gpu}
use lact.Prelude.Io.{Upholds, Upholds-bind, upholds_rules}
use lact.Amd.Card.{Card, Amd, Call, Trace, ask, write}
use lact.Amd.PowerCap.{differs}
use lact.Amd.Apply.{commit_all, apply_config}
use lact.Amd.Kept.{IsKept, is_set_cap}
use lact.Amd.KeptFan.{Upholds-configure}

module _ {P : Platform} (card : Card P) where
  -- Each limit is written straight after a limit that differs from it, or an error, was read.
  pub data IsGuarded : Trace P → Type 0 where
    nothing : IsGuarded []
    other :
        {t : Trace P}
        → (call : Call P) → is_set_cap call ≡ false
        → IsGuarded t
        → IsGuarded (call ∷ t)
    new_cap :
        {t : Trace P}
        → (c : P.F64) → differs card c (card.power_cap t) ≡ true
        → IsGuarded t
        → IsGuarded (Call.set_power_cap c ∷ Call.get_power_cap ∷ t)

  IsGuarded-IsKept : IsKept card IsGuarded
  IsGuarded-IsKept = record {
    other = λ call t p q g. other call p g;
    new_cap = λ c t d g. new_cap c d g;
  }

  Upholds-commit :
      (h : P.CommitHandle) → Upholds (λ s. IsGuarded s.calls) (write card (Call.commit h))
  unfolding write ask
  Upholds-commit h = record { after = λ s g. other (Call.commit h) refl g }

  Upholds-commit_all :
      (handles : List P.CommitHandle) → Upholds (λ s. IsGuarded s.calls) (commit_all card handles)
  unfolding commit_all
  Upholds-commit_all [] = search upholds_rules
  Upholds-commit_all (handle ∷ handles) =
      Upholds-bind _ _ (Upholds-commit handle) λ _. Upholds-commit_all handles

  -- Where every power limit of the calls made so far was written straight after a limit that
  -- differs from it, or an error, was read, this is so after `apply_config`, whether it succeeds or
  -- not.
  pub apply_config-IsGuarded :
      (config : Gpu P) (s : Amd P)
      → IsGuarded s.calls
      → IsGuarded (apply_config card config s).1.calls
  unfolding apply_config
  apply_config-IsGuarded config s g =
      (Upholds-bind _ _ (Upholds-configure card IsGuarded IsGuarded-IsKept config)
          λ handles. Upholds-commit_all handles).after
        s g
