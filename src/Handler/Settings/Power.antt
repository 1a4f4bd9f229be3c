-- ===== src/Handler/Settings/Power.antt =====
-- Power states go with the manual performance level.
use lact.Prelude.{◌≡◌, ap, sym, ◌∙◌, true, some, [], ◌↔◌, ◌⊎◌, inl, inr, Bool-cases}
use mathlib.Core.Bool.{false≢true}
use lact.Platform.{Platform}
use lact.Config.{Gpu}
use lact.Handler.Settings.{with_performance_level}

-- The daemon refuses power states under any other level than the manual one.
abbrev pub IsConsistent : (P : Platform) → Gpu P → Type 0
IsConsistent P gpu = (gpu.power_states ≡ []) ⊎ (gpu.performance_level ≡ some P.manual)

-- A new performance level leaves power states only if it is the manual one, and then all of them.
pub with_performance_level-IsConsistent :
    (P : Platform) (level : P.PerformanceLevel) (gpu : Gpu P)
    → ((a b : P.PerformanceLevel) → (P.level_eq a b ≡ true) ↔ (a ≡ b))
    → IsConsistent P (with_performance_level P level gpu)
      × (level ≡ P.manual → (with_performance_level P level gpu).power_states ≡ gpu.power_states)
unfolding with_performance_level
with_performance_level-IsConsistent P level gpu eq = elim (Bool-cases (P.level_eq level P.manual)) [
  | inl e ↦ (inr (ap some ((eq level P.manual).0 e)), λ p. rw e)
  | inr e ↦ (inl (rw e), λ p. absurd (false≢true (sym e ∙ (eq level P.manual).1 p)))
]
