-- ===== src/Curve/Bracket.antt =====
-- The two points between which a temperature is interpolated.
use lact.Prelude.{◌≡◌, Bool, true, some, List, [], ◌∷◌, arith, keep_if, first, last, not}
use lact.Prelude.Int.{ℤ, pos, ◌-ℤ◌, ◌≤ℤ◌, ltb_ℤ}
use lact.Platform.{Platform}
use lact.Curve.{maybe_lower, maybe_higher, sub_i32}

module _ {A : Type 0} (p : A → Bool) where
  first_passes : (xs : List A) (x : A) → first (keep_if p xs) ≡ some x → p x ≡ true
  first_passes [] x e = cc
  first_passes (y ∷ xs) x e = ground (arith, first_passes xs x)

  last_passes : (xs : List A) (x : A) → last (keep_if p xs) ≡ some x → p x ≡ true
  last_passes [] x e = cc
  last_passes (y ∷ xs) x e = ground (arith, last_passes xs x)

module _ (P : Platform) (points : List (ℤ × P.F32)) (current : ℤ) where
  -- The lower point lies below the temperature.
  pub maybe_lower-lt :
      (l : ℤ × P.F32) → maybe_lower P points current ≡ some l → ltb_ℤ l.0 current ≡ true
  unfolding maybe_lower
  maybe_lower-lt l e = last_passes (λ p. ltb_ℤ p.0 current) points l e

  -- The higher point does not.
  pub maybe_higher-le :
      (h : ℤ × P.F32) → maybe_higher P points current ≡ some h → not (ltb_ℤ h.0 current) ≡ true
  unfolding maybe_higher
  maybe_higher-le h e = first_passes (λ p. not (ltb_ℤ p.0 current)) points h e

-- Where a - b is in the upper half of the range, nothing wraps.
pub sub_i32-of_fits : (a b : ℤ) → b ≤ℤ a → a -ℤ b ≤ℤ pos 2147483647 → sub_i32 a b ≡ a -ℤ b
unfolding sub_i32
sub_i32-of_fits a b h k = ground arith
