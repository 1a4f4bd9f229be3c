-- ===== src/Prelude/Exec.antt =====
-- `anyhow::Result`, and actions on a state that may fail. What was written before a failure stays
-- written, so the state comes back beside the error too.
use mathlib.Core.Bool.{Bool, true, false}
use mathlib.Core.Option.{Option, none, some}
use mathlib.Core.Path.{◌≡◌, refl}
use mathlib.Core.Logic.{◌⊎◌, inl, inr}
use Prim.Native.String.{String}

-- `anyhow!(…)`, and `.context(…)` around an error.
pub data Error : Type 0 where
  msg : String → Error
  context : String → Error → Error

pub data Result {ℓ} (A : Type ℓ) : Type ℓ where
  ok : A → Result A
  err : Error → Result A

-- `.context(…)` on a result, and on an `Option`.
abbrev pub with_context {ℓ} : {A : Type ℓ} → String → Result A → Result A
with_context c (ok a) = ok a
with_context c (err e) = err (context c e)

abbrev pub or_fail {ℓ} : {A : Type ℓ} → String → Option A → Result A
or_fail c none = err (msg c)
or_fail c (some a) = ok a

-- `.ok()`, `.is_ok()`.
abbrev pub ok? {ℓ} : {A : Type ℓ} → Result A → Option A
ok? (ok a) = some a
ok? (err e) = none

abbrev pub is_ok {ℓ} : {A : Type ℓ} → Result A → Bool
is_ok (ok a) = true
is_ok (err e) = false

abbrev pub Exec {ℓ} : Type ℓ → Type ℓ → Type ℓ
Exec S A = S → Result A × S

module _ {ℓ} {S A : Type ℓ} where
  abbrev pub pure : A → Exec S A
  pure a s = (ok a, s)

  abbrev pub raise : Error → Exec S A
  raise e s = (err e, s)

  abbrev pub lift : Result A → Exec S A
  lift r s = (r, s)

  abbrev pub gets : (S → A) → Exec S A
  gets f s = (ok (f s), s)

  -- The result as a value: `match m.await { Ok(…) => …, Err(…) => … }`.
  abbrev pub attempt : Exec S A → Exec S (Result A)
  attempt m s = (ok (m s).0, (m s).1)

  abbrev pub in_context : String → Exec S A → Exec S A
  in_context c m s = (with_context c (m s).0, (m s).1)

module _ {ℓ} {S A B : Type ℓ} where
  abbrev pub continue : Result A → (A → Exec S B) → Exec S B
  continue (ok a) f s = f a s
  continue (err c) f s = (err c, s)

  infixl 10 ◌>>=◌ ◌>>◌
  abbrev pub ◌>>=◌ : Exec S A → (A → Exec S B) → Exec S B
  ◌>>=◌ m f s = continue (m s).0 f (m s).1

  abbrev pub ◌>>◌ : Exec S A → Exec S B → Exec S B
  ◌>>◌ m n s = continue (m s).0 (λ _. n) (m s).1

-- The changes of state that have no result.
abbrev pub modify : {S : Type 0} → (S → S) → Exec S (Unit {0})
modify f s = (ok tt, f s)

abbrev pub skip : {S : Type 0} → Exec S (Unit {0})
skip s = (ok tt, s)

pub Result-cases {ℓ} :
    {A : Type ℓ} (r : Result A) → ((a : A) × (r ≡ ok a)) ⊎ ((e : Error) × (r ≡ err e))
Result-cases (ok a) = inl (a, refl)
Result-cases (err e) = inr (e, refl)
