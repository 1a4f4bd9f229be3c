-- ===== src/Prelude/Dict.antt =====
-- `HashMap`, `IndexMap` and `BTreeMap` as association lists, over a Boolean test on keys. The order
-- of the list is the order in which the map is iterated; a new key comes last.
use mathlib.Core.Path.{◌≡◌, refl}
use mathlib.Core.Logic.{◌↔◌}
use mathlib.Core.Bool.{Bool, true, false}
use mathlib.Core.Option.{Option, none, some}
use mathlib.Core.List.{List, [], ◌∷◌}
use native.Mathlib.Omega.{arith}
use lact.Prelude.Tests.{if◌then◌else◌}

abbrev pub Dict {ℓ κ} : Type ℓ → Type κ → Type (ℓ ⊔ κ)
Dict K V = List (K × V)

abbrev pub keys {ℓ κ} : {K : Type ℓ} {V : Type κ} → Dict K V → List K
keys [] = []
keys ((k, v) ∷ d) = k ∷ keys d

module _ {ℓ κ} {K : Type ℓ} {V : Type κ} (eq : K → K → Bool) where
  unfoldable pub get : Dict K V → K → Option V
  get [] k = none
  get ((j, v) ∷ d) k = if eq j k then some v else get d k

  -- The value of an old key is replaced where it stands.
  unfoldable pub insert : Dict K V → K → V → Dict K V
  insert [] k v = (k, v) ∷ []
  insert ((j, w) ∷ d) k v = if eq j k then (j, v) ∷ d else (j, w) ∷ insert d k v

  -- `shift_remove`
  pub remove : Dict K V → K → Dict K V
  remove [] k = []
  remove ((j, w) ∷ d) k = let rest = remove d k in if eq j k then rest else (j, w) ∷ rest

  pub contains_key : Dict K V → K → Bool
  contains_key d k = elim (get d k) [ none ↦ false | some v ↦ true ]

  module _ (eq_lem : (a b : K) → (eq a b ≡ true) ↔ (a ≡ b)) where
    pub get-insert :
        (d : Dict K V) (k j : K) (v : V)
        → get (insert d k v) j ≡ (if eq k j then some v else get d j)
    unfolding get insert
    get-insert [] k j v = refl
    get-insert ((i, w) ∷ d) k j v =
        ground (arith, eq_lem i k, eq_lem i j, eq_lem k j, get-insert d k j v)

    pub get-remove :
        (d : Dict K V) (k j : K) → get (remove d k) j ≡ (if eq k j then none else get d j)
    unfolding get remove
    get-remove [] k j = ground arith
    get-remove ((i, w) ∷ d) k j =
        ground (arith, eq_lem i k, eq_lem i j, eq_lem k j, get-remove d k j)
