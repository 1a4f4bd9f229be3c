-- ===== src/Amd/States.antt =====
-- `get_power_states` of amd.rs: the levels of a clock, read again while they make no sense.
use lact.Prelude.{
  ℕ, zero, suc, map, sym, subst, ◌∙◌, ◌+◌, ◌≤◌, ◌<◌, ◌≡◌, refl, ap, Bool, true, false, ◌||◌,
  Bool-cases, Option, none, some, List, [], ◌∷◌, leb, ltb, ◌==◌, if◌then◌else◌, length, arith, inl,
  inr,
}
use mathlib.Core.Bool.{false≢true}
use lact.Prelude.Dict.{get}
use lact.Platform.{Platform}
use lact.Schema.{PowerState}
use lact.Config.{Gpu}

-- The levels that the card reports for a clock at each attempt, if it reports any.
abbrev pub Levels : Type 0
Levels = ℕ → Option (List ℕ)

-- `MAX_PSTATE_READ_ATTEMPTS`
abbrev pub max_pstate_read_attempts : ℕ
max_pstate_read_attempts = 5

abbrev pub or_empty : Option (List ℕ) → List ℕ
or_empty none = []
or_empty (some levels) = levels

-- `levels.iter().any(|value| *value >= u64::from(u16::MAX))`
pub is_nonsensical : List ℕ → Bool
is_nonsensical [] = false
is_nonsensical (value ∷ values) = leb 65535 value || is_nonsensical values

-- With `left` attempts after this one, which is number `attempt`.
pub read_levels : Levels → ℕ → ℕ → List ℕ
read_levels levels zero attempt = or_empty (levels attempt)
read_levels levels (suc left) attempt =
    let again = read_levels levels left (suc attempt) in
    if is_nonsensical (or_empty (levels attempt)) then again else or_empty (levels attempt)

abbrev pub contains : ℕ → List ℕ → Bool
contains i [] = false
contains i (j ∷ js) = j == i || contains i js

-- `enabled_states.map_or(true, |enabled| enabled.contains(&i))`
abbrev pub is_enabled : Option (List ℕ) → ℕ → Bool
is_enabled none i = true
is_enabled (some states) i = contains i states

abbrev pub prepend : PowerState → Option (List PowerState) → Option (List PowerState)
prepend state none = none
prepend state (some states) = some (state ∷ states)

-- The states from number `i` on; `none` is the panic of `u8::try_from(i).unwrap()`.
pub number_from : Option (List ℕ) → ℕ → List ℕ → Option (List PowerState)
number_from enabled i [] = some []
number_from enabled i (level ∷ levels) =
    let rest = number_from enabled (suc i) levels in
    if ltb i 256
    then prepend
        (record { enabled = is_enabled enabled i; min_value = none; value = level; index = some i })
        rest
    else none

module _ (P : Platform) where
  pub enabled_states : Option (Gpu P) → P.PowerLevelKind → Option (List ℕ)
  enabled_states none kind = none
  enabled_states (some gpu) kind = get P.kind_eq gpu.power_states kind

  pub get_power_states_kind : Levels → Option (Gpu P) → P.PowerLevelKind → Option (List PowerState)
  get_power_states_kind levels gpu kind =
      number_from (enabled_states gpu kind) 0 (read_levels levels max_pstate_read_attempts 0)

-- The reading ends at the first answer that makes sense, or after all attempts, with that answer.
pub read_levels_lem :
    (levels : Levels) (left attempt : ℕ)
    → (n : ℕ) × (attempt ≤ n)
      × (n ≤ attempt + left)
      × (read_levels levels left attempt ≡ or_empty (levels n))
      × ((is_nonsensical (or_empty (levels n)) ≡ true) → n ≡ attempt + left)
      × ((m : ℕ) → attempt ≤ m → m < n → is_nonsensical (or_empty (levels m)) ≡ true)
unfolding read_levels
read_levels_lem levels zero attempt =
    (attempt, omega arith, omega arith, refl, λ e. omega arith, λ m p q. absurd (omega arith))
read_levels_lem levels (suc left) attempt =
    elim (Bool-cases (is_nonsensical (or_empty (levels attempt)))) [
      | inl e ↦
          let (n, low, high, read, final, before) = read_levels_lem levels left (suc attempt) in
          (
            n,
            omega arith,
            omega arith,
            rw (e, read_levels) read,
            λ p. omega (arith, final p),
            λ m p q. elim (Bool-cases (m == attempt)) [
              | inl here ↦ ground (arith, e)
              | inr there ↦ before m (ground arith) q
            ],
          )
      | inr e ↦ (
        attempt,
        omega arith,
        omega arith,
        rw (e, read_levels) refl,
        λ p. absurd (false≢true (sym e ∙ p)),
        λ m p q. absurd (omega arith),
      )
    ]

-- The states carry their numbers, from `i` on, and are enabled as the configuration says.
abbrev pub IsNumbered : Option (List ℕ) → ℕ → List PowerState → Type 0
IsNumbered enabled i [] = Unit {0}
IsNumbered enabled i (state ∷ states) =
    (state.index ≡ some i)
    × (state.enabled ≡ is_enabled enabled i)
    × IsNumbered enabled (suc i) states

abbrev pub values : List PowerState → List ℕ
values = map (λ state. state.value)

pub number_from_lem :
    (enabled : Option (List ℕ)) (i : ℕ) (levels : List ℕ)
    → i + length levels ≤ 256
    → (states : List PowerState) × (number_from enabled i levels ≡ some states)
      × (values states ≡ levels)
      × IsNumbered enabled i states
unfolding number_from
number_from_lem enabled i [] h = ([], refl, refl, tt)
number_from_lem enabled i (level ∷ levels) h =
    let (states, e, v, n) = number_from_lem enabled (suc i) levels (omega arith) in
    let small : ltb i 256 ≡ true = ground arith in
    let state : PowerState = record {
      enabled = is_enabled enabled i;
      min_value = none;
      value = level;
      index = some i;
    } in
    (
      state ∷ states,
      rw (small, number_from) (ap (prepend state) e),
      ap (λ ls. level ∷ ls) v,
      (refl, refl, n),
    )

-- Where the card reports at most 256 levels at each attempt: the states have the values of one of
-- the first six attempts, of the last of these if the values make no sense, and they carry their
-- numbers and are enabled as the configuration says.
pub get_power_states_kind_lem :
    (P : Platform) (levels : Levels) (gpu : Option (Gpu P)) (kind : P.PowerLevelKind)
    → ((n : ℕ) → length (or_empty (levels n)) ≤ 256)
    → (states : List PowerState) × (n : ℕ) × (get_power_states_kind P levels gpu kind ≡ some states)
      × (n ≤ max_pstate_read_attempts)
      × (values states ≡ or_empty (levels n))
      × ((is_nonsensical (values states) ≡ true) → n ≡ max_pstate_read_attempts)
      × IsNumbered (enabled_states P gpu kind) 0 states
unfolding get_power_states_kind
get_power_states_kind_lem P levels gpu kind few =
    let (n, low, high, read, final, before) = read_levels_lem levels max_pstate_read_attempts 0 in
    let (states, e, v, numbered) =
      number_from_lem (enabled_states P gpu kind) 0 (read_levels levels max_pstate_read_attempts 0)
        (rw read (omega (arith, few n))) in
    (
      states,
      n,
      e,
      omega arith,
      v ∙ read,
      λ p. omega (arith, final (subst (λ ls. is_nonsensical ls ≡ true) (v ∙ read) p)),
      numbered,
    )
