-- ===== src/Nvidia/States.antt =====
-- `get_power_states` of nvidia.rs: the performance states of the card, with their clocks.
use lact.Prelude.{ℕ, ◌≡◌, refl, ap, true, false, some, List, [], ◌∷◌, ◌⊎◌, inl, inr}
use lact.Prelude.Exec.{Result, ok, err, with_context, is_ok}
use lact.Platform.{Platform}
use lact.Schema.{PowerState, PowerStates}
use lact.Nvidia.Device.{Clock, graphics, memory, Pstate, Device, Nvidia}

-- `PowerStates::default()`
abbrev pub no_states : PowerStates
no_states = record { core = []; vram = [] }

abbrev pub power_state : Pstate → ℕ × ℕ → PowerState
power_state pstate (min, max) = record {
  enabled = true;
  min_value = some min;
  value = max;
  index = some (pstate.0);
}

-- One round of the loop: the first read that fails ends it.
abbrev pub with_state :
    Pstate → Result (ℕ × ℕ) → Result (ℕ × ℕ) → Result PowerStates → Result PowerStates
with_state pstate (err e) mem rest = err e
with_state pstate (ok gpu) (err e) rest = err e
with_state pstate (ok gpu) (ok mem) (err e) = err e
with_state pstate (ok gpu) (ok mem) (ok rest) = ok (record {
  core = power_state pstate gpu ∷ rest.core;
  vram = power_state pstate mem ∷ rest.vram;
})

abbrev pub or_no_states : Result PowerStates → PowerStates
or_no_states (ok states) = states
or_no_states (err e) = no_states

module _ {P : Platform} (device : Device) (s : Nvidia P) where
  -- `min_max_clock_of_pstate`
  abbrev pub clocks : Clock → Pstate → Result (ℕ × ℕ)
  clocks clock pstate = device.clock_of_pstate clock pstate s.calls

  unfoldable pub read_states : List Pstate → Result PowerStates
  read_states [] = ok no_states
  read_states (pstate ∷ pstates) =
      let rest = read_states pstates in
      with_state pstate (with_context "Could not read GPU pstates" (clocks graphics pstate))
        (with_context "Could not read memory pstates" (clocks memory pstate)) rest

  unfoldable pub try_get_power_states : Result PowerStates
  unfolding read_states
  try_get_power_states =
      elim (with_context "Could not get supported pstates" (device.pstates s.calls)) [
        | ok pstates ↦ read_states pstates
        | err e ↦ err e
      ]

  unfoldable pub get_power_states : PowerStates
  unfolding try_get_power_states
  get_power_states = or_no_states try_get_power_states

  -- The states have the numbers of the card's, in its order, are enabled, and have the clocks that
  -- the card reports.
  abbrev pub Shows : Clock → List Pstate → List PowerState → Type 0
  Shows clock [] [] = Unit
  Shows clock [] (state ∷ states) = ⊥
  Shows clock (pstate ∷ pstates) [] = ⊥
  Shows clock (pstate ∷ pstates) (state ∷ states) =
      (state.enabled ≡ true)
      × (state.index ≡ some (pstate.0))
      × ((min : ℕ) × (state.min_value ≡ some min) × (clocks clock pstate ≡ ok (min, state.value)))
      × Shows clock pstates states

  -- The clocks of some state cannot be read.
  abbrev pub Fails : List Pstate → Type 0
  Fails [] = ⊥
  Fails (pstate ∷ pstates) =
      (is_ok (clocks graphics pstate) ≡ false)
      ⊎ ((is_ok (clocks memory pstate) ≡ false) ⊎ Fails pstates)

  abbrev Outcome : List Pstate → Result PowerStates → Type 0
  Outcome pstates (ok states) =
      Shows graphics pstates states.core × Shows memory pstates states.vram
  Outcome pstates (err e) = Fails pstates

  with_state_lem :
      (pstate : Pstate) (pstates : List Pstate) (gpu mem : Result (ℕ × ℕ))
      (rest : Result PowerStates)
      → clocks graphics pstate ≡ gpu
      → clocks memory pstate ≡ mem
      → Outcome pstates rest
      → Outcome (pstate ∷ pstates) (
          with_state pstate
            (with_context "Could not read GPU pstates" gpu)
            (with_context "Could not read memory pstates" mem)
            rest)
  with_state_lem pstate pstates (err e) mem rest g m o = inl (ap is_ok g)
  with_state_lem pstate pstates (ok (a, b)) (err e) rest g m o = inr (inl (ap is_ok m))
  with_state_lem pstate pstates (ok (a, b)) (ok (c, d)) (err e) g m o = inr (inr o)
  with_state_lem pstate pstates (ok (a, b)) (ok (c, d)) (ok rest) g m (core, vram) =
      ((refl, refl, (a, refl, g), core), (refl, refl, (c, refl, m), vram))

  read_states_lem : (pstates : List Pstate) → Outcome pstates (read_states pstates)
  unfolding read_states
  read_states_lem [] = (tt, tt)
  read_states_lem (pstate ∷ pstates) =
      with_state_lem pstate pstates _ _ (read_states pstates) refl refl (read_states_lem pstates)

  all_or_none :
      (pstates : List Pstate) (r : Result PowerStates)
      → Outcome pstates r
      → (Shows graphics pstates (or_no_states r).core × Shows memory pstates (or_no_states r).vram)
        ⊎ (Fails pstates × (or_no_states r ≡ no_states))
  all_or_none pstates (ok states) o = inl o
  all_or_none pstates (err e) o = inr (o, refl)

  -- Where the card lists some performance states: `get_power_states` shows all of them for both
  -- clocks, in the card's order, enabled, and with their numbers and the clocks that the card
  -- reports; or the clocks of one cannot be read, and it shows none at all.
  pub get_power_states_lem :
      (pstates : List Pstate)
      → device.pstates s.calls ≡ ok pstates
      → (Shows graphics pstates get_power_states.core × Shows memory pstates get_power_states.vram)
        ⊎ (Fails pstates × (get_power_states ≡ no_states))
  unfolding get_power_states try_get_power_states
  get_power_states_lem pstates p =
      rw (p, get_power_states, try_get_power_states)
        (all_or_none pstates (read_states pstates) (read_states_lem pstates))
