-- ===== src/Gui/PowerStatesFrame.antt =====
-- pages/oc_page/power_states: the check boxes of the power states. A row's title is left out.
pub mod Rows
use lact.Prelude.{
  ℕ, zero, suc, Bool, true, false, not, ◌&&◌, Option, none, some, List, [], ◌∷◌, ltb, ◌==◌,
  if◌then◌else◌,
}
use lact.Platform.{Platform}
use lact.Schema.{PowerState, PowerStates}

pub record PowerStateRow : Type 0 where
  pub enabled : Bool
  pub index : ℕ
  pub active : Bool

abbrev pub index_or : Option ℕ → ℕ → ℕ
index_or none i = i
index_or (some index) i = index

-- `PowerStateRow::new`
unfoldable pub new_row : PowerState → ℕ → PowerStateRow
new_row state i = record { enabled = state.enabled; index = index_or state.index i; active = false }

abbrev add_row : PowerStateRow → Option (List PowerStateRow) → Option (List PowerStateRow)
add_row row none = none
add_row row (some rows) = some (row ∷ rows)

-- The loop of `PowerStatesList::set_power_states` from the state of number `i`: a number that is no
-- `u8` is a panic.
unfoldable pub new_rows : ℕ → List PowerState → Option (List PowerStateRow)
unfolding new_row
new_rows i [] = some []
new_rows i (state ∷ states) =
    let rest = new_rows (suc i) states in if ltb i 256 then add_row (new_row state i) rest else none

-- `PowerStatesList::get_enabled_power_states`
unfoldable pub enabled_rows : List PowerStateRow → List ℕ
enabled_rows [] = []
enabled_rows (row ∷ rows) =
    let rest = enabled_rows rows in if row.enabled then row.index ∷ rest else rest

abbrev is_active : Option ℕ → ℕ → Bool
is_active none index = false
is_active (some i) index = index == i

unfoldable pub set_active_state : Option ℕ → List PowerStateRow → List PowerStateRow
set_active_state i [] = []
set_active_state i (row ∷ rows) =
    record row { active = is_active i row.index } ∷ set_active_state i rows

-- The user clicks the box of the row at a place.
unfoldable pub click : ℕ → List PowerStateRow → List PowerStateRow
click place [] = []
click zero (row ∷ rows) = record row { enabled = not row.enabled } ∷ rows
click (suc place) (row ∷ rows) = row ∷ click place rows

pub record PowerStatesFrame : Type 0 where
  pub sensitive : Bool
  pub expanded : Bool
  pub core : List PowerStateRow
  pub vram : List PowerStateRow

abbrev is_empty {ℓ} : {A : Type ℓ} → List A → Bool
is_empty [] = true
is_empty (a ∷ rest) = false

-- `PowerStates::is_empty`
unfoldable pub states_is_empty : PowerStates → Bool
states_is_empty states = is_empty states.core && is_empty states.vram

abbrev with_rows :
    PowerStates
    → Option (List PowerStateRow)
    → Option (List PowerStateRow)
    → PowerStatesFrame
    → Option PowerStatesFrame
with_rows states (some core) (some vram) frame = some (record frame {
  sensitive = not (states_is_empty states);
  expanded = if states_is_empty states then false else frame.expanded;
  core = core;
  vram = vram;
})
with_rows states _ _ frame = none

unfoldable pub set_power_states : PowerStates → PowerStatesFrame → Option PowerStatesFrame
unfolding new_rows states_is_empty
set_power_states states frame =
    with_rows states (new_rows 0 states.core) (new_rows 0 states.vram) frame

-- `set_stats`, of the two states that are active.
unfoldable pub show_active : Option ℕ → Option ℕ → PowerStatesFrame → PowerStatesFrame
unfolding set_active_state
show_active core vram frame = record frame {
  core = set_active_state core frame.core;
  vram = set_active_state vram frame.vram;
}

unfoldable pub get_enabled_power_states :
    (P : Platform) → PowerStatesFrame → List (P.PowerLevelKind × List ℕ)
unfolding enabled_rows
get_enabled_power_states P frame =
    (P.core_clock, enabled_rows frame.core) ∷ (P.memory_clock, enabled_rows frame.vram) ∷ []
