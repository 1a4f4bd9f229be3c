-- ===== src/Gui/PerformanceFrame.antt =====
-- pages/oc_page/performance_frame.rs: the level's drop-down, and the power profile modes.
use lact.Prelude.{
  ℕ, Bool, true, false, Option, none, some, List, [], length, ltb, ◌==◌, if◌then◌else◌, String,
}
use lact.Prelude.Dict.{Dict, get}
use lact.Prelude.Int.{ℤ}
use lact.Platform.{Platform}
use lact.Gui.Toolkit.{Toolkit}

-- `PowerProfile` and `PowerProfileModesTable` of `amdgpu_sysfs`; a component is its values.
pub record PowerProfile : Type 0 where
  pub name : String
  pub is_custom : Bool
  pub components : List (List (Option ℤ))

pub record PowerProfileModesTable : Type 0 where
  pub modes : Dict ℕ PowerProfile
  pub active : ℕ

-- The entries of the drop-down, in its order.
pub data Level : Type 0 where
  automatic highest_clocks lowest_clocks manual : Level

-- `values` are those of the notebook's pages.
pub record PerformanceFrame : Type 0 where
  pub visible : Bool
  pub selected : Level
  pub mode_box : Bool
  pub mode_menu_button : Bool
  pub modes_table : Option PowerProfileModesTable
  pub selected_row : Option ℕ
  pub notebook_visible : Bool
  pub values : List (List (Option ℤ))

abbrev pub is_manual : Level → Bool
is_manual manual = true
is_manual _ = false

-- The profile of the selected row.
unfoldable pub active_profile : Option PowerProfileModesTable → Option ℕ → Option PowerProfile
unfolding get
active_profile none row = none
active_profile (some table) none = none
active_profile (some table) (some row) = get (λ a b. a == b) table.modes row

abbrev refilled : Option PowerProfile → PerformanceFrame → PerformanceFrame
refilled none frame = record frame { notebook_visible = false }
refilled (some profile) frame = record frame {
  notebook_visible = true;
  values = profile.components;
}

unfoldable pub update_from_selection : PerformanceFrame → PerformanceFrame
unfolding active_profile
update_from_selection frame =
    refilled (active_profile frame.modes_table frame.selected_row)
      (record frame { mode_menu_button = is_manual frame.selected })

unfoldable pub set_active_level : Level → PerformanceFrame → PerformanceFrame
unfolding update_from_selection
set_active_level level frame = update_from_selection (record frame { selected = level })

abbrev count : Option PowerProfileModesTable → ℕ
count none = 0
count (some table) = length table.modes

-- `PowerProfileModesTable` shown: a row for each mode, and the active one selected. That there is no
-- such row is a panic.
unfoldable pub set_power_profile_modes :
    Option PowerProfileModesTable → PerformanceFrame → Option PerformanceFrame
unfolding update_from_selection
set_power_profile_modes none frame = some (
    update_from_selection
      (record frame { mode_box = false; modes_table = none; selected_row = none }))
set_power_profile_modes (some table) frame =
    if ltb table.active (length table.modes)
    then some (
        update_from_selection (record frame {
          mode_box = true;
          modes_table = some table;
          selected_row = some table.active;
        }))
    else none

abbrev pub get_selected_power_profile_mode : PerformanceFrame → Option ℕ
get_selected_power_profile_mode frame = if frame.mode_menu_button then frame.selected_row else none

abbrev custom_values : Option PowerProfile → List (List (Option ℤ)) → List (List (Option ℤ))
custom_values none values = []
custom_values (some profile) values = if profile.is_custom then values else []

unfoldable pub get_power_profile_mode_custom_heuristics : PerformanceFrame → List (List (Option ℤ))
unfolding active_profile
get_power_profile_mode_custom_heuristics frame =
    custom_values (active_profile frame.modes_table frame.selected_row) frame.values

module _ {P : Platform} (tk : Toolkit P) where
  -- `PerformanceLevel::from_str` of the selected entry, which knows all four.
  abbrev pub get_selected_performance_level : PerformanceFrame → P.PerformanceLevel
  get_selected_performance_level frame = elim frame.selected [
    | automatic ↦ P.auto
    | highest_clocks ↦ tk.high
    | lowest_clocks ↦ P.low
    | manual ↦ P.manual
  ]
