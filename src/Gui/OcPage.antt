-- ===== src/Gui/OcPage.antt =====
-- pages/oc_page/mod.rs with its section of the power limit.
use lact.Prelude.{ℕ, Bool, true, false, Option, none, some, List, [], if◌then◌else◌}
use lact.Platform.{Platform}
use lact.Gui.Toolkit.{Toolkit}
use lact.Gui.Adjustment.{
  OcAdjustment, set_lower, set_upper, set_initial_value, get_changed_value, set_value,
}
use lact.Gui.Clocks.{ClocksFrame}
use lact.Gui.PowerStatesFrame.{PowerStatesFrame, show_active, get_enabled_power_states}
use lact.Gui.PerformanceFrame.{
  PerformanceFrame, Level, is_manual, set_active_level, get_selected_performance_level,
}

-- The limit's slider; the range is bound to its limits.
pub record PowerCapSection (P : Platform) : Type 0 where
  pub adjustment : OcAdjustment P
  pub default_value : P.F64
  pub visible : Bool

-- What the page reads of `DeviceStats`. The level is given as the drop-down's entry for it.
pub record OcStats (P : Platform) : Type 0 where
  pub cap_max : Option P.F64
  pub cap_min : Option P.F64
  pub cap_default : Option P.F64
  pub cap_current : Option P.F64
  pub performance_level : Option Level
  pub core_power_state : Option ℕ
  pub memory_power_state : Option ℕ

pub record OcPage (P : Platform) : Type 0 where
  pub power_cap_section : PowerCapSection P
  pub performance_frame : PerformanceFrame
  pub power_states_frame : PowerStatesFrame
  pub clocks_frame : ClocksFrame P

unfoldable pub set_performance_level : Option Level → PerformanceFrame → PerformanceFrame
unfolding set_active_level
set_performance_level none frame = record frame { visible = false }
set_performance_level (some level) frame = set_active_level level (record frame { visible = true })

-- `unwrap_or_default()`
abbrev or_default_float : (P : Platform) → Option P.F64 → P.F64
or_default_float P none = P.f64.of_decimal 0 1
or_default_float P (some v) = v

module _ {P : Platform} (tk : Toolkit P) where
  abbrev show_cap : Option P.F64 → PowerCapSection P → PowerCapSection P
  show_cap none section = record section { visible = false }
  show_cap (some cap) section = record section {
    adjustment = set_initial_value tk cap section.adjustment;
    visible = true;
  }

  unfoldable pub set_cap_stats : OcStats P → PowerCapSection P → PowerCapSection P
  unfolding set_initial_value
  set_cap_stats stats section = show_cap stats.cap_current (record section {
    adjustment =
        set_lower (or_default_float P stats.cap_min)
          (set_upper (or_default_float P stats.cap_max) section.adjustment);
    default_value = or_default_float P stats.cap_default;
  })

  unfoldable pub set_oc_stats : OcStats P → Bool → OcPage P → OcPage P
  unfolding show_active set_cap_stats set_performance_level
  set_oc_stats stats initial page =
      let frame =
        show_active stats.core_power_state stats.memory_power_state page.power_states_frame in
      if initial
      then record page {
        power_states_frame = frame;
        power_cap_section = set_cap_stats stats page.power_cap_section;
        performance_frame = set_performance_level stats.performance_level page.performance_frame;
      }
      else record page { power_states_frame = frame }

  -- The button `Default`.
  unfoldable pub reset_cap : PowerCapSection P → PowerCapSection P
  unfolding set_value
  reset_cap section = record section {
    adjustment = set_value tk section.default_value section.adjustment;
  }

module _ {P : Platform} where
  unfoldable pub get_power_cap : OcPage P → Option P.F64
  unfolding get_changed_value
  get_power_cap page = get_changed_value true page.power_cap_section.adjustment

  unfoldable pub get_performance_level : Toolkit P → OcPage P → Option P.PerformanceLevel
  get_performance_level tk page =
      if page.performance_frame.visible
      then some (get_selected_performance_level tk page.performance_frame)
      else none

  unfoldable pub get_page_power_states : OcPage P → List (P.PowerLevelKind × List ℕ)
  unfolding get_enabled_power_states
  get_page_power_states page =
      if is_manual page.performance_frame.selected
      then get_enabled_power_states P page.power_states_frame
      else []
