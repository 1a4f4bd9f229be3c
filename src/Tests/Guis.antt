-- ===== src/Tests/Guis.antt =====
-- The examples of the graphical interface, over `fixed`.
use lact.Prelude.{
  ltb, ◌-◌, if◌then◌else◌, ℕ, ◌/◌, ◌≡◌, refl, false, none, some, List, [], ◌∷◌, arith,
}
use lact.Prelude.Int.{ℤ, pos}
use lact.Platform.Fixed.{fixed}
use lact.Schema.{SetClocksCommand}
use lact.Gui.Toolkit.{AmdTable, Toolkit}
use lact.Gui.Adjustment.{OcAdjustment, set_value, set_initial_value}
use lact.Gui.Clocks.{
  AdjustmentRow, ClocksFrame, ClocksTable, max_sclk, set_clocks_table, set_table, set_amd_table,
  get_commands, move,
}
use lact.Gui.Clocks.Moves.{get_commands-move}
use lact.Gui.FanCurveFrame.{FanCurveFrame, get_curve, set_curve}
use lact.Gui.FanCurveFrame.Points.{IsExact, get_curve-set_curve}

-- A table is its highest core clock, between 500 and 3000.
abbrev table : AmdTable ℕ
table = record {
  current_sclk_min = λ t. none;
  min_sclk_range = λ t. none;
  current_mclk_min = λ t. none;
  min_mclk_range = λ t. none;
  current_voltage_min = λ t. none;
  min_voltage_range = λ t. none;
  max_sclk = λ t. some (pos t);
  max_sclk_range = λ t. some (record { min = some (pos 500); max = some (pos 3000) });
  max_mclk = λ t. none;
  max_mclk_range = λ t. none;
  max_sclk_voltage = λ t. none;
  max_voltage_range = λ t. none;
  voltage_offset = λ t. none;
  voltage_offset_range = λ t. none;
}

abbrev pub toolkit : Toolkit fixed
toolkit = record {
  clamp = λ value lower upper page_size.
      if ltb (upper - page_size) value
      then upper - page_size
      else if ltb value lower
      then lower
      else value;
  of_f32 = λ x. x;
  to_f32 = λ x. x;
  to_u64 = λ x. x / 1000;
  high = 2;
  amd = table;
}

abbrev pub slider : OcAdjustment fixed
slider = record { value = 0; lower = 0; upper = 100000; page_size = 0; changed = false }

abbrev row : AdjustmentRow fixed
row = record { adjustment = slider; visible = false; value_ratio = 1000 }

abbrev pub frame : ClocksFrame fixed
frame = record { rows = λ r. row; tweaking_grid = false; min_values_grid = false }

abbrev pub shown : ClocksFrame fixed
shown = set_clocks_table toolkit (some (ClocksTable.amd 2500)) frame

-- From 2500 to 2600; a move beyond the limit stops there.
get_commands-move_example :
    (get_commands shown ≡ [])
    × (get_commands (move toolkit max_sclk 2600000 shown)
        ≡ SetClocksCommand.max_core_clock (pos 2600) ∷ [])
unfolding set_clocks_table set_table set_amd_table set_value set_initial_value
get_commands-move_example =
    get_commands-move toolkit (ClocksTable.amd 2500) frame max_sclk 2600000 refl refl

pub exact : IsExact toolkit
exact = record {
  zero_lem = refl;
  clamp_lem = λ value lower upper p q. ground arith;
  lt_of_int = λ m n p q r s. ground arith;
  to_i32-of_int = λ n p q. ground arith;
  to_f32-of_f32 = λ x. refl;
}

-- The curve of the repository's own test.
abbrev curve : List (ℤ × ℕ)
curve = (pos 40, 200) ∷ (pos 50, 350) ∷ (pos 60, 500) ∷ []

abbrev pub fan_frame : FanCurveFrame fixed
fan_frame = record {
  points = [];
  spindown_delay_adj = slider;
  change_threshold_adj = slider;
  hysteresis_grid = false;
}

get_curve-set_curve_example : get_curve toolkit (set_curve toolkit curve fan_frame) ≡ curve
get_curve-set_curve_example =
    get_curve-set_curve toolkit exact curve fan_frame (tt, ((refl, tt), ((refl, (refl, tt)), tt)))
      (
        (omega arith, omega arith, refl, refl),
        ((omega arith, omega arith, refl, refl), ((omega arith, omega arith, refl, refl), tt)),
      )
