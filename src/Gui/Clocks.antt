-- ===== src/Gui/Clocks.antt =====
-- pages/oc_page/clocks_frame.rs with its rows: the sliders of the clocks, and the commands for those
-- that were moved.
pub mod Moves
use lact.Prelude.{Bool, true, false, Option, none, some, List, [], ◌∷◌, ◌++◌, if◌then◌else◌}
use lact.Prelude.Int.{ℤ, pos, negsuc, ◌+ℤ◌}
use lact.Platform.{Platform}
use lact.Curve.{wrap_i32}
use lact.Schema.{SetClocksCommand}
use lact.Nvidia.Report.{NvidiaClockInfo, NvidiaClocksTable}
use lact.Gui.Toolkit.{Range, Toolkit}
use lact.Gui.Adjustment.{
  OcAdjustment, set_value, set_lower, set_upper, set_initial_value, get_changed_value,
}

-- `AdjustmentRow`
pub record AdjustmentRow (P : Platform) : Type 0 where
  pub adjustment : OcAdjustment P
  pub visible : Bool
  pub value_ratio : P.F64

pub data Row : Type 0 where
  min_sclk min_mclk min_voltage max_sclk max_mclk max_voltage voltage_offset : Row

abbrev pub same_row : Row → Row → Bool
same_row min_sclk min_sclk = true
same_row min_mclk min_mclk = true
same_row min_voltage min_voltage = true
same_row max_sclk max_sclk = true
same_row max_mclk max_mclk = true
same_row max_voltage max_voltage = true
same_row voltage_offset voltage_offset = true
same_row _ _ = false

-- `ClocksFrame`
pub record ClocksFrame (P : Platform) : Type 0 where
  pub rows : Row → AdjustmentRow P
  pub tweaking_grid : Bool
  pub min_values_grid : Bool

-- `ClocksTable`
pub data ClocksTable (P : Platform) : Type 0 where
  amd : P.ClocksTable → ClocksTable P
  nvidia : NvidiaClocksTable → ClocksTable P

abbrev pub to_full : Option Range → Option (ℤ × ℤ)
to_full none = none
to_full (some range) = elim range.min [
  | none ↦ none
  | some min ↦ elim range.max [ none ↦ none | some max ↦ some (min, max) ]
]

abbrev pub zip : Option ℤ → Option (ℤ × ℤ) → Option (ℤ × ℤ × ℤ)
zip none range = none
zip (some value) none = none
zip (some value) (some (min, max)) = some (value, min, max)

-- `extract_value_and_range_amd`
abbrev pub extract_value_and_range_amd : Option ℤ → Option Range → Option (ℤ × ℤ × ℤ)
extract_value_and_range_amd value range = zip value (to_full range)

abbrev pub command_of : Row → ℤ → SetClocksCommand
command_of min_sclk = SetClocksCommand.min_core_clock
command_of min_mclk = SetClocksCommand.min_memory_clock
command_of min_voltage = SetClocksCommand.min_voltage
command_of max_sclk = SetClocksCommand.max_core_clock
command_of max_mclk = SetClocksCommand.max_memory_clock
command_of max_voltage = SetClocksCommand.max_voltage
command_of voltage_offset = SetClocksCommand.voltage_offset

-- `DEFAULT_VOLTAGE_OFFSET_RANGE`
abbrev pub offset_range : Option (ℤ × ℤ) → ℤ × ℤ
offset_range none = (negsuc 249, pos 250)
offset_range (some range) = range

-- The sums are in `i32`.
abbrev pub nvidia_range : NvidiaClockInfo → ℤ × ℤ × ℤ
nvidia_range info = (
  wrap_i32 (info.max +ℤ info.offset),
  wrap_i32 (info.max +ℤ info.offset_range.0),
  wrap_i32 (info.max +ℤ info.offset_range.1),
)

abbrev pub add_command : Row → Option ℤ → List SetClocksCommand → List SetClocksCommand
add_command row none commands = commands
add_command row (some value) commands = command_of row value ∷ commands

abbrev pub six_rows : List Row
six_rows = min_sclk ∷ min_mclk ∷ min_voltage ∷ max_sclk ∷ max_mclk ∷ max_voltage ∷ []

module _ {P : Platform} where
  abbrev pub at_row : Row → (AdjustmentRow P → AdjustmentRow P) → ClocksFrame P → ClocksFrame P
  at_row row f frame = record frame {
    rows = λ other. if same_row row other then f (frame.rows other) else frame.rows other;
  }

  abbrev pub every_row : (AdjustmentRow P → AdjustmentRow P) → ClocksFrame P → ClocksFrame P
  every_row f frame = record frame { rows = λ row. f (frame.rows row) }

  -- `AdjustmentRow::get_value` and `AdjustmentRow::refresh`.
  unfoldable pub get_value : AdjustmentRow P → Option ℤ
  unfolding get_changed_value
  get_value row = elim (get_changed_value false row.adjustment) [
    | none ↦ none
    | some value ↦ some (P.f64.to_i32 value)
  ]

  abbrev pub refresh : AdjustmentRow P → AdjustmentRow P
  refresh row = record row { adjustment = record row.adjustment { changed = false } }

  abbrev pub set_visible : Bool → AdjustmentRow P → AdjustmentRow P
  set_visible visible row = record row { visible = visible }

  -- The limits first, then the value, by `set_initial_value` for the minimum clocks.
  abbrev pub shown :
      (P.F64 → OcAdjustment P → OcAdjustment P) → ℤ × ℤ × ℤ → AdjustmentRow P → AdjustmentRow P
  shown set (value, min, max) row = record row {
    adjustment =
        set (P.f64.of_int value)
          (set_upper (P.f64.of_int max) (set_lower (P.f64.of_int min) row.adjustment));
    visible = true;
  }

  abbrev pub show_row :
      Row
      → (P.F64 → OcAdjustment P → OcAdjustment P)
      → Option (ℤ × ℤ × ℤ)
      → ClocksFrame P
      → ClocksFrame P
  show_row row set none frame = frame
  show_row row set (some range) frame = at_row row (shown set range) frame

  unfoldable pub set_amd_table : Toolkit P → P.ClocksTable → ClocksFrame P → ClocksFrame P
  unfolding set_value set_initial_value
  set_amd_table tk table frame =
      let amd = tk.amd in
      let f1 : ClocksFrame P =
        show_row min_sclk (set_initial_value tk)
          (extract_value_and_range_amd (amd.current_sclk_min table) (amd.min_sclk_range table))
          frame in
      let f2 : ClocksFrame P =
        show_row min_mclk (set_initial_value tk)
          (extract_value_and_range_amd (amd.current_mclk_min table) (amd.min_mclk_range table))
          f1 in
      let f3 : ClocksFrame P =
        show_row min_voltage (set_value tk)
          (extract_value_and_range_amd (amd.current_voltage_min table)
            (amd.min_voltage_range table))
          f2 in
      let f4 : ClocksFrame P =
        show_row max_sclk (set_value tk)
          (extract_value_and_range_amd (amd.max_sclk table) (amd.max_sclk_range table)) f3 in
      let f5 : ClocksFrame P =
        show_row max_mclk (set_value tk)
          (extract_value_and_range_amd (amd.max_mclk table) (amd.max_mclk_range table)) f4 in
      let f6 : ClocksFrame P =
        show_row max_voltage (set_value tk)
          (extract_value_and_range_amd (amd.max_sclk_voltage table) (amd.max_voltage_range table))
          f5 in
      show_row voltage_offset (set_value tk)
        (zip (amd.voltage_offset table)
          (some (offset_range (to_full (amd.voltage_offset_range table)))))
        f6

  abbrev pub set_nvidia_clock_offset :
      Toolkit P → Row → Option NvidiaClockInfo → ClocksFrame P → ClocksFrame P
  set_nvidia_clock_offset tk row none frame = frame
  set_nvidia_clock_offset tk row (some info) frame =
      at_row row (shown (set_value tk) (nvidia_range info)) frame

  unfoldable pub set_nvidia_table : Toolkit P → NvidiaClocksTable → ClocksFrame P → ClocksFrame P
  unfolding set_value wrap_i32
  set_nvidia_table tk table frame =
      set_nvidia_clock_offset tk max_mclk table.mem
        (set_nvidia_clock_offset tk max_sclk table.gpc frame)

  abbrev pub fill : Toolkit P → ClocksTable P → ClocksFrame P → ClocksFrame P
  fill tk (ClocksTable.amd table) frame = set_amd_table tk table frame
  fill tk (ClocksTable.nvidia table) frame = set_nvidia_table tk table frame

  unfoldable pub set_table : Toolkit P → ClocksTable P → ClocksFrame P → ClocksFrame P
  unfolding set_amd_table set_nvidia_table
  set_table tk table frame = every_row refresh (fill tk table (every_row (set_visible false) frame))

  -- `show` and `hide`, and `OcPage::set_clocks_table`.
  unfoldable pub set_clocks_table :
      Toolkit P → Option (ClocksTable P) → ClocksFrame P → ClocksFrame P
  unfolding set_table
  set_clocks_table tk none frame = record frame { tweaking_grid = false }
  set_clocks_table tk (some table) frame = record (set_table tk table frame) {
    tweaking_grid = true;
  }

  unfoldable pub set_vram_clock_ratio : P.F64 → ClocksFrame P → ClocksFrame P
  set_vram_clock_ratio ratio frame =
      at_row max_mclk (λ row. record row { value_ratio = ratio })
        (at_row min_mclk (λ row. record row { value_ratio = ratio }) frame)

  unfoldable pub commands_of : List Row → ClocksFrame P → List SetClocksCommand
  unfolding get_value
  commands_of [] frame = []
  commands_of (row ∷ rows) frame =
      let rest = commands_of rows frame in add_command row (get_value (frame.rows row)) rest

  unfoldable pub get_commands : ClocksFrame P → List SetClocksCommand
  unfolding commands_of get_value
  get_commands frame =
      let offset =
        if (frame.rows voltage_offset).visible
        then add_command voltage_offset (get_value (frame.rows voltage_offset)) []
        else [] in
      if frame.tweaking_grid then commands_of six_rows frame ++ offset else []

  -- The user moves a slider.
  abbrev pub move : Toolkit P → Row → P.F64 → ClocksFrame P → ClocksFrame P
  move tk row v = at_row row (λ r. record r { adjustment = set_value tk v r.adjustment })
