-- ===== src/Gui/Clocks/Moves.antt =====
-- The commands are those of the sliders that the user moved.
use lact.Prelude.{
  ◌≡◌, refl, ◌∙◌, ◌++◌, if◌then◌else◌, Bool, true, false, Option, none, some, List, [], ◌∷◌, arith,
  inl, inr, Bool-cases,
}
use lact.Prelude.Int.{ℤ}
use lact.Platform.{Platform}
use lact.Schema.{SetClocksCommand}
use lact.Gui.Toolkit.{Toolkit}
use lact.Gui.Adjustment.{limited, set_value, get_changed_value}
use lact.Gui.Clocks.{
  Row, min_sclk, min_mclk, min_voltage, max_sclk, max_mclk, max_voltage, voltage_offset,
  AdjustmentRow, ClocksFrame, ClocksTable, command_of, add_command, same_row, set_table,
  set_clocks_table, get_value, commands_of, get_commands, move,
}

-- The commands for the values of the rows, with the row of the offset shown or not.
abbrev collected : (Row → Option ℤ) → Bool → List SetClocksCommand
collected value offset_visible =
    add_command min_sclk (value min_sclk) (
      add_command min_mclk (value min_mclk) (
        add_command min_voltage (value min_voltage) (
          add_command max_sclk (value max_sclk) (
            add_command max_mclk (value max_mclk)
              (add_command max_voltage (value max_voltage) [])))))
    ++ (if offset_visible then add_command voltage_offset (value voltage_offset) [] else [])

collected-none : (offset_visible : Bool) → collected (λ row. none) offset_visible ≡ []
collected-none true = refl
collected-none false = refl

module _ {P : Platform} where
  abbrev IsUntouched : ClocksFrame P → Type 0
  IsUntouched frame = (row : Row) → (frame.rows row).adjustment.changed ≡ false

  no_value :
      (frame : ClocksFrame P) → IsUntouched frame → (row : Row) → get_value (frame.rows row) ≡ none
  unfolding get_value get_changed_value
  no_value frame still row = rw (still row, get_changed_value) refl

  module _ (tk : Toolkit P) (frame : ClocksFrame P) where
    set_clocks_table-IsUntouched :
        (table : ClocksTable P) → IsUntouched (set_clocks_table tk (some table) frame)
    unfolding set_clocks_table set_table
    set_clocks_table-IsUntouched table row = refl

    grid_shown :
        (table : ClocksTable P) → (set_clocks_table tk (some table) frame).tweaking_grid ≡ true
    unfolding set_clocks_table
    grid_shown table = refl

  abbrev moved : Toolkit P → P.F64 → AdjustmentRow P → AdjustmentRow P
  moved tk v row = record row { adjustment = set_value tk v row.adjustment }

  moved_value :
      (tk : Toolkit P) (row : AdjustmentRow P) (v : P.F64)
      → P.f64.eq (limited tk row.adjustment v) row.adjustment.value ≡ false
      → get_value (moved tk v row) ≡ some (P.f64.to_i32 (limited tk row.adjustment v))
  unfolding get_value get_changed_value set_value
  moved_value tk row v other = elim (Bool-cases row.adjustment.changed) [
    | inl c ↦ simp (c, other)
    | inr c ↦ simp (c, other)
  ]

  commands_from :
      (frame : ClocksFrame P) (value : Row → Option ℤ)
      → frame.tweaking_grid ≡ true
      → ((row : Row) → get_value (frame.rows row) ≡ value row)
      → get_commands frame ≡ collected value (frame.rows voltage_offset).visible
  unfolding get_commands commands_of
  commands_from frame value grid e =
      rw
        (
          grid,
          e min_sclk,
          e min_mclk,
          e min_voltage,
          e max_sclk,
          e max_mclk,
          e max_voltage,
          e voltage_offset,
        )
        refl

  if_moved :
      (tk : Toolkit P) (moves : Bool) (row : AdjustmentRow P) (v : P.F64)
      → get_value row ≡ none
      → get_value (if moves then moved tk v row else row)
        ≡ (if moves then get_value (moved tk v row) else none)
  if_moved tk true row v e = refl
  if_moved tk false row v e = e

  module _ (tk : Toolkit P) (frame : ClocksFrame P) (still : IsUntouched frame)
      (grid : frame.tweaking_grid ≡ true) (v : P.F64) where
    abbrev values : Row → Row → Option ℤ
    values row other =
        if same_row row other then get_value (moved tk v (frame.rows other)) else none

    collected_after :
        (row : Row)
        → get_commands (move tk row v frame)
          ≡ collected (values row) ((move tk row v frame).rows voltage_offset).visible
    collected_after row =
        commands_from (move tk row v frame) (values row) grid λ other.
          if_moved tk (same_row row other) (frame.rows other) v (no_value frame still other)

    commands_moved :
        (row : Row)
        → (frame.rows row).visible ≡ true
        → P.f64.eq (limited tk (frame.rows row).adjustment v) (frame.rows row).adjustment.value
          ≡ false
        → get_commands (move tk row v frame)
          ≡ command_of row (P.f64.to_i32 (limited tk (frame.rows row).adjustment v)) ∷ []
    commands_moved min_sclk seen other =
        collected_after min_sclk ∙ ground (arith, moved_value tk (frame.rows min_sclk) v other)
    commands_moved min_mclk seen other =
        collected_after min_mclk ∙ ground (arith, moved_value tk (frame.rows min_mclk) v other)
    commands_moved min_voltage seen other =
        collected_after min_voltage
        ∙ ground (arith, moved_value tk (frame.rows min_voltage) v other)
    commands_moved max_sclk seen other =
        collected_after max_sclk ∙ ground (arith, moved_value tk (frame.rows max_sclk) v other)
    commands_moved max_mclk seen other =
        collected_after max_mclk ∙ ground (arith, moved_value tk (frame.rows max_mclk) v other)
    commands_moved max_voltage seen other =
        collected_after max_voltage
        ∙ ground (arith, moved_value tk (frame.rows max_voltage) v other)
    commands_moved voltage_offset seen other =
        collected_after voltage_offset
        ∙ ground (arith, moved_value tk (frame.rows voltage_offset) v other)

  -- After a clocks table is shown, there are no commands; after one slider that is shown is moved
  -- to a value that differs from its own within its limits, there is exactly the command for that
  -- slider, with the value that the limits leave.
  pub get_commands-move :
      (tk : Toolkit P) (table : ClocksTable P) (before : ClocksFrame P) (row : Row) (v : P.F64)
      → let frame = set_clocks_table tk (some table) before in
        let a = (frame.rows row).adjustment in
        (frame.rows row).visible ≡ true
        → P.f64.eq (limited tk a v) a.value ≡ false
        → (get_commands frame ≡ [])
          × (get_commands (move tk row v frame)
              ≡ command_of row (P.f64.to_i32 (limited tk a v)) ∷ [])
  get_commands-move tk table before row v visible other =
      let frame : ClocksFrame P = set_clocks_table tk (some table) before in
      let still = set_clocks_table-IsUntouched tk before table in
      let grid = grid_shown tk before table in
      (
        commands_from frame (λ row. none) grid (no_value frame still) ∙ collected-none _,
        commands_moved tk frame still grid v row visible other,
      )
