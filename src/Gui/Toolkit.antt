-- ===== src/Gui/Toolkit.antt =====
-- What the pages take from elsewhere, beside the daemon's platform: the value that an adjustment
-- takes, casts between the floats, the
-- level that only the drop-down names, and the tables of `amdgpu_sysfs` that they show.
use lact.Prelude.{ℕ, Option}
use lact.Prelude.Int.{ℤ}
use lact.Platform.{Platform}

-- `Range`, with `None` for an end that is not known.
pub record Range : Type 0 where
  pub min : Option ℤ
  pub max : Option ℤ

-- `ClocksTableGen` as `set_amd_table` reads it. `voltage_offset` is that of a Vega20 table, with the
-- range that the table gives for it.
pub record AmdTable (T : Type 0) : Type 0 where
  pub current_sclk_min : T → Option ℤ
  pub min_sclk_range : T → Option Range
  pub current_mclk_min : T → Option ℤ
  pub min_mclk_range : T → Option Range
  pub current_voltage_min : T → Option ℤ
  pub min_voltage_range : T → Option Range
  pub max_sclk : T → Option ℤ
  pub max_sclk_range : T → Option Range
  pub max_mclk : T → Option ℤ
  pub max_mclk_range : T → Option Range
  pub max_sclk_voltage : T → Option ℤ
  pub max_voltage_range : T → Option Range
  pub voltage_offset : T → Option ℤ
  pub voltage_offset_range : T → Option Range

-- `clamp value lower upper page_size` is what a `gtk::Adjustment` makes of a value that is set.
pub record Toolkit (P : Platform) : Type 0 where
  pub clamp : P.F64 → P.F64 → P.F64 → P.F64 → P.F64
  pub of_f32 : P.F32 → P.F64
  pub to_f32 : P.F64 → P.F32
  pub to_u64 : P.F64 → ℕ
  pub high : P.PerformanceLevel
  pub amd : AmdTable P.ClocksTable
