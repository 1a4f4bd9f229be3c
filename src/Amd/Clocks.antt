-- ===== src/Amd/Clocks.antt =====
-- The clocks table, the performance level and the power states in amd.rs.
use lact.Prelude.{ℕ, Bool, false, Option, none, some, List, [], ◌∷◌, if◌then◌else◌}
use lact.Prelude.Int.{ℤ}
use lact.Prelude.Exec.{Error, msg, Result, ok, err}
use lact.Prelude.Dict.{Dict}
use lact.Platform.{Platform}
use lact.Config.{ClocksConfiguration, Gpu, is_core_clocks_used}
use lact.Prelude.Io.{pure, raise, lift, attempt, in_context, ◌>>=◌, ◌>>◌}
use lact.Amd.Card.{Card, Io, Call, ask, write, stage}

module _ (P : Platform) where
  -- `Some(value)` of a setting, through the table's setter; the first error ends it.
  write_entry :
      (ℤ → P.ClocksTable → Result P.ClocksTable)
      → Option ℤ
      → Result P.ClocksTable
      → Result P.ClocksTable
  write_entry setter none table = table
  write_entry setter (some value) (ok table) = setter value table
  write_entry setter (some value) (err e) = err e

  write_offset : Option ℤ → P.ClocksTable → Result P.ClocksTable
  write_offset (some offset) table = P.overdrive.set_voltage_offset offset table
  write_offset none table = ok (P.overdrive.drop_voltage_offset table)

  prepare_table : Option ℤ → P.ClocksTable → Result P.ClocksTable
  unfolding write_offset
  prepare_table offset table =
      if P.overdrive.is_vega20 table
      then write_offset offset (
          P.overdrive.normalize_vddc_curve
            (if P.overdrive.vddc_curve_is_empty table then P.overdrive.clear table else table))
      else ok table

  -- `ClocksConfiguration::apply_to_table`
  pub apply_to_table : ClocksConfiguration → P.ClocksTable → Result P.ClocksTable
  unfolding write_entry prepare_table
  apply_to_table c table = write_entry P.overdrive.set_max_voltage c.max_voltage (
      write_entry P.overdrive.set_max_mclk c.max_memory_clock (
        write_entry P.overdrive.set_max_sclk c.max_core_clock (
          write_entry P.overdrive.set_min_voltage c.min_voltage (
            write_entry P.overdrive.set_min_mclk c.min_memory_clock (
              write_entry P.overdrive.set_min_sclk c.min_core_clock
                (prepare_table c.voltage_offset table))))))

module _ {P : Platform} (card : Card P) where
  unfoldable pub write_table : ClocksConfiguration → Io P (List P.CommitHandle)
  write_table clocks = do
    original_table ←
        in_context "Failed to get clocks table" (ask Call.get_clocks_table card.clocks_table)
    table ←
        in_context "Failed to apply clocks configuration to table"
          (lift (apply_to_table P clocks original_table))
    handle ←
        in_context "Clocks table commands"
          (in_context "Could not write clocks table" (stage card (Call.set_clocks_table table)))
    pure (handle ∷ [])

  -- The table and the level are reset first, whatever the settings; errors of that are ignored.
  unfoldable pub apply_clocks : Gpu P → Io P (List P.CommitHandle)
  apply_clocks config = do
    attempt (write card Call.reset_clocks_table)
    attempt (write card (Call.set_power_force_performance_level P.auto))
    if is_core_clocks_used P config then write_table config.clocks_configuration else pure []

  unfoldable pub apply_level : Option P.PerformanceLevel → Io P (Unit {0})
  apply_level none = pure tt
  apply_level (some level) =
      in_context "Failed to set power performance level"
        (write card (Call.set_power_force_performance_level level))

  -- `performance_level == Some(PerformanceLevel::Manual)`
  unfoldable pub is_manual : Option P.PerformanceLevel → Bool
  is_manual none = false
  is_manual (some level) = P.level_eq level P.manual

  unfoldable pub write_mode : List (List (Option ℤ)) → ℕ → Io P (Unit {0})
  write_mode [] mode_index =
      in_context "Failed to set active power profile mode"
        (write card (Call.set_active_power_profile_mode mode_index))
  write_mode (h ∷ hs) mode_index =
      in_context "Failed to set custom power profile mode heuristics"
        (write card (Call.set_custom_power_profile_mode_heuristics (h ∷ hs)))

  abbrev pub modes_need_manual : Error
  modes_need_manual = msg "Performance level has to be set to `manual` to use power profile modes"

  unfoldable pub apply_mode :
      Option ℕ → Option P.PerformanceLevel → List (List (Option ℤ)) → Io P (Unit {0})
  apply_mode none level heuristics = pure tt
  apply_mode (some mode_index) level heuristics =
      if is_manual level then write_mode heuristics mode_index else raise modes_need_manual

  abbrev pub states_need_manual : Error
  states_need_manual = msg "Performance level has to be set to `manual` to configure power states"

  -- The loop over `power_states`, with the guard in every round.
  unfoldable pub apply_states :
      Dict P.PowerLevelKind (List ℕ) → Option P.PerformanceLevel → Io P (Unit {0})
  apply_states [] level = pure tt
  apply_states ((kind, states) ∷ rest) level = do
    if is_manual level
        then in_context "Could not set power states"
            (write card (Call.set_enabled_power_levels kind states))
        else raise states_need_manual
    apply_states rest level
