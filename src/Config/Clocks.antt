-- ===== src/Config/Clocks.antt =====
-- The clocks commands of config.rs.
use lact.Prelude.{◌≡◌, refl, Bool, true, false, not, List, [], ◌∷◌, ◌++◌, arith, ◌↔◌}
use lact.Platform.{Platform}
use lact.Schema.{SetClocksCommand}
use lact.Config.{default_clocks, Gpu, is_core_clocks_used, apply_clocks_command}

abbrev pub is_reset : SetClocksCommand → Bool
is_reset SetClocksCommand.reset = true
is_reset _ = false

module _ (P : Platform) where
  -- `is_core_clocks_used` is false exactly if the clocks configuration is the default one.
  pub is_core_clocks_used_iff :
      (gpu : Gpu P)
      → (is_core_clocks_used P gpu ≡ false) ↔ (gpu.clocks_configuration ≡ default_clocks)
  unfolding is_core_clocks_used
  is_core_clocks_used_iff gpu = ground arith

  -- After a command the clocks count as used, except after a reset, where they do not.
  pub is_core_clocks_used-apply :
      (gpu : Gpu P) (command : SetClocksCommand)
      → is_core_clocks_used P (apply_clocks_command P gpu command) ≡ not (is_reset command)
  unfolding is_core_clocks_used apply_clocks_command
  is_core_clocks_used-apply gpu (SetClocksCommand.max_core_clock clock) = ground arith
  is_core_clocks_used-apply gpu _ = ground arith

  -- A batch is applied from left to right.
  pub apply_commands : Gpu P → List SetClocksCommand → Gpu P
  apply_commands gpu [] = gpu
  apply_commands gpu (c ∷ cs) = apply_commands (apply_clocks_command P gpu c) cs

  -- What stands before a reset in a batch has no effect, and nothing but the clocks is touched.
  pub apply_commands-reset :
      (gpu : Gpu P) (before after : List SetClocksCommand)
      → apply_commands gpu (before ++ SetClocksCommand.reset ∷ after)
        ≡ apply_commands (record gpu { clocks_configuration = default_clocks }) after
  unfolding apply_commands apply_clocks_command
  apply_commands-reset gpu [] after = refl
  apply_commands-reset gpu (c ∷ before) after =
      apply_commands-reset (apply_clocks_command P gpu c) before after
