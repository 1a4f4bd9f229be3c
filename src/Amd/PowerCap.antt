-- ===== src/Amd/PowerCap.antt =====
-- The power limit, the first part of `apply_config` in amd.rs.
use lact.Prelude.{ℕ, zero, suc, Bool, true, false, not, Option, none, some, ◌==◌, if◌then◌else◌}
use lact.Prelude.Exec.{msg, Result, ok, err}
use lact.Platform.{Platform}
use lact.Prelude.Io.{pure, raise, attempt, in_context, ◌>>=◌, ◌>>◌}
use lact.Amd.Card.{Card, Io, Call, ask, write}

module _ {P : Platform} (card : Card P) where
  unfoldable pub first_hw_mon : Io P (Unit {0})
  first_hw_mon = if card.has_hw_mon then pure tt else raise (msg "GPU has no hardware monitor")

  unfoldable pub or_average : Result P.F64 → Io P P.F64
  or_average (ok usage) = pure usage
  or_average (err e) = ask Call.get_power_average card.power_average

  -- `get_power_input().or_else(get_power_average)`
  unfoldable pub get_usage : Io P P.F64
  get_usage = do input ← attempt (ask Call.get_power_input card.power_input); or_average input

  -- `active == Some(0)`, or an error, ends the wait.
  unfoldable pub is_lowest : Result (Option ℕ) → Bool
  is_lowest (err e) = true
  is_lowest (ok none) = false
  is_lowest (ok (some level)) = level == 0

  -- The time-out ends the wait after `fuel` rounds.
  unfoldable pub wait_until_lowest_clock_level : ℕ → Io P (Unit {0})
  wait_until_lowest_clock_level zero = pure tt
  wait_until_lowest_clock_level (suc fuel) = do
    levels ← attempt (ask Call.get_core_clock_levels card.active_level)
    if is_lowest levels then pure tt else wait_until_lowest_clock_level fuel

  -- The rounds of 250 ms that fit into GPU_CLOCKDOWN_TIMEOUT_SECS.
  abbrev pub clockdown_rounds : ℕ
  clockdown_rounds = 12

  unfoldable pub after_lowering :
      P.PerformanceLevel → Result (Unit {0}) → Io P (Option P.PerformanceLevel)
  after_lowering level (ok _) = do wait_until_lowest_clock_level clockdown_rounds; pure (some level)
  after_lowering level (err e) = pure none

  unfoldable pub lower_from : Result P.PerformanceLevel → Io P (Option P.PerformanceLevel)
  lower_from (ok level) = do
    lowered ← attempt (write card (Call.set_power_force_performance_level P.low))
    after_lowering level lowered
  lower_from (err e) = pure none

  -- Forces the lowest level, and returns the level that was set before.
  unfoldable pub lower_level : Io P (Option P.PerformanceLevel)
  lower_level = do
    level ← attempt (ask Call.get_power_force_performance_level card.performance_level)
    lower_from level

  -- `Ok(cap) != hw_mon.get_power_cap()`
  unfoldable pub differs : P.F64 → Result P.F64 → Bool
  differs cap (ok current) = not (P.f64.eq cap current)
  differs cap (err e) = true

  unfoldable pub set_if : Bool → P.F64 → Io P (Unit {0})
  set_if true cap = write card (Call.set_power_cap cap)
  set_if false cap = pure tt

  unfoldable pub set_cap_if_changed : P.F64 → Io P (Unit {0})
  set_cap_if_changed cap = do
    current ← attempt (ask Call.get_power_cap card.power_cap)
    set_if (differs cap current) cap

  unfoldable pub restore_level : Option P.PerformanceLevel → Io P (Unit {0})
  restore_level none = pure tt
  restore_level (some level) =
      in_context "Could not reapply original performance level"
        (write card (Call.set_power_force_performance_level level))

  unfoldable pub apply_cap : P.F64 → Io P (Unit {0})
  apply_cap cap = do
    first_hw_mon
    current_usage ← in_context "Could not get current power usage" get_usage
    original ← if P.f64.lt cap current_usage then lower_level else pure none
    in_context "Failed to set power cap" (set_cap_if_changed cap)
    restore_level original

  unfoldable pub reset_cap_to : Result P.F64 → Io P (Unit {0})
  reset_cap_to (ok default_cap) =
      in_context "Failed to set power cap to default cap" (set_cap_if_changed default_cap)
  reset_cap_to (err e) = pure tt

  unfoldable pub reset_cap : Io P (Unit {0})
  reset_cap =
      if card.has_hw_mon
      then (attempt (ask Call.get_power_cap_default card.power_cap_default) >>= reset_cap_to)
      else pure tt

  unfoldable pub apply_power_cap : Option P.F64 → Io P (Unit {0})
  apply_power_cap (some limit) = apply_cap limit
  apply_power_cap none = reset_cap
