-- ===== src/Tests/Limits.antt =====
-- The examples of amd.rs on power limits.
use lact.Prelude.{◌≡◌, refl, true, none, some}
use lact.Prelude.Exec.{msg, context, ok, err, is_ok}
use lact.Platform.Fixed.{fixed}
use lact.Amd.Level.{IsRestored, measured_calls, level_taken, apply_cap-IsRestored}
use lact.Amd.Stuck.{apply_cap_stuck}
use lact.Prelude.Io.{pure, raise, attempt, in_context, ◌>>=◌}
use lact.Amd.Card.{Card, Call, Trace, ask, write}
use lact.Amd.PowerCap.{
  apply_cap, first_hw_mon, get_usage, or_average, lower_level, lower_from, after_lowering,
  wait_until_lowest_clock_level, is_lowest, set_cap_if_changed, set_if, differs, restore_level,
}
use lact.Tests.Cards.{willing, fresh_card}

sets_cap : is_ok (apply_cap willing 150000 fresh_card).0 ≡ true
unfolding apply_cap first_hw_mon get_usage or_average lower_level lower_from after_lowering
    wait_until_lowest_clock_level is_lowest set_cap_if_changed set_if differs restore_level ask
    write pure raise attempt in_context ◌>>=◌
sets_cap = refl

apply_cap-IsRestored_example :
    IsRestored willing none
      (measured_calls willing fresh_card)
      (apply_cap willing 150000 fresh_card).1
apply_cap-IsRestored_example = apply_cap-IsRestored willing 150000 fresh_card sets_cap

-- A card that refuses the limit is left at the lowest level.
abbrev stubborn : Card fixed
stubborn = record willing {
  written = λ call t. elim call [ Call.set_power_cap c ↦ err (msg "refused") | _ ↦ ok tt ];
}

other_cap : (t : Trace fixed) → differs stubborn 150000 (stubborn.power_cap t) ≡ true
unfolding differs
other_cap t = refl

apply_cap_stuck_example :
    ((apply_cap stubborn 150000 fresh_card).0
      ≡ err (context "Failed to set power cap" (msg "refused")))
    × (level_taken stubborn (apply_cap stubborn 150000 fresh_card).1.calls ≡ some 1)
apply_cap_stuck_example =
    apply_cap_stuck stubborn 150000 250000 0 (msg "refused") fresh_card refl (λ t. refl) refl
      (λ t. refl) (λ t. refl) other_cap (λ t. refl)
