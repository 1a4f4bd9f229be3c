-- ===== src/Amd/Stuck.antt =====
-- A power limit that the card refuses, in amd.rs: what becomes of the performance level.
use lact.Prelude.{
  ℕ, zero, suc, ◌≡◌, refl, sym, ap, subst, ◌∙◌, true, false, Option, none, some, ◌∷◌, if◌then◌else◌,
}
use lact.Prelude.Exec.{Error, msg, context, Result, ok, err}
use lact.Platform.{Platform}
use lact.Prelude.Io.{pure, raise, attempt, in_context, ◌>>=◌, bind_step}
use lact.Amd.Card.{Card, Amd, Call, Trace, ask, write}
use lact.Amd.Level.{level_taken}
use lact.Amd.PowerCap.{
  first_hw_mon, get_usage, or_average, wait_until_lowest_clock_level, is_lowest, lower_level,
  lower_from, after_lowering, differs, set_if, set_cap_if_changed, apply_cap,
}

module _ {P : Platform} (card : Card P) where
  -- An action that succeeds with `a` and leaves the level `base`.
  abbrev Leaves : {A : Type 0} → A → Option P.PerformanceLevel → Result A × Amd P → Type 0
  Leaves a base (r, s) = (r ≡ ok a) × (level_taken card s.calls ≡ base)

  wait_lem :
      (fuel : ℕ) (base : Option P.PerformanceLevel) (s : Amd P)
      → level_taken card s.calls ≡ base
      → Leaves tt base (wait_until_lowest_clock_level card fuel s)
  unfolding wait_until_lowest_clock_level attempt ask pure ◌>>=◌
  wait_lem zero base s same = (refl, same)
  wait_lem (suc fuel) base s same =
      let s' : Amd P = record s { calls = Call.get_core_clock_levels ∷ s.calls } in
      let go_on = wait_until_lowest_clock_level card fuel in
      elim (is_lowest card (card.active_level s.calls))
        as (λ b. Leaves tt base ((if b then pure tt else go_on) s')) [
          | true ↦ (refl, same)
          | false ↦ wait_lem fuel base s' same
        ]

  module _ (level : P.PerformanceLevel) (read : (t : Trace P) → card.performance_level t ≡ ok level)
      (takes : (t : Trace P)
        → card.written (Call.set_power_force_performance_level P.low) t ≡ ok tt) where
    lower_level_lem : (s : Amd P) → Leaves (some level) (some P.low) (lower_level card s)
    unfolding lower_level lower_from after_lowering attempt ask write pure ◌>>=◌
    lower_level_lem s =
        let t : Trace P = Call.get_power_force_performance_level ∷ s.calls in
        let lowest = Call.set_power_force_performance_level P.low in
        let s' : Amd P = record s { calls = lowest ∷ t } in
        let (waited, left) = wait_lem 12 (some P.low) s' (rw (takes t) refl) in
        rw (read s.calls, takes t, waited) (refl, left)

  set_cap_lem :
      (limit : P.F64) (e : Error) (base : Option P.PerformanceLevel) (s : Amd P)
      → ((t : Trace P) → differs card limit (card.power_cap t) ≡ true)
      → ((t : Trace P) → card.written (Call.set_power_cap limit) t ≡ err e)
      → level_taken card s.calls ≡ base
      → ((set_cap_if_changed card limit s).0 ≡ err e)
        × (level_taken card (set_cap_if_changed card limit s).1.calls ≡ base)
  unfolding set_cap_if_changed set_if attempt ask write ◌>>=◌
  set_cap_lem limit e base s differ refuses same =
      rw (differ s.calls, refuses (Call.get_power_cap ∷ s.calls)) (refl, same)

  first_hw_mon_lem : card.has_hw_mon ≡ true → (s : Amd P) → first_hw_mon card s ≡ (ok tt, s)
  unfolding first_hw_mon pure
  first_hw_mon_lem mon s =
      ap (λ b. (if b then pure tt else raise (msg "GPU has no hardware monitor")) s) mon

  measure_lem :
      (usage : P.F64)
      → ((t : Trace P) → card.power_input t ≡ ok usage)
      → (s : Amd P)
      → in_context "Could not get current power usage" (get_usage card) s
        ≡ (ok usage, record s { calls = Call.get_power_input ∷ s.calls })
  unfolding get_usage or_average attempt ask in_context pure ◌>>=◌
  measure_lem usage draws s = rw (draws s.calls) refl

  abbrev Stuck : Error → Result (Unit {0}) × Amd P → Type 0
  Stuck e (r, s) = (r ≡ err e) × (level_taken card s.calls ≡ some P.low)

  -- Where the card draws more than the power limit, reports a performance level, takes the lowest
  -- level, has another limit than the one asked for and refuses to change it (always): setting the
  -- limit fails with the card's error, and the level that the card took last is the lowest one,
  -- whatever level it reported before.
  pub apply_cap_stuck :
      (limit usage : P.F64) (level : P.PerformanceLevel) (e : Error) (s : Amd P)
      → card.has_hw_mon ≡ true
      → ((t : Trace P) → card.power_input t ≡ ok usage)
      → P.f64.lt limit usage ≡ true
      → ((t : Trace P) → card.performance_level t ≡ ok level)
      → ((t : Trace P) → card.written (Call.set_power_force_performance_level P.low) t ≡ ok tt)
      → ((t : Trace P) → differs card limit (card.power_cap t) ≡ true)
      → ((t : Trace P) → card.written (Call.set_power_cap limit) t ≡ err e)
      → ((apply_cap card limit s).0 ≡ err (context "Failed to set power cap" e))
        × (level_taken card (apply_cap card limit s).1.calls ≡ some P.low)
  unfolding apply_cap ◌>>=◌
  apply_cap_stuck limit usage level e s mon draws over read takes differ refuses =
      let s1 : Amd P = record s { calls = Call.get_power_input ∷ s.calls } in
      let s2 : Amd P = (lower_level card s1).1 in
      let (lowered, left) = lower_level_lem level read takes s1 in
      let (failed, stays) = set_cap_lem limit e (some P.low) s2 differ refuses left in
      let measure = in_context "Could not get current power usage" (get_usage card) in
      let q =
        bind_step (first_hw_mon card) _ s tt s (first_hw_mon_lem mon s)
        ∙ bind_step measure _ s usage s1 (measure_lem usage draws s)
        ∙ bind_step (if P.f64.lt limit usage then lower_level card else pure none) _ s1 (some level)
            s2 (rw (over, lowered) refl) in
      subst (λ r. Stuck (context "Failed to set power cap" e) r) (sym q) (rw failed (refl, stays))
