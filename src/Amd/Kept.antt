-- ===== src/Amd/Kept.antt =====
-- What every part of `configure` keeps of the calls made: one walk through amd.rs for all such facts.
use lact.Prelude.{
  ℕ, zero, suc, ◌≡◌, refl, Bool, true, false, Option, none, some, List, [], ◌∷◌, arith, Bool-cases,
  inl, inr, if◌then◌else◌,
}
use lact.Prelude.Int.{ℤ}
use lact.Prelude.Dict.{Dict}
use lact.Prelude.Exec.{Result, ok, err}
use lact.Platform.{Platform}
use lact.Curve.{FanCurve}
use lact.Config.{FanControlSettings, Gpu, ClocksConfiguration}
use lact.Prelude.Io.{
  Upholds, Upholds-bind, Upholds-if, upholds_rules, pure, raise, attempt, in_context, ◌>>=◌, ◌>>◌,
}
use lact.Amd.Card.{Card, Amd, Call, Trace, ask, write, stage}
use lact.Amd.PowerCap.{
  first_hw_mon, get_usage, or_average, wait_until_lowest_clock_level, lower_level, lower_from,
  after_lowering, differs, set_cap_if_changed, restore_level, apply_cap, reset_cap, reset_cap_to,
  apply_power_cap, set_if, is_lowest,
}
use lact.Amd.Clocks.{apply_clocks, apply_level, apply_mode, apply_states, write_table, write_mode}
use lact.Amd.Fan.{take_handle, store_handle}

module _ {P : Platform} where
  abbrev pub is_set_cap : Call P → Bool
  is_set_cap (Call.set_power_cap c) = true
  is_set_cap _ = false

  abbrev pub handle_of : Call P → Option P.CommitHandle
  handle_of (Call.commit handle) = some handle
  handle_of _ = none

-- A fact of the calls that a new limit keeps right after a differing one was read, and that every
-- other call but a commit keeps.
pub record IsKept {P : Platform} (card : Card P) (Q : Trace P → Type 0) : Type 0 where
  pub other :
      (call : Call P) (t : Trace P)
      → is_set_cap call ≡ false
      → handle_of call ≡ none
      → Q t
      → Q (call ∷ t)
  pub new_cap :
      (c : P.F64) (t : Trace P)
      → differs card c (card.power_cap t) ≡ true
      → Q t
      → Q (Call.set_power_cap c ∷ Call.get_power_cap ∷ t)

module _ {P : Platform} (card : Card P) (Q : Trace P → Type 0) (k : IsKept card Q) where
  abbrev pub On : Amd P → Type 0
  On s = Q s.calls

  pub Upholds-ask :
      {A : Type 0} (call : Call P) (answer : Trace P → Result A)
      → is_set_cap call ≡ false
      → handle_of call ≡ none
      → Upholds On (ask call answer)
  unfolding ask
  Upholds-ask call answer p q = record { after = λ s h. k.other call s.calls p q h }

  pub Upholds-write :
      (call : Call P)
      → is_set_cap call ≡ false
      → handle_of call ≡ none
      → Upholds On (write card call)
  unfolding write ask
  Upholds-write call p q = record { after = λ s h. k.other call s.calls p q h }

  pub Upholds-stage :
      (call : Call P)
      → is_set_cap call ≡ false
      → handle_of call ≡ none
      → Upholds On (stage card call)
  unfolding stage ask
  Upholds-stage call p q = record { after = λ s h. k.other call s.calls p q h }

  pub Upholds-take_handle : Upholds On (take_handle card)
  unfolding take_handle
  Upholds-take_handle = record { after = λ s h. h }

  pub Upholds-store_handle :
      (curve : FanCurve P) (settings : FanControlSettings P)
      → Upholds On (store_handle card curve settings)
  unfolding store_handle
  Upholds-store_handle curve settings = record { after = λ s h. h }

  pub ruleset call_rules = (
    upholds_rules, refl, Upholds-ask, Upholds-write, Upholds-stage, Upholds-take_handle,
    Upholds-store_handle,
  )

  Upholds-first_hw_mon : Upholds On (first_hw_mon card)
  unfolding first_hw_mon
  Upholds-first_hw_mon = search call_rules

  Upholds-or_average : (r : Result P.F64) → Upholds On (or_average card r)
  unfolding or_average
  Upholds-or_average (ok u) = search call_rules
  Upholds-or_average (err e) = search call_rules

  Upholds-get_usage : Upholds On (get_usage card)
  unfolding get_usage
  Upholds-get_usage = search (call_rules, Upholds-or_average)

  Upholds-wait : (fuel : ℕ) → Upholds On (wait_until_lowest_clock_level card fuel)
  unfolding wait_until_lowest_clock_level
  Upholds-wait zero = search call_rules
  Upholds-wait (suc fuel) =
      Upholds-bind _ _ (search call_rules)
        λ levels. Upholds-if (is_lowest card levels) _ _ (search call_rules) (Upholds-wait fuel)

  Upholds-after_lowering :
      (level : P.PerformanceLevel) (r : Result (Unit {0}))
      → Upholds On (after_lowering card level r)
  unfolding after_lowering
  Upholds-after_lowering level (ok u) = search (call_rules, Upholds-wait)
  Upholds-after_lowering level (err e) = search call_rules

  Upholds-lower_from : (r : Result P.PerformanceLevel) → Upholds On (lower_from card r)
  unfolding lower_from
  Upholds-lower_from (ok level) = search (call_rules, Upholds-after_lowering)
  Upholds-lower_from (err e) = search call_rules

  Upholds-lower_level : Upholds On (lower_level card)
  unfolding lower_level
  Upholds-lower_level = search (call_rules, Upholds-lower_from)

  -- What `set_cap_if_changed` asked for is on top when the limit is set.
  set_if_keeps :
      (b : Bool) (cap : P.F64) (s : Amd P)
      → differs card cap (card.power_cap s.calls) ≡ b
      → Q s.calls
      → Q (set_if card b cap (record s { calls = Call.get_power_cap ∷ s.calls })).1.calls
  unfolding set_if write ask pure
  set_if_keeps true cap s d h = k.new_cap cap s.calls d h
  set_if_keeps false cap s d h = k.other Call.get_power_cap s.calls refl refl h

  Upholds-set_cap_if_changed : (limit : P.F64) → Upholds On (set_cap_if_changed card limit)
  unfolding set_cap_if_changed attempt ask ◌>>=◌
  Upholds-set_cap_if_changed limit = record {
    after = λ s h. set_if_keeps (differs card limit (card.power_cap s.calls)) limit s refl h;
  }

  Upholds-restore_level : (o : Option P.PerformanceLevel) → Upholds On (restore_level card o)
  unfolding restore_level
  Upholds-restore_level none = search call_rules
  Upholds-restore_level (some level) = search call_rules

  Upholds-apply_cap : (limit : P.F64) → Upholds On (apply_cap card limit)
  unfolding apply_cap
  Upholds-apply_cap limit =
      search
        (
          call_rules, Upholds-first_hw_mon, Upholds-get_usage, Upholds-lower_level,
          Upholds-set_cap_if_changed, Upholds-restore_level,
        )
        depth 9

  Upholds-reset_cap_to : (r : Result P.F64) → Upholds On (reset_cap_to card r)
  unfolding reset_cap_to
  Upholds-reset_cap_to (ok c) = search (call_rules, Upholds-set_cap_if_changed)
  Upholds-reset_cap_to (err e) = search call_rules

  pub Upholds-apply_power_cap : (o : Option P.F64) → Upholds On (apply_power_cap card o)
  unfolding apply_power_cap reset_cap
  Upholds-apply_power_cap (some limit) = Upholds-apply_cap limit
  Upholds-apply_power_cap none = search (call_rules, Upholds-reset_cap_to)

  Upholds-write_table : (clocks : ClocksConfiguration) → Upholds On (write_table card clocks)
  unfolding write_table
  Upholds-write_table clocks = search call_rules depth 9

  pub Upholds-apply_clocks : (config : Gpu P) → Upholds On (apply_clocks card config)
  unfolding apply_clocks
  Upholds-apply_clocks config = search (call_rules, Upholds-write_table) depth 9

  pub Upholds-apply_level : (o : Option P.PerformanceLevel) → Upholds On (apply_level card o)
  unfolding apply_level
  Upholds-apply_level none = search call_rules
  Upholds-apply_level (some level) = search call_rules

  Upholds-write_mode :
      (heuristics : List (List (Option ℤ))) (index : ℕ)
      → Upholds On (write_mode card heuristics index)
  unfolding write_mode
  Upholds-write_mode [] index = search call_rules
  Upholds-write_mode (h ∷ hs) index = search call_rules

  pub Upholds-apply_mode :
      (o : Option ℕ) (level : Option P.PerformanceLevel) (heuristics : List (List (Option ℤ)))
      → Upholds On (apply_mode card o level heuristics)
  unfolding apply_mode
  Upholds-apply_mode none level heuristics = search call_rules
  Upholds-apply_mode (some index) level heuristics = search (call_rules, Upholds-write_mode)

  pub Upholds-apply_states :
      (d : Dict P.PowerLevelKind (List ℕ)) (level : Option P.PerformanceLevel)
      → Upholds On (apply_states card d level)
  unfolding apply_states
  Upholds-apply_states [] level = search call_rules
  Upholds-apply_states ((kind, states) ∷ rest) level =
      Upholds-bind _ _ (search call_rules) λ _. Upholds-apply_states rest level
