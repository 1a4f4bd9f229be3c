-- ===== src/Amd/Level.antt =====
-- The performance level around a new power limit, in amd.rs.
use lact.Prelude.{
  ◌≡◌, refl, sym, ap, subst, ◌∙◌, Bool, true, false, Option, none, some, [], ◌∷◌, ◌⊎◌, inl, inr,
  if◌then◌else◌, arith,
}
use lact.Prelude.Exec.{Result, Result-cases, ok, err, is_ok}
use lact.Platform.{Platform}
use lact.Prelude.Io.{
  Upholds, Upholds-in_context, upholds_rules, pure, attempt, in_context, ◌>>=◌, bind_ok,
}
use lact.Amd.Card.{Card, Amd, Call, Trace, ask, write}
use lact.Amd.PowerCap.{
  first_hw_mon, get_usage, or_average, wait_until_lowest_clock_level, lower_level, lower_from,
  after_lowering, set_if, set_cap_if_changed, restore_level, apply_cap,
}

module _ {P : Platform} where
  abbrev pub level_of : Call P → Option P.PerformanceLevel
  level_of (Call.set_power_force_performance_level level) = some level
  level_of _ = none

module _ {P : Platform} (card : Card P) where
  abbrev pub newer :
      Option P.PerformanceLevel → Bool → Option P.PerformanceLevel → Option P.PerformanceLevel
  newer none taken older = older
  newer (some level) taken older = if taken then some level else older

  -- The performance level that the card took last.
  abbrev pub level_taken : Trace P → Option P.PerformanceLevel
  level_taken [] = none
  level_taken (call ∷ t) = newer (level_of call) (is_ok (card.written call t)) (level_taken t)

  module _ (base : Option P.PerformanceLevel) where
    abbrev Has : Amd P → Type 0
    Has s = level_taken s.calls ≡ base

    Upholds-ask :
        {A : Type 0} (call : Call P) (answer : Trace P → Result A)
        → level_of call ≡ none
        → Upholds Has (ask call answer)
    unfolding ask
    Upholds-ask call answer p = record { after = λ s h. rw (p, newer) h }

    Upholds-write : (call : Call P) → level_of call ≡ none → Upholds Has (write card call)
    unfolding write ask
    Upholds-write call p = record { after = λ s h. rw (p, newer) h }

    ruleset level_rules = (upholds_rules, refl, Upholds-ask, Upholds-write)

    Upholds-hw_mon : Upholds Has (first_hw_mon card)
    unfolding first_hw_mon
    Upholds-hw_mon = search level_rules

    Upholds-or_average : (r : Result P.F64) → Upholds Has (or_average card r)
    unfolding or_average
    Upholds-or_average (ok u) = search level_rules
    Upholds-or_average (err e) = search level_rules

    Upholds-usage : Upholds Has (get_usage card)
    unfolding get_usage
    Upholds-usage = search (level_rules, Upholds-or_average)

    Upholds-set_if : (b : Bool) (c : P.F64) → Upholds Has (set_if card b c)
    unfolding set_if
    Upholds-set_if true c = search level_rules
    Upholds-set_if false c = search level_rules

    Upholds-set_cap : (c : P.F64) → Upholds Has (set_cap_if_changed card c)
    unfolding set_cap_if_changed
    Upholds-set_cap c = search (level_rules, Upholds-set_if) depth 9

  -- The level to restore was read first of all; without one the card's level is as it was.
  WasRead : Amd P → Option P.PerformanceLevel → Amd P → Type 0
  WasRead s none s' = level_taken s'.calls ≡ level_taken s.calls
  WasRead s (some level) s' = card.performance_level s.calls ≡ ok level

  none_read :
      (s s' : Amd P) (o : Option P.PerformanceLevel) (r : Result (Option P.PerformanceLevel))
      → level_taken s'.calls ≡ level_taken s.calls
      → r ≡ ok none
      → r ≡ ok o
      → WasRead s o s'
  unfolding WasRead
  none_read s s' none r same e p = same
  none_read s s' (some level) r same e p = absurd (ground arith)

  some_read :
      (s s' : Amd P) (o : Option P.PerformanceLevel) (level : P.PerformanceLevel)
      (r : Result (Option P.PerformanceLevel))
      → card.performance_level s.calls ≡ ok level
      → r ≡ ok (some level)
      → r ≡ ok o
      → WasRead s o s'
  unfolding WasRead
  some_read s s' none level r read e p = absurd (ground arith)
  some_read s s' (some other) level r read e p = ground arith

  after_lowering_lem :
      (w : Result (Unit {0})) (level : P.PerformanceLevel) (s s' : Amd P)
      (o : Option P.PerformanceLevel)
      → card.performance_level s.calls ≡ ok level
      → (is_ok w ≡ false → level_taken s'.calls ≡ level_taken s.calls)
      → (after_lowering card level w s').0 ≡ ok o
      → WasRead s o (after_lowering card level w s').1
  unfolding after_lowering pure
  after_lowering_lem (err e) level s s' o read kept p = none_read s _ o _ (kept refl) refl p
  after_lowering_lem (ok u) level s s' o read kept p =
      let (v, (waited, q)) =
        bind_ok (wait_until_lowest_clock_level card 12) (λ _. pure (some level)) s' (ap is_ok p) in
      some_read s _ o level _ read (ap (λ r. r.0) q) p

  lower_from_lem :
      (r : Result P.PerformanceLevel) (s s' : Amd P) (o : Option P.PerformanceLevel)
      → card.performance_level s.calls ≡ r
      → level_taken s'.calls ≡ level_taken s.calls
      → (lower_from card r s').0 ≡ ok o
      → WasRead s o (lower_from card r s').1
  unfolding lower_from after_lowering pure write ask attempt ◌>>=◌
  lower_from_lem (err e) s s' o read same p = none_read s s' o _ same refl p
  lower_from_lem (ok level) s s' o read same p =
      after_lowering_lem (card.written (Call.set_power_force_performance_level P.low) s'.calls)
        level s (record s' { calls = Call.set_power_force_performance_level P.low ∷ s'.calls }) o
        read (λ n. rw n same) p

  lower_level_lem :
      (s : Amd P) (o : Option P.PerformanceLevel)
      → (lower_level card s).0 ≡ ok o
      → WasRead s o (lower_level card s).1
  unfolding lower_level attempt ask ◌>>=◌
  lower_level_lem s o p =
      lower_from_lem (card.performance_level s.calls) s
        (record s { calls = Call.get_power_force_performance_level ∷ s.calls }) o refl refl p

  -- From the level `base`, with `read` the calls before the level was read: the level that the card
  -- took last is still `base`, or the one that the card reported then, when `base` was the level.
  abbrev pub IsRestored : Option P.PerformanceLevel → Trace P → Amd P → Type 0
  IsRestored base read s =
      (level_taken s.calls ≡ base)
      ⊎ ((level : P.PerformanceLevel) × (card.performance_level read ≡ ok level)
          × (level_taken read ≡ base)
          × (level_taken s.calls ≡ some level))

  -- The level after `restore_level`, where that succeeds.
  restore_level_lem :
      (s s' : Amd P) (o : Option P.PerformanceLevel)
      → WasRead s o s'
      → is_ok (restore_level card o s').0 ≡ true
      → IsRestored (level_taken s.calls) s.calls (restore_level card o s').1
  unfolding restore_level in_context write ask WasRead pure
  restore_level_lem s s' none same p = inl same
  restore_level_lem s s' (some level) read p =
      elim (Result-cases (card.written (Call.set_power_force_performance_level level) s'.calls)) [
        | inl (u, e) ↦ inr (level, read, refl, rw e refl)
        | inr (er, e) ↦ absurd (ground arith)
      ]

  lower_if_lem :
      (b : Bool) (s : Amd P) (o : Option P.PerformanceLevel)
      → ((if b then lower_level card else pure none) s).0 ≡ ok o
      → WasRead s o ((if b then lower_level card else pure none) s).1
  unfolding pure
  lower_if_lem true s o p = lower_level_lem s o p
  lower_if_lem false s o p = none_read s s o _ refl refl p

  WasRead-later :
      (s s' s'' : Amd P) (o : Option P.PerformanceLevel)
      → level_taken s''.calls ≡ level_taken s'.calls
      → WasRead s o s'
      → WasRead s o s''
  unfolding WasRead
  WasRead-later s s' s'' none same read = same ∙ read
  WasRead-later s s' s'' (some level) same read = read

  goes_on : {A : Type 0} {r r' : Result A × Amd P} → r ≡ r' → is_ok r.0 ≡ true → is_ok r'.0 ≡ true
  goes_on q p = subst (λ x. is_ok x.0 ≡ true) q p

  rebase :
      (base base' : Option P.PerformanceLevel) (t : Trace P) (s : Amd P)
      → base ≡ base'
      → IsRestored base t s
      → IsRestored base' t s
  rebase base base' t s same r = subst (λ b. IsRestored b t s) same r

  -- The calls that `apply_cap` has made when it has measured the usage.
  abbrev pub measured_calls : Amd P → Trace P
  measured_calls s =
      let measure = in_context "Could not get current power usage" (get_usage card) in
      (measure (first_hw_mon card s).1).1.calls

  -- Where setting a power limit succeeds, the performance level that the card took last is the one
  -- before, or the one that the card reported once the usage was measured, when it had taken no
  -- other level yet: it is not left at the lowest level that is forced meanwhile, unless that was
  -- reported then.
  pub apply_cap-IsRestored :
      (limit : P.F64) (s : Amd P)
      → is_ok (apply_cap card limit s).0 ≡ true
      → IsRestored (level_taken s.calls) (measured_calls s) (apply_cap card limit s).1
  unfolding apply_cap
  apply_cap-IsRestored limit s p0 =
      let base = level_taken s.calls in
      let measure = in_context "Could not get current power usage" (get_usage card) in
      let change = in_context "Failed to set power cap" (set_cap_if_changed card limit) in
      let (u1, (e1, q1)) = bind_ok (first_hw_mon card) _ s p0 in
      let s1 : Amd P = (first_hw_mon card s).1 in
      let p1 = goes_on q1 p0 in
      let (usage, (e2, q2)) = bind_ok measure _ s1 p1 in
      let s2 : Amd P = (measure s1).1 in
      let p2 = goes_on q2 p1 in
      let lower = if P.f64.lt limit usage then lower_level card else pure none in
      let (o, (e3, q3)) = bind_ok lower _ s2 p2 in
      let s3 : Amd P = (lower s2).1 in
      let p3 = goes_on q3 p2 in
      let (u4, (e4, q4)) = bind_ok change _ s3 p3 in
      let s4 : Amd P = (change s3).1 in
      let measured =
        (Upholds-in_context _ _ (Upholds-usage base)).after s1
          ((Upholds-hw_mon base).after s refl) in
      let changed =
        (Upholds-in_context _ _ (Upholds-set_cap (level_taken s3.calls) limit)).after s3 refl in
      let read = WasRead-later s2 s3 s4 o changed (lower_if_lem (P.f64.lt limit usage) s2 o e3) in
      subst (λ r. IsRestored base s2.calls r.1) (sym (q1 ∙ q2 ∙ q3 ∙ q4))
        (rebase (level_taken s2.calls) base s2.calls (restore_level card o s4).1 measured
          (restore_level_lem s2 s4 o read (goes_on q4 p3)))
