-- ===== src/Nvidia/Task.antt =====
-- The task of nvidia.rs that follows a fan curve, one tick at a time.
use lact.Prelude.{
  ℕ, zero, suc, ◌≡◌, ◌≢◌, ◌↔◌, ◌∙◌, sym, subst, ap, arith, All, refl, Bool, true, Bool-cases,
  Option, none, some, List, [], ◌∷◌, inl, inr, if◌then◌else◌,
}
use lact.Prelude.Int.{ℤ, pos, negsuc, ltb_ℤ}
use lact.Platform.{Platform}
use lact.Curve.{FanCurve, Temperature, pwm_at_temp, sub_i32, wrap_i32}
use lact.Config.{FanControlSettings}
use lact.FanTask.{Status, running, ended, panicked, is_delayed, unwrap_or_0}
use lact.FanTask.Ending.{is_running}
use lact.Curve.Interpolate.{pwm_at_temp-some}
use mathlib.Core.Bool.{false≢true}

-- The variables of the loop. `writes` has the fans and the speeds in percent that were set, the newest
-- first.
pub record Loop (P : Platform) : Type 0 where
  pub last_pwm : Option (ℕ × ℕ)
  pub last_temp : ℤ
  pub status : Status
  pub writes : List (ℕ × ℕ)

-- What a tick meets: the temperature, the clock, and the fans that take a speed.
pub record Reading : Type 0 where
  pub temp : Option ℕ
  pub now : ℕ
  pub works : ℕ → Bool

module _ (P : Platform) where
  abbrev pub start : Loop P
  start = record { last_pwm = none; last_temp = pos 0; status = running; writes = [] }

  -- `(f64::from(target_pwm) / 2.5) as u32`
  unfoldable pub fan_percent : ℕ → ℕ
  fan_percent target = P.f64.to_u32 (P.f64.div (P.f64.of_int (pos target)) (P.f64.of_decimal 25 1))

  -- `i32::abs`, which wraps around at the least number.
  pub abs_i32 : ℤ → ℤ
  abs_i32 (pos n) = pos n
  abs_i32 (negsuc n) = wrap_i32 (pos (suc n))

  -- `for fan in 0..fan_count`, with `left` fans from `fan` on; an error breaks this loop only.
  unfoldable pub set_speeds : (ℕ → Bool) → ℕ → ℕ → ℕ → List (ℕ × ℕ) → List (ℕ × ℕ)
  set_speeds works zero fan speed writes = writes
  set_speeds works (suc left) fan speed writes =
      let rest = set_speeds works left (suc fan) speed ((fan, speed) ∷ writes) in
      if works fan then rest else (fan, speed) ∷ writes

  -- `(last_temp - current_temp).abs() < change_threshold`
  unfoldable pub is_unchanged : FanControlSettings P → ℤ → ℤ → Bool
  is_unchanged settings last current =
      ltb_ℤ (abs_i32 (sub_i32 last current))
        (wrap_i32 (pos (unwrap_or_0 P settings.change_threshold)))

  unfoldable pub on_target : FanControlSettings P → ℕ → Option ℕ → ℤ → Reading → Loop P → Loop P
  on_target settings fan_count none current r l = record l { status = panicked }
  on_target settings fan_count (some target) current r l =
      if is_delayed P settings l.last_pwm target r.now then l else record l {
        last_pwm = some (target, r.now);
        last_temp = current;
        writes = set_speeds r.works fan_count 0 (fan_percent target) l.writes;
      }

  unfoldable pub on_temp :
      FanCurve P → FanControlSettings P → ℕ → Option ℕ → Reading → Loop P → Loop P
  on_temp curve settings fan_count none r l = record l { status = panicked }
  on_temp curve settings fan_count (some degrees) r l =
      let current = wrap_i32 (pos degrees) in
      if is_unchanged settings l.last_temp current
      then l
      else on_target settings fan_count
          (pwm_at_temp P curve
            (record { current = some (P.f32.of_int current); crit = none; crit_hyst = none }))
          current r l

  unfoldable pub tick : FanCurve P → FanControlSettings P → ℕ → Reading → Loop P → Loop P
  tick curve settings fan_count r l = elim l.status [
    | running ↦ on_temp curve settings fan_count r.temp r l
    | ended ↦ l
    | panicked ↦ l
  ]

  unfoldable pub run : FanCurve P → FanControlSettings P → ℕ → List Reading → Loop P → Loop P
  run curve settings fan_count [] l = l
  run curve settings fan_count (r ∷ rs) l =
      run curve settings fan_count rs (tick curve settings fan_count r l)

  module _ (curve : FanCurve P) (settings : FanControlSettings P) (fan_count : ℕ) where
    on_target-status :
        (target : ℕ) (current : ℤ) (r : Reading) (l : Loop P)
        → (on_target settings fan_count (some target) current r l).status ≡ l.status
    unfolding on_target
    on_target-status target current r l =
        elim (Bool-cases (is_delayed P settings l.last_pwm target r.now)) [
          | inl e ↦ rw (e, on_target) refl
          | inr e ↦ rw (e, on_target) refl
        ]

    on_temp-status :
        (degrees : ℕ) (r : Reading) (l : Loop P)
        → curve.points ≢ []
        → (on_temp curve settings fan_count (some degrees) r l).status ≡ l.status
    unfolding on_temp
    on_temp-status degrees r l n =
        let current = wrap_i32 (pos degrees) in
        elim (Bool-cases (is_unchanged settings l.last_temp current)) [
          | inl e ↦ rw (e, on_temp) refl
          | inr e ↦
              let temp : Temperature P = record {
                current = some (P.f32.of_int current);
                crit = none;
                crit_hyst = none;
              } in
              let (pwm, q) = pwm_at_temp-some P curve temp (P.f32.of_int current) refl n in
              rw (e, on_temp) (rw q (on_target-status pwm current r l))
        ]

    tick-status :
        (t : Option ℕ) (status : Status) (r : Reading) (l : Loop P)
        → l.status ≡ running
        → r.temp ≡ t
        → (on_temp curve settings fan_count t r l).status ≡ status
        → (tick curve settings fan_count r l).status ≡ status
    unfolding tick
    tick-status t status r l e p q =
        rw (e, tick)
          (subst (λ o. (on_temp curve settings fan_count o r l).status ≡ status) (sym p) q)

    run-panicked :
        (rs : List Reading) (l : Loop P)
        → l.status ≡ panicked
        → (run curve settings fan_count rs l).status ≡ panicked
    unfolding run tick
    run-panicked [] l e = e
    run-panicked (r ∷ rs) l e = run-panicked rs (tick curve settings fan_count r l) (rw (e, tick) e)

    abbrev pub HasTemp : Reading → Type 0
    HasTemp r = (degrees : ℕ) × (r.temp ≡ some degrees)

    abbrev GoesOn : List Reading → Loop P → Type 0
    GoesOn rs l = (is_running (run curve settings fan_count rs l).status ≡ true) ↔ All HasTemp rs

    GoesOn-next :
        (t : Option ℕ) (r : Reading) (rs : List Reading) (l : Loop P)
        → curve.points ≢ []
        → l.status ≡ running
        → r.temp ≡ t
        → ((l' : Loop P) → l'.status ≡ running → GoesOn rs l')
        → GoesOn (r ∷ rs) l
    unfolding run on_temp
    GoesOn-next none r rs l n e p rest =
        let ticked : (tick curve settings fan_count r l).status ≡ panicked =
          tick-status none panicked r l e p refl in
        let stopped = ap is_running (run-panicked rs (tick curve settings fan_count r l) ticked) in
        (λ goes. absurd (false≢true (sym stopped ∙ goes)), λ all. absurd (ground arith))
    GoesOn-next (some degrees) r rs l n e p rest =
        let ticked : (tick curve settings fan_count r l).status ≡ running =
          tick-status (some degrees) running r l e p (on_temp-status degrees r l n ∙ e) in
        let (goes, back) = rest (tick curve settings fan_count r l) ticked in
        (λ g. ((degrees, p), goes g), λ all. back (all.1))

    run-GoesOn :
        (rs : List Reading) (l : Loop P) → curve.points ≢ [] → l.status ≡ running → GoesOn rs l
    unfolding run
    run-GoesOn [] l n e = (λ g. tt, λ a. ap is_running e)
    run-GoesOn (r ∷ rs) l n e = GoesOn-next r.temp r rs l n e refl (λ l' e'. run-GoesOn rs l' n e')

    -- Where the curve has a point, and whatever fans refuse their speed: the Nvidia fan control
    -- task goes on after some readings exactly if each of them has a temperature.
    pub run_goes_on :
        (rs : List Reading)
        → curve.points ≢ []
        → (is_running (run curve settings fan_count rs start).status ≡ true) ↔ All HasTemp rs
    run_goes_on rs n = run-GoesOn rs start n refl
