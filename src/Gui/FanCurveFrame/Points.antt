-- ===== src/Gui/FanCurveFrame/Points.antt =====
-- The curve that the frame shows is the one that it was given.
use mathlib.Core.List.{append-nil, append_assoc}
use lact.Prelude.{◌≡◌, refl, sym, ◌∙◌, true, false, List, [], ◌∷◌, ◌++◌, arith, All}
use lact.Prelude.Int.{ℤ, pos, ◌≤ℤ◌, ltb_ℤ, eqb_ℤ}
use lact.Platform.{Platform}
use lact.Gui.Toolkit.{Toolkit}
use lact.Gui.Adjustment.{set_value}
use lact.Gui.FanCurveFrame.{
  insert_point, FanCurveFrame, new_adjustment, new_point, new_points, set_curve, collect, get_curve,
}

-- Each temperature is above all before it, those of `before` too.
abbrev pub Follows : {R : Type 0} → List (ℤ × R) → List (ℤ × R) → Type 0
Follows before [] = Unit
Follows before (p ∷ points) =
    All (λ q. ltb_ℤ q.0 p.0 ≡ true) before × Follows (before ++ p ∷ []) points

insert_last :
    {R : Type 0} (before : List (ℤ × R)) (t : ℤ) (r : R)
    → All (λ q. ltb_ℤ q.0 t ≡ true) before
    → insert_point t r before ≡ before ++ (t, r) ∷ []
unfolding insert_point
insert_last [] t r h = refl
insert_last ((u, s) ∷ before) t r (below, h) =
    let after : ltb_ℤ t u ≡ false = ground arith in
    let other : eqb_ℤ t u ≡ false = ground arith in
    rw (insert_last before t r h) (rw after (rw other refl))

module _ {P : Platform} (tk : Toolkit P) where
  -- Casts and comparisons of numbers that a float holds exactly.
  pub record IsExact : Type 0 where
    pub zero_lem : P.f64.of_decimal 0 1 ≡ P.f64.of_int (pos 0)
    pub clamp_lem :
        (value lower upper : P.F64)
        → P.f64.lt upper value ≡ false
        → P.f64.lt value lower ≡ false
        → tk.clamp value lower upper (P.f64.of_decimal 0 1) ≡ value
    pub lt_of_int :
        (m n : ℤ)
        → pos 0 ≤ℤ m
        → m ≤ℤ pos 100
        → pos 0 ≤ℤ n
        → n ≤ℤ pos 100
        → P.f64.lt (P.f64.of_int m) (P.f64.of_int n) ≡ ltb_ℤ m n
    pub to_i32-of_int : (n : ℤ) → pos 0 ≤ℤ n → n ≤ℤ pos 100 → P.f64.to_i32 (P.f64.of_int n) ≡ n
    pub to_f32-of_f32 : (x : P.F32) → tk.to_f32 (tk.of_f32 x) ≡ x

  -- A point within the limits of its sliders.
  abbrev pub InRange : ℤ × P.F32 → Type 0
  InRange (t, r) =
      (pos 0 ≤ℤ t)
      × (t ≤ℤ pos 100)
      × (P.f64.lt (P.f64.of_decimal 10 1) (tk.of_f32 r) ≡ false)
      × (P.f64.lt (tk.of_f32 r) (P.f64.of_decimal 0 1) ≡ false)

  module _ (exact : IsExact) where
    shows_temperature :
        (p : ℤ × P.F32) → InRange p → P.f64.to_i32 (new_point tk p).temperature.value ≡ p.0
    unfolding new_point new_adjustment set_value
    shows_temperature (t, r) (low, high, _, _) =
        let top = exact.lt_of_int (pos 100) t (omega arith) (omega arith) low high in
        let bottom = exact.lt_of_int t (pos 0) low high (omega arith) (omega arith) in
        let not_above : ltb_ℤ (pos 100) t ≡ false = ground arith in
        let not_below : ltb_ℤ t (pos 0) ≡ false = ground arith in
        let limits =
          exact.clamp_lem (P.f64.of_int t) (P.f64.of_decimal 0 1) (P.f64.of_int (pos 100))
            (top ∙ not_above) (rw exact.zero_lem (bottom ∙ not_below)) in
        rw limits (exact.to_i32-of_int t low high)

    shows_ratio : (p : ℤ × P.F32) → InRange p → tk.to_f32 (new_point tk p).ratio.value ≡ p.1
    unfolding new_point new_adjustment set_value
    shows_ratio (t, r) (_, _, high, low) =
        rw (exact.clamp_lem _ _ _ high low) (exact.to_f32-of_f32 r)

    collect_cons :
        (before curve : List (ℤ × P.F32)) (p : ℤ × P.F32)
        → collect tk before (new_points tk (p ∷ curve))
          ≡ collect tk
              (insert_point
                (P.f64.to_i32 (new_point tk p).temperature.value)
                (tk.to_f32 (new_point tk p).ratio.value)
                before)
              (new_points tk curve)
    unfolding collect new_points
    collect_cons before curve p = refl

    collect_nil : (before : List (ℤ × P.F32)) → collect tk before (new_points tk []) ≡ before
    unfolding collect new_points
    collect_nil before = refl

    collect_lem :
        (before curve : List (ℤ × P.F32))
        → Follows before curve
        → All InRange curve
        → collect tk before (new_points tk curve) ≡ before ++ curve
    collect_lem before [] f h = collect_nil before ∙ sym (append-nil before)
    collect_lem before ((t, r) ∷ curve) (above, f) (here, h) =
        rw
          (
            collect_cons before curve (t, r),
            shows_temperature (t, r) here,
            shows_ratio (t, r) here,
            insert_last before t r above,
          )
          (collect_lem (before ++ (t, r) ∷ []) curve f h ∙ append_assoc before _ curve)

    -- Where the casts are exact on the numbers used, a curve whose temperatures rise and whose
    -- points are within the sliders' limits is read back as it was set.
    pub get_curve-set_curve :
        (curve : List (ℤ × P.F32)) (frame : FanCurveFrame P)
        → Follows [] curve
        → All InRange curve
        → get_curve tk (set_curve tk curve frame) ≡ curve
    unfolding get_curve set_curve
    get_curve-set_curve curve frame f h = collect_lem [] curve f h
