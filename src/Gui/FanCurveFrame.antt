-- ===== src/Gui/FanCurveFrame.antt =====
-- pages/thermals_page/fan_curve_frame: the sliders of the curve's points, and the two of the
-- hysteresis.
pub mod Points
use lact.Prelude.{ℕ, Bool, true, false, Option, none, some, List, [], ◌∷◌, last, if◌then◌else◌}
use lact.Prelude.Int.{ℤ, pos, ◌+ℤ◌, ltb_ℤ, eqb_ℤ}
use lact.Platform.{Platform}
use lact.Curve.{wrap_i32}
use lact.Schema.{default_fan_curve}
use lact.Gui.Toolkit.{Toolkit}
use lact.Gui.Adjustment.{OcAdjustment, set_value, set_initial_value}

-- `BTreeMap::insert` by temperature.
unfoldable pub insert_point : {R : Type 0} → ℤ → R → List (ℤ × R) → List (ℤ × R)
insert_point t r [] = (t, r) ∷ []
insert_point t r ((u, s) ∷ points) =
    let rest = insert_point t r points in
    if ltb_ℤ t u
    then (t, r) ∷ (u, s) ∷ points
    else if eqb_ℤ t u
    then (t, r) ∷ points
    else (u, s) ∷ rest

-- `BTreeMap::pop_last`
unfoldable pub pop_last : {R : Type 0} → List (ℤ × R) → List (ℤ × R)
pop_last [] = []
pop_last (p ∷ points) = elim points [ [] ↦ [] | q ∷ rest ↦ p ∷ pop_last points ]

-- `PointAdjustment`; a plain adjustment has no use for `changed`.
pub record PointAdjustment (P : Platform) : Type 0 where
  pub temperature : OcAdjustment P
  pub ratio : OcAdjustment P

pub record FanCurveFrame (P : Platform) : Type 0 where
  pub points : List (PointAdjustment P)
  pub spindown_delay_adj : OcAdjustment P
  pub change_threshold_adj : OcAdjustment P
  pub hysteresis_grid : Bool

-- `or.unwrap_or(0)`
abbrev pub or_zero : Option ℕ → ℕ
or_zero none = 0
or_zero (some n) = n

module _ {P : Platform} (tk : Toolkit P) where
  -- `Adjustment::new(value, lower, upper, …)`, with a page size of 0.
  unfoldable pub new_adjustment : P.F64 → P.F64 → P.F64 → OcAdjustment P
  unfolding set_value
  new_adjustment value lower upper = set_value tk value (record {
    value = P.f64.of_decimal 0 1;
    lower = lower;
    upper = upper;
    page_size = P.f64.of_decimal 0 1;
    changed = false;
  })

  unfoldable pub new_point : ℤ × P.F32 → PointAdjustment P
  unfolding new_adjustment
  new_point (temperature, ratio) = record {
    temperature =
        new_adjustment (P.f64.of_int temperature) (P.f64.of_decimal 0 1) (P.f64.of_int (pos 100));
    ratio = new_adjustment (tk.of_f32 ratio) (P.f64.of_decimal 0 1) (P.f64.of_decimal 10 1);
  }

  unfoldable pub new_points : List (ℤ × P.F32) → List (PointAdjustment P)
  new_points [] = []
  new_points (p ∷ curve) = new_point p ∷ new_points curve

  unfoldable pub set_curve : List (ℤ × P.F32) → FanCurveFrame P → FanCurveFrame P
  unfolding new_points new_point
  set_curve curve frame = record frame { points = new_points curve }

  -- The points from the left, into a map that holds those before them.
  unfoldable pub collect : List (ℤ × P.F32) → List (PointAdjustment P) → List (ℤ × P.F32)
  collect curve [] = curve
  collect curve (point ∷ points) =
      collect
        (insert_point (P.f64.to_i32 point.temperature.value) (tk.to_f32 point.ratio.value) curve)
        points

  unfoldable pub get_curve : FanCurveFrame P → List (ℤ × P.F32)
  unfolding collect insert_point
  get_curve frame = collect [] frame.points

  abbrev pub extended : List (ℤ × P.F32) → Option (ℤ × P.F32) → List (ℤ × P.F32)
  extended curve none = insert_point (pos 50) (P.f32.of_decimal 5 1) curve
  extended curve (some (temperature, ratio)) =
      insert_point (wrap_i32 (temperature +ℤ pos 5)) ratio curve

  unfoldable pub add_point : FanCurveFrame P → FanCurveFrame P
  unfolding get_curve set_curve
  add_point frame = set_curve (extended (get_curve frame) (last (get_curve frame))) frame

  unfoldable pub remove_point : FanCurveFrame P → FanCurveFrame P
  unfolding get_curve set_curve pop_last
  remove_point frame = set_curve (pop_last (get_curve frame)) frame

  -- The default button: `DEFAULT_SPINDOWN_DELAY_MS` and `DEFAULT_CHANGE_THRESHOLD`.
  unfoldable pub set_default : FanCurveFrame P → FanCurveFrame P
  unfolding set_curve set_value
  set_default frame = record (set_curve (default_fan_curve P) frame) {
    spindown_delay_adj = set_value tk (P.f64.of_int (pos 5000)) frame.spindown_delay_adj;
    change_threshold_adj = set_value tk (P.f64.of_int (pos 2)) frame.change_threshold_adj;
  }

  abbrev pub set_change_threshold : Option ℕ → FanCurveFrame P → FanCurveFrame P
  set_change_threshold value frame = record frame {
    change_threshold_adj =
        set_initial_value tk (P.f64.of_int (pos (or_zero value))) frame.change_threshold_adj;
  }

  abbrev pub set_spindown_delay_ms : Option ℕ → FanCurveFrame P → FanCurveFrame P
  set_spindown_delay_ms value frame = record frame {
    spindown_delay_adj =
        set_initial_value tk (P.f64.of_int (pos (or_zero value))) frame.spindown_delay_adj;
  }

  abbrev pub get_change_threshold : FanCurveFrame P → ℕ
  get_change_threshold frame = tk.to_u64 frame.change_threshold_adj.value

  abbrev pub get_spindown_delay_ms : FanCurveFrame P → ℕ
  get_spindown_delay_ms frame = tk.to_u64 frame.spindown_delay_adj.value
