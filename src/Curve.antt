-- ===== src/Curve.antt =====
-- lact-daemon/src/server/gpu_controller/fan_control.rs: the fan curve, a `BTreeMap` from degrees to
-- a share of the fan's speed, as its entries in order.
pub mod Bracket
pub mod Interpolate
pub mod Pmfw
use lact.Prelude.{
  ℕ, ◌-◌, ◌%◌, ◌^◌, String, ◌≡◌, Bool, true, false, not, ◌&&◌, ◌||◌, Option, none, some, List, [],
  ◌∷◌, map, max, ltb, ◌==◌, if◌then◌else◌, length, keep_if, first, last, All,
}
use lact.Prelude.Int.{ℤ, pos, negsuc, ◌-ℤ◌, ltb_ℤ}
use lact.Prelude.Exec.{Error, Result, ok, err, msg, or_fail}
use lact.Platform.{Float, Platform}

-- `i32` subtraction, which wraps around in a release build.
pub signed32 : ℕ → ℤ
signed32 w = if ltb w (2 ^ 31) then pos w else negsuc (2 ^ 32 - w - 1)

unfoldable pub wrap_i32 : ℤ → ℤ
unfolding signed32
wrap_i32 (pos n) = signed32 (n % 2 ^ 32)
wrap_i32 (negsuc n) = signed32 (2 ^ 32 - 1 - n % 2 ^ 32)

unfoldable pub sub_i32 : ℤ → ℤ → ℤ
unfolding wrap_i32 ◌-ℤ◌
sub_i32 a b = wrap_i32 (a -ℤ b)

-- `amdgpu_sysfs::hw_mon::Temperature`
pub record Temperature (P : Platform) : Type 0 where
  pub current : Option P.F32
  pub crit : Option P.F32
  pub crit_hyst : Option P.F32

pub record FanCurve (P : Platform) : Type 0 where
  pub points : List (ℤ × P.F32)

-- `amdgpu_sysfs`'s `FanCurveRanges` and `FanCurve`, the curve that the firmware runs.
pub record FanCurveRanges : Type 0 where
  pub temperature_start : ℤ
  pub temperature_end : ℤ
  pub speed_start : ℕ
  pub speed_end : ℕ

pub record PmfwCurve : Type 0 where
  pub points : List (ℤ × ℕ)
  pub allowed_ranges : Option FanCurveRanges

-- The message also prints the two numbers of points.
abbrev pub wrong_point_count : Error
wrong_point_count = msg "The GPU only supports another number of curve points"

module _ (P : Platform) where
  -- `range(..current).next_back()`
  unfoldable pub maybe_lower : List (ℤ × P.F32) → ℤ → Option (ℤ × P.F32)
  maybe_lower points current = last (keep_if (λ p. ltb_ℤ p.0 current) points)

  -- `range(current..).next()`
  unfoldable pub maybe_higher : List (ℤ × P.F32) → ℤ → Option (ℤ × P.F32)
  maybe_higher points current = first (keep_if (λ p. not (ltb_ℤ p.0 current)) points)

  unfoldable pub interpolate : ℤ × P.F32 → ℤ × P.F32 → ℤ → P.F32
  interpolate (lower_temp, lower_speed) (higher_temp, higher_speed) current =
      let speed_ratio : P.F32 =
        P.f32.div (P.f32.of_int (sub_i32 current lower_temp))
          (P.f32.of_int (sub_i32 higher_temp lower_temp)) in
      P.f32.add lower_speed (P.f32.mul (P.f32.sub higher_speed lower_speed) speed_ratio)

  -- `none` is the panic on an empty curve.
  pub percentage : Option (ℤ × P.F32) → Option (ℤ × P.F32) → ℤ → Option P.F32
  percentage (some lower) (some higher) current = some (interpolate lower higher current)
  percentage (some lower) none current = some (lower.1)
  percentage none (some higher) current = some (higher.1)
  percentage none none current = none

  -- `u8::MAX as f32 * percentage`, cast to `u8`
  pub pwm_of : P.F32 → ℕ
  pwm_of share = P.f32.to_u8 (P.f32.mul (P.f32.of_int (pos 255)) share)

  pub above : Option P.F32 → P.F32 → Bool
  above none current = false
  above (some crit) current = P.f32.lt crit current

  pub below : Option P.F32 → P.F32 → Bool
  below none current = false
  below (some hyst) current = P.f32.lt current hyst

  unfoldable pub is_critical : Temperature P → P.F32 → Bool
  unfolding above below
  is_critical temp current = above temp.crit current || below temp.crit_hyst current

  pub curve_pwm : FanCurve P → ℤ → Option ℕ
  unfolding percentage maybe_lower maybe_higher pwm_of
  curve_pwm curve current =
      elim (percentage (maybe_lower curve.points current) (maybe_higher curve.points current)
        current) [ none ↦ none | some share ↦ some (pwm_of share) ]

  -- `none` is a panic: no current temperature, or an empty curve.
  unfoldable pub pwm_at_temp : FanCurve P → Temperature P → Option ℕ
  unfolding is_critical curve_pwm
  pwm_at_temp curve temp = elim temp.current [
    | none ↦ none
    | some current ↦
        if is_critical temp current then some 255 else curve_pwm curve (P.f32.to_i32 current)
  ]

  -- `(0.0..=1.0).contains(percentage)`
  unfoldable pub in_unit : P.F32 → Bool
  in_unit x = P.f32.le (P.f32.of_decimal 0 1) x && P.f32.le x (P.f32.of_decimal 10 1)

  unfoldable pub validate_points : List (ℤ × P.F32) → Result (Unit {0})
  unfolding in_unit
  validate_points [] = ok tt
  validate_points ((t, x) ∷ points) =
      let rest = validate_points points in
      if in_unit x then rest else err (msg "Fan speed percentage must be between 0 and 1")

  unfoldable pub validate : FanCurve P → Result (Unit {0})
  unfolding validate_points
  validate curve = validate_points curve.points

  pub pmfw_point : FanCurveRanges → ℤ × P.F32 → ℤ × ℕ
  pmfw_point ranges (temp, ratio) = (
    temp,
    max ranges.speed_start (P.f32.to_u8 (P.f32.mul (P.f32.of_int (pos ranges.speed_end)) ratio)),
  )

  unfoldable pub into_pmfw_curve : FanCurve P → PmfwCurve → Result PmfwCurve
  unfolding pmfw_point
  into_pmfw_curve curve current =
      if length current.points == length curve.points
      then elim current.allowed_ranges [
        | none ↦ err (msg "The GPU does not allow fan curve modifications")
        | some ranges ↦
            ok (record {
              points = map (pmfw_point ranges) curve.points;
              allowed_ranges = some ranges;
            })
      ]
      else err wrong_point_count
