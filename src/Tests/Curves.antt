-- ===== src/Tests/Curves.antt =====
-- The test cases of fan_control.rs, over numbers with three decimals, and the examples of its theorems.
use lact.Prelude.{ℕ, ◌*◌, ◌≤◌, ◌≡◌, ◌≢◌, ◌↔◌, ◌⊎◌, refl, false, none, some, [], ◌∷◌, arith, length}
use lact.Prelude.Int.{pos, ◌-ℤ◌}
use lact.Prelude.Exec.{Error, ok, err}
use lact.Platform.Fixed.{fixed, thousandths-IsMonotone}
use lact.Schema.{default_fan_curve}
use lact.Curve.{
  FanCurve, FanCurveRanges, PmfwCurve, Temperature, pwm_at_temp, interpolate, sub_i32,
  into_pmfw_curve, validate, pwm_of, is_critical, maybe_lower, maybe_higher,
}
use lact.Curve.Interpolate.{pwm_at_temp_mono, pwm_at_temp_panics}
use lact.Curve.Pmfw.{AllFitted, into_pmfw_curve-AllFitted}

abbrev allowed : FanCurveRanges
allowed = record {
  temperature_start = pos 15;
  temperature_end = pos 90;
  speed_start = 20;
  speed_end = 100;
}

abbrev simple : FanCurve fixed
simple = record { points = (pos 0, 0) ∷ (pos 100, 1000) ∷ [] }

abbrev uneven : FanCurve fixed
uneven = record { points = (pos 30, 0) ∷ (pos 40, 100) ∷ (pos 55, 900) ∷ (pos 61, 1000) ∷ [] }

abbrev default_curve : FanCurve fixed
unfolding default_fan_curve
default_curve = record { points = default_fan_curve fixed }

abbrev degrees : ℕ → Temperature fixed
degrees t = record { current = some (t * 1000); crit = some 90000; crit_hyst = some 0 }

abbrev degrees_to_150 : ℕ → Temperature fixed
degrees_to_150 t = record { current = some (t * 1000); crit = some 150000; crit_hyst = none }

abbrev five_points : PmfwCurve
five_points = record {
  points = (pos 0, 0) ∷ (pos 0, 0) ∷ (pos 0, 0) ∷ (pos 0, 0) ∷ (pos 0, 0) ∷ [];
  allowed_ranges = some allowed;
}

simple_curve :
    (pwm_at_temp fixed simple (degrees_to_150 45) ≡ some 114)
    × (pwm_at_temp fixed simple (degrees_to_150 0) ≡ some 0)
    × (pwm_at_temp fixed simple (degrees_to_150 100) ≡ some 255)
    × (pwm_at_temp fixed simple (degrees_to_150 105) ≡ some 255)
unfolding pwm_at_temp default_curve default_fan_curve interpolate sub_i32
simple_curve = (refl, refl, refl, refl)

uneven_curve :
    (pwm_at_temp fixed uneven (degrees 30) ≡ some 0)
    × (pwm_at_temp fixed uneven (degrees 35) ≡ some 12)
    × (pwm_at_temp fixed uneven (degrees 40) ≡ some 25)
    × (pwm_at_temp fixed uneven (degrees 47) ≡ some 120)
    × (pwm_at_temp fixed uneven (degrees 52) ≡ some 188)
unfolding pwm_at_temp default_curve default_fan_curve interpolate sub_i32
uneven_curve = (refl, refl, refl, refl, refl)

default_curve_pwm :
    (pwm_at_temp fixed default_curve (degrees 40) ≡ some 51)
    × (pwm_at_temp fixed default_curve (degrees 60) ≡ some 127)
    × (pwm_at_temp fixed default_curve (degrees 65) ≡ some 159)
    × (pwm_at_temp fixed default_curve (degrees 70) ≡ some 191)
    × (pwm_at_temp fixed default_curve (degrees 79) ≡ some 248)
    × (pwm_at_temp fixed default_curve (degrees 85) ≡ some 255)
    × (pwm_at_temp fixed default_curve (degrees 100) ≡ some 255)
unfolding pwm_at_temp default_curve default_fan_curve interpolate sub_i32
default_curve_pwm = (refl, refl, refl, refl, refl, refl, refl)

default_curve_to_pmfw :
    into_pmfw_curve fixed default_curve five_points
    ≡ ok (record {
      points = (pos 40, 20) ∷ (pos 50, 35) ∷ (pos 60, 50) ∷ (pos 70, 75) ∷ (pos 80, 100) ∷ [];
      allowed_ranges = some allowed;
    })
unfolding into_pmfw_curve default_curve default_fan_curve
default_curve_to_pmfw = refl

pwm_at_temp_mono_example :
    (m n : ℕ) × (pwm_at_temp fixed uneven (degrees 41) ≡ some m)
    × (pwm_at_temp fixed uneven (degrees 47) ≡ some n)
    × (m ≤ n)
    × (pwm_of fixed 100 ≤ m)
unfolding is_critical maybe_lower maybe_higher ◌-ℤ◌
pwm_at_temp_mono_example =
    pwm_at_temp_mono fixed thousandths-IsMonotone (pos 40, 100) (pos 55, 900) refl refl refl
      (omega arith) uneven (degrees 41) (degrees 47) 41000 47000 refl refl refl refl (omega arith)
      refl refl refl refl

abbrev no_points : FanCurve fixed
no_points = record { points = [] }

pwm_at_temp_panics_example : (pwm_at_temp fixed no_points (degrees 41) ≡ none) ↔ (
    ((degrees 41).current ≡ none)
    ⊎ ((x : ℕ) × ((degrees 41).current ≡ some x)
        × (is_critical fixed (degrees 41) x ≡ false)
        × (no_points.points ≡ [])))
pwm_at_temp_panics_example = pwm_at_temp_panics fixed no_points (degrees 41)

valid : validate fixed default_curve ≡ ok tt
unfolding validate default_curve default_fan_curve
valid = refl

into_pmfw_curve-AllFitted_example :
    (length five_points.points ≡ length default_curve.points
      → (new : PmfwCurve) × (into_pmfw_curve fixed default_curve five_points ≡ ok new)
        × (new.allowed_ranges ≡ some allowed)
        × AllFitted fixed allowed default_curve.points new.points)
    × (length five_points.points ≢ length default_curve.points
        → (e : Error) × (into_pmfw_curve fixed default_curve five_points ≡ err e))
into_pmfw_curve-AllFitted_example =
    into_pmfw_curve-AllFitted fixed thousandths-IsMonotone allowed (omega arith) (omega arith)
      default_curve five_points valid refl
