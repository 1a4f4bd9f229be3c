-- ===== src/Curve/Pmfw.antt =====
-- The curve as the firmware takes it.
use lact.Prelude.{
  ℕ, ◌≤◌, ◌<◌, ◌≡◌, refl, true, some, List, [], ◌∷◌, arith, map, ◌↔◌, ◌≢◌, length, All, subst,
}
use lact.Prelude.Int.{ℤ, pos}
use lact.Prelude.Exec.{ok, err, Error}
use lact.Platform.{IsMonotone, Platform}
use lact.Curve.{
  FanCurve, FanCurveRanges, PmfwCurve, in_unit, validate, validate_points, pmfw_point,
  into_pmfw_curve, wrong_point_count,
}

module _ (P : Platform) where
  -- Every speed of the curve lies between 0.0 and 1.0.
  abbrev pub IsShare : ℤ × P.F32 → Type 0
  IsShare p = in_unit P (p.1) ≡ true

  validate_points_iff :
      (points : List (ℤ × P.F32)) → (validate_points P points ≡ ok tt) ↔ All IsShare points
  unfolding validate_points
  validate_points_iff [] = (λ e. tt, λ e. refl)
  validate_points_iff ((t, x) ∷ points) = ground (arith, validate_points_iff points)

  -- `validate` accepts a curve exactly if every speed of it lies between 0.0 and 1.0.
  pub validate_iff : (curve : FanCurve P) → (validate P curve ≡ ok tt) ↔ All IsShare curve.points
  unfolding validate
  validate_iff curve = validate_points_iff curve.points

  -- The temperatures stay, and no speed leaves the firmware's range.
  pub record IsFitted (ranges : FanCurveRanges) (p : ℤ × P.F32) (q : ℤ × ℕ) : Type 0 where
    pub same_temp : q.0 ≡ p.0
    pub at_least : ranges.speed_start ≤ q.1
    pub at_most : q.1 ≤ ranges.speed_end

  abbrev pub AllFitted : FanCurveRanges → List (ℤ × P.F32) → List (ℤ × ℕ) → Type 0
  AllFitted ranges [] [] = Unit
  AllFitted ranges (p ∷ ps) (q ∷ qs) = IsFitted ranges p q × AllFitted ranges ps qs
  AllFitted ranges _ _ = ⊥

  module _ (laws : IsMonotone P.f32) (ranges : FanCurveRanges)
      (ordered : ranges.speed_start ≤ ranges.speed_end) (is_u8 : ranges.speed_end < 256) where
    share_of_max-le :
        (x : P.F32)
        → in_unit P x ≡ true
        → P.f32.to_u8 (P.f32.mul (P.f32.of_int (pos ranges.speed_end)) x) ≤ ranges.speed_end
    unfolding in_unit
    share_of_max-le x h = omega (arith, bound, laws.to_u8-of_int ranges.speed_end is_u8)
      where
        at_least_zero : P.f32.le (P.f32.of_decimal 0 1) x ≡ true
        at_least_zero = ground arith

        le_one : P.f32.le x (P.f32.of_decimal 10 1) ≡ true
        le_one = ground arith

        bound :
            P.f32.to_u8 (P.f32.mul (P.f32.of_int (pos ranges.speed_end)) x)
            ≤ P.f32.to_u8 (P.f32.of_int (pos ranges.speed_end))
        bound = laws.to_u8_mono _ _ (
            laws.scale_le ranges.speed_end x is_u8
              (subst (λ z. P.f32.le z x ≡ true) laws.zero_lem at_least_zero) le_one)

    pmfw_point-IsFitted : (p : ℤ × P.F32) → IsShare p → IsFitted ranges p (pmfw_point P ranges p)
    unfolding pmfw_point
    pmfw_point-IsFitted (t, x) h = record {
      same_temp = refl;
      at_least = omega arith;
      at_most = omega (arith, share_of_max-le x h);
    }

    map-AllFitted :
        (points : List (ℤ × P.F32))
        → All IsShare points
        → AllFitted ranges points (map (pmfw_point P ranges) points)
    map-AllFitted [] h = tt
    map-AllFitted (p ∷ ps) h = (pmfw_point-IsFitted p (h.0), map-AllFitted ps (h.1))

    -- Where the rounded operations are monotone on the numbers used, for a curve that `validate`
    -- accepts, on a card that allows changes: `into_pmfw_curve` succeeds exactly if the card's
    -- curve has as many points, and then keeps the ranges and every temperature, and brings every
    -- speed into the card's range (whose ends are ordered and fit in a `u8`).
    pub into_pmfw_curve-AllFitted :
        (curve : FanCurve P) (current : PmfwCurve)
        → validate P curve ≡ ok tt
        → current.allowed_ranges ≡ some ranges
        → (length current.points ≡ length curve.points
            → (new : PmfwCurve) × (into_pmfw_curve P curve current ≡ ok new)
              × (new.allowed_ranges ≡ some ranges)
              × AllFitted ranges curve.points new.points)
          × (length current.points ≢ length curve.points
              → (e : Error) × (into_pmfw_curve P curve current ≡ err e))
    unfolding into_pmfw_curve
    into_pmfw_curve-AllFitted curve current v r = (
      λ same. (
        record { points = map (pmfw_point P ranges) curve.points; allowed_ranges = some ranges },
        ground arith,
        refl,
        map-AllFitted curve.points ((validate_iff curve).0 v),
      ),
      λ other. (wrong_point_count, ground arith),
    )
