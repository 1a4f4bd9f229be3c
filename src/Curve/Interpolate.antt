-- ===== src/Curve/Interpolate.antt =====
-- When `pwm_at_temp` panics, and how its value moves between two points of a rising curve.
use lact.Prelude.{
  ℕ, ◌≤◌, ◌≡◌, refl, true, false, not, none, some, List, [], ◌∷◌, arith, ◌⊎◌, ◌↔◌, ◌≢◌, inl, inr,
  Option-cases,
}
use lact.Prelude.Int.{ℤ, pos, ◌-ℤ◌, ◌≤ℤ◌, ltb_ℤ, -ℤ_mono, -ℤ_nonneg}
use lact.Platform.{IsMonotone, Platform}
use lact.Curve.{
  FanCurve, Temperature, maybe_lower, maybe_higher, interpolate, percentage, pwm_of, is_critical,
  curve_pwm, pwm_at_temp, sub_i32,
}
use lact.Curve.Bracket.{maybe_lower-lt, maybe_higher-le, sub_i32-of_fits}

-- An `i32` above l and not above h, where h - l is in range.
record Within (l h a : ℤ) : Type 0 where
  from_lower : sub_i32 a l ≡ a -ℤ l
  whole : sub_i32 h l ≡ h -ℤ l
  nonneg : pos 0 ≤ℤ a -ℤ l
  positive : pos 1 ≤ℤ h -ℤ l
  at_most : a -ℤ l ≤ℤ h -ℤ l

bracket_order :
    (l h a : ℤ)
    → ltb_ℤ l a ≡ true
    → not (ltb_ℤ h a) ≡ true
    → (l ≤ℤ a) × (l ≤ℤ h) × (a ≤ℤ h) × (pos 1 ≤ℤ h -ℤ l)
unfolding ◌-ℤ◌
bracket_order l h a p q = ground arith

≤ℤ_trans : (a b c : ℤ) → a ≤ℤ b → b ≤ℤ c → a ≤ℤ c
≤ℤ_trans a b c h k = omega arith

within :
    (l h a : ℤ)
    → h -ℤ l ≤ℤ pos 2147483647
    → ltb_ℤ l a ≡ true
    → not (ltb_ℤ h a) ≡ true
    → Within l h a
within l h a fits p q =
    let order = bracket_order l h a p q in
    record {
      from_lower =
          sub_i32-of_fits a l order.0
            (≤ℤ_trans (a -ℤ l) (h -ℤ l) (pos 2147483647) (-ℤ_mono a h l order.2) fits);
      whole = sub_i32-of_fits h l order.1 fits;
      nonneg = -ℤ_nonneg a l order.0;
      positive = order.3;
      at_most = -ℤ_mono a h l order.2;
    }

still_below : (l a b : ℤ) → ltb_ℤ l a ≡ true → a ≤ℤ b → ltb_ℤ l b ≡ true
still_below l a b h k = ground arith

still_above : (h a b : ℤ) → not (ltb_ℤ h b) ≡ true → a ≤ℤ b → not (ltb_ℤ h a) ≡ true
still_above h a b p k = ground arith

module _ (P : Platform) (laws : IsMonotone P.f32) (l h : ℤ × P.F32)
    (first : P.f32.le (P.f32.of_int (pos 0)) (l.1) ≡ true) (rising : P.f32.le (l.1) (h.1) ≡ true)
    (last : P.f32.le (h.1) (P.f32.of_decimal 10 1) ≡ true)
    (fits : h.0 -ℤ l.0 ≤ℤ pos 2147483647) where
  abbrev ratio : ℤ → P.F32
  ratio a = P.f32.div (P.f32.of_int (a -ℤ l.0)) (P.f32.of_int (h.0 -ℤ l.0))

  abbrev between : ℤ → P.F32
  between a = P.f32.add (l.1) (P.f32.mul (P.f32.sub (h.1) (l.1)) (ratio a))

  interpolate-between : (a : ℤ) → Within (l.0) (h.0) a → interpolate P l h a ≡ between a
  unfolding interpolate
  interpolate-between a v = cc (v.from_lower, v.whole)

  ratio_nonneg : (a : ℤ) → Within (l.0) (h.0) a → P.f32.le (P.f32.of_int (pos 0)) (ratio a) ≡ true
  ratio_nonneg a v = laws.div_nonneg _ _ v.positive fits (laws.of_int_mono _ _ v.nonneg)

  ratio_le_one : (a : ℤ) → Within (l.0) (h.0) a → P.f32.le (ratio a) (P.f32.of_decimal 10 1) ≡ true
  ratio_le_one a v = laws.div_le_one _ _ v.positive fits (laws.of_int_mono _ _ v.at_most)

  rise_nonneg : P.f32.le (P.f32.of_int (pos 0)) (P.f32.sub (h.1) (l.1)) ≡ true
  rise_nonneg = laws.sub_nonneg _ _ first rising last

  rise_le_one : P.f32.le (P.f32.sub (h.1) (l.1)) (P.f32.of_decimal 10 1) ≡ true
  rise_le_one = laws.sub_le_one _ _ first rising last

  part_nonneg :
      (a : ℤ)
      → Within (l.0) (h.0) a
      → P.f32.le (P.f32.of_int (pos 0)) (P.f32.mul (P.f32.sub (h.1) (l.1)) (ratio a)) ≡ true
  part_nonneg a v =
      laws.mul_nonneg _ _ rise_nonneg rise_le_one (ratio_nonneg a v) (ratio_le_one a v)

  interpolate_mono :
      (a b : ℤ)
      → a ≤ℤ b
      → Within (l.0) (h.0) a
      → Within (l.0) (h.0) b
      → P.f32.le (interpolate P l h a) (interpolate P l h b) ≡ true
  interpolate_mono a b ab va vb =
      rw (interpolate-between a va, interpolate-between b vb)
        (laws.add_mono_right _ _ _ first (part_nonneg a va) (
          laws.mul_mono_share _ _ _ rise_nonneg rise_le_one (ratio_nonneg a va)
            (laws.div_mono_left _ _ _ va.positive fits
              (laws.of_int_mono _ _ (-ℤ_mono a b (l.0) ab)))
            (ratio_le_one b vb)))

  interpolate_ge : (a : ℤ) → Within (l.0) (h.0) a → P.f32.le (l.1) (interpolate P l h a) ≡ true
  interpolate_ge a va = rw (interpolate-between a va) (laws.add_nonneg _ _ first (part_nonneg a va))

  pwm_of_mono : (x y : P.F32) → P.f32.le x y ≡ true → pwm_of P x ≤ pwm_of P y
  unfolding pwm_of
  pwm_of_mono x y e = laws.to_u8_mono _ _ (laws.scale_mono 255 x y (omega arith) (omega arith) e)

  -- Where the rounded operations are monotone on the numbers used, between a point of the curve and
  -- the next one, whose speeds lie between 0 and 1 and do not fall and whose temperatures' distance
  -- is an `i32`: of two temperatures that the critical limits let through, the hotter one never
  -- gets a lower PWM, and neither gets less than the lower point's PWM.
  pub pwm_at_temp_mono :
      (curve : FanCurve P) (s t : Temperature P) (x y : P.F32)
      → s.current ≡ some x
      → t.current ≡ some y
      → is_critical P s x ≡ false
      → is_critical P t y ≡ false
      → P.f32.to_i32 x ≤ℤ P.f32.to_i32 y
      → maybe_lower P curve.points (P.f32.to_i32 x) ≡ some l
      → maybe_lower P curve.points (P.f32.to_i32 y) ≡ some l
      → maybe_higher P curve.points (P.f32.to_i32 x) ≡ some h
      → maybe_higher P curve.points (P.f32.to_i32 y) ≡ some h
      → (m n : ℕ) × (pwm_at_temp P curve s ≡ some m)
        × (pwm_at_temp P curve t ≡ some n)
        × (m ≤ n)
        × (pwm_of P (l.1) ≤ m)
  unfolding pwm_at_temp curve_pwm percentage
  pwm_at_temp_mono curve s t x y es et cs ct xy lx ly hx hy =
      let a = P.f32.to_i32 x in
      let b = P.f32.to_i32 y in
      let va =
        within (l.0) (h.0) a fits (maybe_lower-lt P curve.points a l lx)
          (maybe_higher-le P curve.points a h hx) in
      let vb =
        within (l.0) (h.0) b fits (maybe_lower-lt P curve.points b l ly)
          (maybe_higher-le P curve.points b h hy) in
      (
        pwm_of P (interpolate P l h a),
        pwm_of P (interpolate P l h b),
        ground arith,
        ground arith,
        pwm_of_mono _ _ (interpolate_mono a b xy va vb),
        pwm_of_mono _ _ (interpolate_ge a va),
      )

module _ (P : Platform) where
  lower_or_higher :
      (points : List (ℤ × P.F32)) (a : ℤ)
      → maybe_lower P points a ≡ none
      → maybe_higher P points a ≡ none
      → points ≡ []
  unfolding maybe_lower maybe_higher
  lower_or_higher [] a p q = refl
  lower_or_higher (x ∷ xs) a p q = ground arith

  -- `pwm_at_temp` panics exactly if there is no current temperature, or if the temperature is
  -- within the critical limits and the curve is empty.
  pub pwm_at_temp_panics :
      (curve : FanCurve P) (temp : Temperature P)
      → (pwm_at_temp P curve temp ≡ none) ↔ (
          (temp.current ≡ none)
          ⊎ ((x : P.F32) × (temp.current ≡ some x)
              × (is_critical P temp x ≡ false)
              × (curve.points ≡ [])))
  unfolding pwm_at_temp curve_pwm percentage
  pwm_at_temp_panics curve temp =
      (λ e. ground (arith, lower_or_higher curve.points), λ e. ground arith)

  -- A temperature and a curve with a point are enough.
  pub pwm_at_temp-some :
      (curve : FanCurve P) (temp : Temperature P) (x : P.F32)
      → temp.current ≡ some x
      → curve.points ≢ []
      → (pwm : ℕ) × (pwm_at_temp P curve temp ≡ some pwm)
  pwm_at_temp-some curve temp x p n = elim (Option-cases (pwm_at_temp P curve temp)) [
    | inr found ↦ found
    | inl none_of ↦ elim ((pwm_at_temp_panics curve temp).0 none_of) [
      | inl missing ↦ absurd (ground arith)
      | inr (y, q, c, empty) ↦ absurd (n empty)
    ]
  ]
