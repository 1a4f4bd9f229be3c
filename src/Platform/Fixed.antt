-- ===== src/Platform/Fixed.antt =====
-- A platform to run the model on: numbers with three decimals, cut off below at 0, and enums as
-- numbers. It meets the laws that the theorems take as hypotheses.
use lact.Prelude.{
  ℕ, ◌+◌, ◌-◌, ◌*◌, ◌/◌, ◌^◌, ◌≤◌, ◌<◌, arith, refl, leb, ltb, ◌==◌, min, leb→le, le→leb,
}
use lact.Prelude.Int.{ℤ, pos, pos_part, ◌≤ℤ◌}
use lact.Prelude.{true}
use lact.Prelude.Exec.{ok}
use lact.Platform.{Overdrive, Float, IsMonotone, Platform}

abbrev pub thousandths : Float ℕ
thousandths = record {
  of_decimal = λ n k. n * 1000 / 10 ^ k;
  of_int = λ z. pos_part z * 1000;
  add = λ x y. x + y;
  sub = λ x y. x - y;
  mul = λ x y. x * y / 1000;
  div = λ x y. x * 1000 / y;
  abs = λ x. x;
  le = leb;
  lt = ltb;
  eq = λ x y. x == y;
  to_u8 = λ x. min 255 (x / 1000);
  to_u32 = λ x. min 4294967295 (x / 1000);
  to_i32 = λ x. pos (min 2147483647 (x / 1000));
}

mul_mono : (x y z : ℕ) → y ≤ z → x * y ≤ x * z
mul_mono x y z h = grind arith

div_mono : (x y n : ℕ) → x ≤ y → x / n ≤ y / n
div_mono x y n h = grind arith

parts_mono : (m n : ℤ) → m ≤ℤ n → pos_part m * 1000 ≤ pos_part n * 1000
parts_mono m n h = ground arith

div_by_self : (x y : ℕ) → 0 < y → x ≤ y → x * 1000 / y ≤ 1000
div_by_self x y p h = grind arith

positive_part : (n : ℤ) → pos 1 ≤ℤ n → 0 < pos_part n * 1000
positive_part n p = ground arith

pub thousandths-IsMonotone : IsMonotone thousandths
thousandths-IsMonotone = record {
  le_trans = λ x y z p q. ground arith;
  zero_lem = refl;
  of_int_mono = λ m n p. le→leb _ _ (parts_mono m n p);
  sub_nonneg = λ x y p q r. ground arith;
  sub_le_one = λ x y p q r. ground arith;
  add_nonneg = λ x y p q. ground arith;
  add_mono_right = λ x y z p q r. ground arith;
  mul_mono_share = λ x y z p p' q r r'.
      le→leb _ _ (omega (arith, div_mono (x * y) (x * z) 1000 (mul_mono x y z (leb→le y z r))));
  mul_nonneg = λ x y p p' q q'. ground arith;
  scale_mono = λ n x y p p' q.
      le→leb _ _
        (div_mono (n * 1000 * x) (n * 1000 * y) 1000 (mul_mono (n * 1000) x y (leb→le x y q)));
  scale_le = λ n x p q r. le→leb _ _ (omega (arith, mul_mono (n * 1000) x 1000 (leb→le x 1000 r)));
  div_mono_left = λ x y n p p' q.
      le→leb _ _ (div_mono (x * 1000) (y * 1000) (pos_part n * 1000) (omega (arith, leb→le x y q)));
  div_nonneg = λ x n p p' q. ground arith;
  div_le_one = λ x n p p' q.
      le→leb _ _ (div_by_self x (pos_part n * 1000) (positive_part n p) (leb→le _ _ q));
  to_u8_mono = λ x y p. omega (arith, leb→le x y p);
  to_u8-of_int = λ n p. omega arith;
}

-- A table is a number that only remembers the last value written.
abbrev remembering : Overdrive ℕ
remembering = record {
  is_vega20 = λ t. true;
  vddc_curve_is_empty = λ t. true;
  clear = λ t. 0;
  normalize_vddc_curve = λ t. t;
  set_voltage_offset = λ z t. ok (pos_part z);
  drop_voltage_offset = λ t. t;
  set_min_sclk = λ z t. ok (pos_part z);
  set_min_mclk = λ z t. ok (pos_part z);
  set_min_voltage = λ z t. ok (pos_part z);
  set_max_sclk = λ z t. ok (pos_part z);
  set_max_mclk = λ z t. ok (pos_part z);
  set_max_voltage = λ z t. ok (pos_part z);
}

abbrev pub fixed : Platform
fixed = record {
  F32 = ℕ;
  F64 = ℕ;
  f32 = thousandths;
  f64 = thousandths;
  PerformanceLevel = ℕ;
  level_eq = λ a b. a == b;
  auto = 0;
  low = 1;
  manual = 3;
  PowerLevelKind = ℕ;
  kind_eq = λ a b. a == b;
  core_clock = 0;
  memory_clock = 1;
  ClocksTable = ℕ;
  overdrive = remembering;
  CommitHandle = ℕ;
}
