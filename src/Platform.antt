-- ===== src/Platform.antt =====
-- What the daemon takes from outside its own sources: the floating-point types and the enums of the
-- `amdgpu_sysfs` crate. A float is an opaque value, reached through the operations the code uses.
pub mod Fixed
use lact.Prelude.{ℕ, ◌+◌, ◌≤◌, ◌<◌, ◌≡◌, ◌↔◌, Bool, true, false}
use lact.Prelude.Exec.{Result}
use lact.Prelude.Int.{ℤ, pos, ◌≤ℤ◌}

-- `of_decimal n k` is the literal n / 10 ^ k. `to_u8` and `to_i32` are the saturating `as` casts.
pub record Float (A : Type 0) : Type 0 where
  pub of_decimal : ℕ → ℕ → A
  pub of_int : ℤ → A
  pub add : A → A → A
  pub sub : A → A → A
  pub mul : A → A → A
  pub div : A → A → A
  pub abs : A → A
  pub le : A → A → Bool
  pub lt : A → A → Bool
  pub eq : A → A → Bool
  pub to_u8 : A → ℕ
  pub to_u32 : A → ℕ
  pub to_i32 : A → ℤ

-- What IEEE 754 arithmetic and Rust's casts promise, each operation rounded. The arguments are kept
-- where an operation gives no NaN: a difference and a product of shares between 0 and 1, a multiple of
-- an integer that is a `u8`, a quotient by a positive `i32`. `le` is false where a side is NaN, so NaN
-- meets no premise.
pub record IsMonotone {A : Type 0} (f : Float A) : Type 0 where
  pub le_trans : (x y z : A) → f.le x y ≡ true → f.le y z ≡ true → f.le x z ≡ true
  pub zero_lem : f.of_decimal 0 1 ≡ f.of_int (pos 0)
  pub of_int_mono : (m n : ℤ) → m ≤ℤ n → f.le (f.of_int m) (f.of_int n) ≡ true
  pub sub_nonneg :
      (x y : A)
      → f.le (f.of_int (pos 0)) x ≡ true
      → f.le x y ≡ true
      → f.le y (f.of_decimal 10 1) ≡ true
      → f.le (f.of_int (pos 0)) (f.sub y x) ≡ true
  pub sub_le_one :
      (x y : A)
      → f.le (f.of_int (pos 0)) x ≡ true
      → f.le x y ≡ true
      → f.le y (f.of_decimal 10 1) ≡ true
      → f.le (f.sub y x) (f.of_decimal 10 1) ≡ true
  pub add_nonneg :
      (x y : A)
      → f.le (f.of_int (pos 0)) x ≡ true
      → f.le (f.of_int (pos 0)) y ≡ true
      → f.le x (f.add x y) ≡ true
  pub add_mono_right :
      (x y z : A)
      → f.le (f.of_int (pos 0)) x ≡ true
      → f.le (f.of_int (pos 0)) y ≡ true
      → f.le y z ≡ true
      → f.le (f.add x y) (f.add x z) ≡ true
  pub mul_mono_share :
      (x y z : A)
      → f.le (f.of_int (pos 0)) x ≡ true
      → f.le x (f.of_decimal 10 1) ≡ true
      → f.le (f.of_int (pos 0)) y ≡ true
      → f.le y z ≡ true
      → f.le z (f.of_decimal 10 1) ≡ true
      → f.le (f.mul x y) (f.mul x z) ≡ true
  pub mul_nonneg :
      (x y : A)
      → f.le (f.of_int (pos 0)) x ≡ true
      → f.le x (f.of_decimal 10 1) ≡ true
      → f.le (f.of_int (pos 0)) y ≡ true
      → f.le y (f.of_decimal 10 1) ≡ true
      → f.le (f.of_int (pos 0)) (f.mul x y) ≡ true
  pub scale_mono :
      (n : ℕ) (x y : A)
      → 0 < n
      → n < 256
      → f.le x y ≡ true
      → f.le (f.mul (f.of_int (pos n)) x) (f.mul (f.of_int (pos n)) y) ≡ true
  pub scale_le :
      (n : ℕ) (x : A)
      → n < 256
      → f.le (f.of_int (pos 0)) x ≡ true
      → f.le x (f.of_decimal 10 1) ≡ true
      → f.le (f.mul (f.of_int (pos n)) x) (f.of_int (pos n)) ≡ true
  pub div_mono_left :
      (x y : A) (n : ℤ)
      → pos 1 ≤ℤ n
      → n ≤ℤ pos 2147483647
      → f.le x y ≡ true
      → f.le (f.div x (f.of_int n)) (f.div y (f.of_int n)) ≡ true
  pub div_nonneg :
      (x : A) (n : ℤ)
      → pos 1 ≤ℤ n
      → n ≤ℤ pos 2147483647
      → f.le (f.of_int (pos 0)) x ≡ true
      → f.le (f.of_int (pos 0)) (f.div x (f.of_int n)) ≡ true
  pub div_le_one :
      (x : A) (n : ℤ)
      → pos 1 ≤ℤ n
      → n ≤ℤ pos 2147483647
      → f.le x (f.of_int n) ≡ true
      → f.le (f.div x (f.of_int n)) (f.of_decimal 10 1) ≡ true
  pub to_u8_mono : (x y : A) → f.le x y ≡ true → f.to_u8 x ≤ f.to_u8 y
  pub to_u8-of_int : (n : ℕ) → n < 256 → f.to_u8 (f.of_int (pos n)) ≡ n

-- `ClocksTableGen` of `amdgpu_sysfs`, with what the code does to a table.
pub record Overdrive (T : Type 0) : Type 0 where
  pub is_vega20 : T → Bool
  pub vddc_curve_is_empty : T → Bool
  pub clear : T → T
  pub normalize_vddc_curve : T → T
  pub set_voltage_offset : ℤ → T → Result T
  pub drop_voltage_offset : T → T
  pub set_min_sclk : ℤ → T → Result T
  pub set_min_mclk : ℤ → T → Result T
  pub set_min_voltage : ℤ → T → Result T
  pub set_max_sclk : ℤ → T → Result T
  pub set_max_mclk : ℤ → T → Result T
  pub set_max_voltage : ℤ → T → Result T

-- `PerformanceLevel`, `PowerLevelKind` with their derived `PartialEq`, and the values that the code
-- names.
pub record Platform : Type 1 where
  pub F32 : Type 0
  pub F64 : Type 0
  pub f32 : Float F32
  pub f64 : Float F64
  pub PerformanceLevel : Type 0
  pub level_eq : PerformanceLevel → PerformanceLevel → Bool
  pub auto : PerformanceLevel
  pub low : PerformanceLevel
  pub manual : PerformanceLevel
  pub PowerLevelKind : Type 0
  pub kind_eq : PowerLevelKind → PowerLevelKind → Bool
  pub core_clock : PowerLevelKind
  pub memory_clock : PowerLevelKind
  pub ClocksTable : Type 0
  pub overdrive : Overdrive ClocksTable
  pub CommitHandle : Type 0
