-- ===== src/System/Bits.antt =====
-- `|` and `&` of a mask with one bit, as arithmetic.
use Prim.Native.Nat.{bit_and, bit_or, digits, bit_and-bitwise, bit_or-bitwise}
use native.Mathlib.Nat.{pow-suc}
use lact.Prelude.{
  ℕ, zero, suc, ◌+◌, ◌*◌, ◌/◌, ◌%◌, ◌^◌, ◌≤◌, ◌<◌, min, max, ◌≡◌, refl, ap, ◌⊎◌, inl, inr, arith,
}

-- The recursion on binary digits that both operations stand for needs no more rounds than its
-- first number.
module _ (f : ℕ → ℕ) (g : ℕ → ℕ → ℕ) where
  rounds : (n m a b : ℕ) → a ≤ n → a ≤ m → digits f g n a b ≡ digits f g m a b
  rounds zero zero a b p q = refl
  rounds zero (suc m) zero b p q = refl
  rounds zero (suc m) (suc a) b p q = absurd (omega arith)
  rounds (suc n) zero zero b p q = refl
  rounds (suc n) zero (suc a) b p q = absurd (omega arith)
  rounds (suc n) (suc m) zero b p q = refl
  rounds (suc n) (suc m) (suc a) b p q =
      omega (arith, rounds n m (suc a / 2) (b / 2) (omega arith) (omega arith))

bit_or_halves : (a b : ℕ) → bit_or a b ≡ bit_or (a / 2) (b / 2) * 2 + max (a % 2) (b % 2)
bit_or_halves zero b = omega (arith, bit_or-bitwise 0 b, bit_or-bitwise 0 (b / 2))
bit_or_halves (suc a) b = omega (
  arith,
  bit_or-bitwise (suc a) b,
  bit_or-bitwise (suc a / 2) (b / 2),
  rounds (λ b. b) max a (suc a / 2) (suc a / 2) (b / 2) (omega arith) (omega arith),
)

bit_and_halves : (a b : ℕ) → bit_and a b ≡ bit_and (a / 2) (b / 2) * 2 + min (a % 2) (b % 2)
bit_and_halves zero b = omega (arith, bit_and-bitwise 0 b, bit_and-bitwise 0 (b / 2))
bit_and_halves (suc a) b = omega (
  arith,
  bit_and-bitwise (suc a) b,
  bit_and-bitwise (suc a / 2) (b / 2),
  rounds (λ b. zero) min a (suc a / 2) (suc a / 2) (b / 2) (omega arith) (omega arith),
)

-- No bits: by rounds, since a number is not smaller than its half only if it is 0.
or_none : (n a : ℕ) → a ≤ n → bit_or a 0 ≡ a
or_none n zero h = refl
or_none zero (suc a) h = absurd (omega arith)
or_none (suc n) (suc a) h =
    omega (arith, bit_or_halves (suc a) 0, or_none n (suc a / 2) (omega arith))

and_none : (n a : ℕ) → a ≤ n → bit_and a 0 ≡ 0
and_none n zero h = refl
and_none zero (suc a) h = absurd (omega arith)
and_none (suc n) (suc a) h =
    omega (arith, bit_and_halves (suc a) 0, and_none n (suc a / 2) (omega arith))

-- `m & (1 << k)` is the bit or 0.
pub and_bit : (k m : ℕ) → (bit_and m (2 ^ k) ≡ 0) ⊎ (bit_and m (2 ^ k) ≡ 2 ^ k)
and_bit zero m = and_last (m % 2) refl
  where
    and_last : (r : ℕ) → m % 2 ≡ r → (bit_and m 1 ≡ 0) ⊎ (bit_and m 1 ≡ 1)
    and_last zero e =
        inl (omega (arith, bit_and_halves m 1, and_none (m / 2) (m / 2) (omega arith)))
    and_last (suc r) e =
        inr (omega (arith, bit_and_halves m 1, and_none (m / 2) (m / 2) (omega arith)))
and_bit (suc k) m = elim (and_bit k (m / 2)) [
  | inl e ↦ inl (ground (arith, pow-suc 2 k, bit_and_halves m (2 ^ suc k)))
  | inr e ↦ inr (ground (arith, pow-suc 2 k, bit_and_halves m (2 ^ suc k)))
]

-- `m | (1 << k)` adds the bit if it is not there.
pub or_bit : (k m : ℕ) → bit_or m (2 ^ k) + bit_and m (2 ^ k) ≡ m + 2 ^ k
or_bit zero m = omega (
  arith,
  bit_or_halves m 1,
  bit_and_halves m 1,
  or_none (m / 2) (m / 2) (omega arith),
  and_none (m / 2) (m / 2) (omega arith),
)
or_bit (suc k) m = ground (
  arith,
  pow-suc 2 k,
  bit_or_halves m (2 ^ suc k),
  bit_and_halves m (2 ^ suc k),
  or_bit k (m / 2),
)

halves_of_or :
    (a b : ℕ) → (bit_or a b / 2 ≡ bit_or (a / 2) (b / 2)) × (bit_or a b % 2 ≡ max (a % 2) (b % 2))
halves_of_or a b = (omega (arith, bit_or_halves a b), omega (arith, bit_or_halves a b))

pub or_idem : (k m : ℕ) → bit_or (bit_or m (2 ^ k)) (2 ^ k) ≡ bit_or m (2 ^ k)
or_idem zero m = omega (
  arith,
  bit_or_halves (bit_or m 1) 1,
  bit_or_halves m 1,
  or_none (m / 2) (m / 2) (omega arith),
  or_none (bit_or m 1 / 2) (bit_or m 1 / 2) (omega arith),
)
or_idem (suc k) m =
    let b = 2 ^ suc k in
    let half : b / 2 ≡ 2 ^ k = omega (arith, pow-suc 2 k) in
    let (quotient, remainder) = halves_of_or m b in
    let same : bit_or (bit_or m b / 2) (b / 2) ≡ bit_or m b / 2 =
      rw (quotient, half) (or_idem k (m / 2)) in
    omega (arith, bit_or_halves (bit_or m b) b, same, quotient, remainder)

pub or_fits : (w m b : ℕ) → m < 2 ^ w → b < 2 ^ w → bit_or m b < 2 ^ w
or_fits zero m b p q =
    let none : m ≡ 0 = omega arith in omega (arith, ap (λ x. bit_or x b) none, bit_or-bitwise 0 b)
or_fits (suc w) m b p q = ground (arith, pow-suc 2 w, bit_or_halves m b, or_fits w (m / 2) (b / 2))
