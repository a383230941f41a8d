-- ===== src/Base/Bits.antt =====
-- The bitwise operations at variables: one equation for the lowest digit of each, and what the
-- program needs of them.
use Prim.Native.Nat.{ℕ, zero, suc, ◌+◌, ◌*◌, ◌/◌, ◌%◌, ◌^◌, ◌≤◌, ◌<◌, max, digits, bitwise, differ}
use Prim.Native.Nat.{bit_or, bit_xor, bit_or-bitwise, bit_xor-bitwise}
use mathlib.Core.Path.{◌≡◌, refl, sym, ap, ◌∙◌}
use native.Mathlib.Omega.{arith}
use native.Mathlib.Nat.{le_refl, pow-suc}

module _ (z : ℕ → ℕ) (f : ℕ → ℕ → ℕ) where
  digits-zero : (fuel b : ℕ) → digits z f fuel 0 b ≡ z b
  digits-zero zero b = refl
  digits-zero (suc fuel) b = refl

  -- Two amounts of fuel that are both enough.
  digits_agree :
      (fuel more a b : ℕ) → a ≤ fuel → a ≤ more → digits z f fuel a b ≡ digits z f more a b
  digits_agree fuel more zero b h k = digits-zero fuel b ∙ sym (digits-zero more b)
  digits_agree zero more (suc a) b h k = absurd (omega arith)
  digits_agree (suc fuel) zero (suc a) b h k = absurd (omega arith)
  digits_agree (suc fuel) (suc more) (suc a) b h k =
      ap (λ (high : ℕ). high * 2 + f (suc a % 2) (b % 2))
        (digits_agree fuel more (suc a / 2) (b / 2) (omega arith) (omega arith))

  lowest_digit :
      (a b : ℕ) → 0 < a → bitwise z f a b ≡ f (a % 2) (b % 2) + 2 * bitwise z f (a / 2) (b / 2)
  lowest_digit zero b h = absurd (omega arith)
  lowest_digit (suc a) b h =
      omega (arith, digits_agree (suc a / 2) a (suc a / 2) (b / 2) (le_refl _) (omega arith))

zero-bit_or : (b : ℕ) → bit_or 0 b ≡ b
zero-bit_or b = simp bit_or-bitwise

zero-bit_xor : (b : ℕ) → bit_xor 0 b ≡ b
zero-bit_xor b = simp bit_xor-bitwise

pub bit_or_step : (a b : ℕ) → bit_or a b ≡ max (a % 2) (b % 2) + 2 * bit_or (a / 2) (b / 2)
bit_or_step zero b = omega (arith, zero-bit_or b, zero-bit_or (b / 2))
bit_or_step (suc a) b = simp bit_or-bitwise (lowest_digit (λ y. y) max (suc a) b (omega arith))

differ_none : (b : ℕ) → differ 0 b ≡ b
differ_none b = refl

pub bit_xor_step : (a b : ℕ) → bit_xor a b ≡ differ (a % 2) (b % 2) + 2 * bit_xor (a / 2) (b / 2)
bit_xor_step zero b = omega (arith, zero-bit_xor b, zero-bit_xor (b / 2), differ_none (b % 2))
bit_xor_step (suc a) b = simp bit_xor-bitwise (lowest_digit (λ y. y) differ (suc a) b (omega arith))

differ_digits : (x y : ℕ) → x < 2 → y < 2 → (differ x y < 2) × (differ x y ≡ 0 → x ≡ y)
differ_digits zero y p q = (q, λ e. omega arith)
differ_digits (suc zero) zero p q = (omega arith, λ e. omega arith)
differ_digits (suc zero) (suc zero) p q = (omega arith, λ e. refl)
differ_digits (suc zero) (suc (suc y)) p q = absurd (omega arith)
differ_digits (suc (suc x)) y p q = absurd (omega arith)

-- Below a power of two, by induction on the width.
pub bit_or_lt : (k a b : ℕ) → a < 2 ^ k → b < 2 ^ k → bit_or a b < 2 ^ k
bit_or_lt zero zero b p q = omega (arith, zero-bit_or b)
bit_or_lt zero (suc a) b p q = absurd (omega arith)
bit_or_lt (suc k) a b p q = omega (arith, bit_or_step a b, pow-suc 2 k, bit_or_lt k (a / 2) (b / 2))

pub bit_or_eq_zero : (k a b : ℕ) → a < 2 ^ k → bit_or a b ≡ 0 → (a ≡ 0) × (b ≡ 0)
bit_or_eq_zero zero zero b p e = (refl, omega (arith, zero-bit_or b))
bit_or_eq_zero zero (suc a) b p e = absurd (omega arith)
bit_or_eq_zero (suc k) a b p e =
    let (x, y) =
      bit_or_eq_zero k (a / 2) (b / 2) (omega (arith, pow-suc 2 k))
        (omega (arith, bit_or_step a b)) in
    (omega (arith, bit_or_step a b), omega (arith, bit_or_step a b))

pub bit_xor_lt : (k a b : ℕ) → a < 2 ^ k → b < 2 ^ k → bit_xor a b < 2 ^ k
bit_xor_lt zero zero b p q = omega (arith, zero-bit_xor b)
bit_xor_lt zero (suc a) b p q = absurd (omega arith)
bit_xor_lt (suc k) a b p q = omega (
  arith,
  bit_xor_step a b,
  pow-suc 2 k,
  bit_xor_lt k (a / 2) (b / 2),
  (differ_digits (a % 2) (b % 2) (omega arith) (omega arith)).0,
)

pub bit_xor_eq_zero : (k a b : ℕ) → a < 2 ^ k → bit_xor a b ≡ 0 → a ≡ b
bit_xor_eq_zero zero zero b p e = omega (arith, zero-bit_xor b)
bit_xor_eq_zero zero (suc a) b p e = absurd (omega arith)
bit_xor_eq_zero (suc k) a b p e =
    let half =
      bit_xor_eq_zero k (a / 2) (b / 2) (omega (arith, pow-suc 2 k))
        (omega (arith, bit_xor_step a b)) in
    let low =
      (differ_digits (a % 2) (b % 2) (omega arith) (omega arith)).1
        (omega (arith, bit_xor_step a b)) in
    omega arith

differ_self : (x : ℕ) → differ x x ≡ 0
differ_self zero = refl
differ_self (suc x) = differ_self x

pub bit_xor_self : (k a : ℕ) → a < 2 ^ k → bit_xor a a ≡ 0
bit_xor_self zero zero p = zero-bit_xor 0
bit_xor_self zero (suc a) p = absurd (omega arith)
bit_xor_self (suc k) a p =
    omega (arith, bit_xor_step a a, pow-suc 2 k, bit_xor_self k (a / 2), differ_self (a % 2))

-- A field above the bits of `a` is added.
pub bit_or_high : (k a q : ℕ) → a < 2 ^ k → bit_or a (q * 2 ^ k) ≡ a + q * 2 ^ k
bit_or_high zero zero q p = omega (arith, zero-bit_or (q * 2 ^ 0))
bit_or_high zero (suc a) q p = absurd (omega arith)
bit_or_high (suc k) a q p =
    let e : q * 2 ^ suc k ≡ 2 * (q * 2 ^ k) = omega (arith, ap (λ (t : ℕ). q * t) (pow-suc 2 k)) in
    ground (arith, pow-suc 2 k, bit_or_step a (q * 2 ^ suc k), bit_or_high k (a / 2) q)
