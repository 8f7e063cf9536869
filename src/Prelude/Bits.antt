-- ===== src/Prelude/Bits.antt =====
-- `^`, `|` and `&` on bytes, from the digit recursion that the native operations stand for.
use Prim.Native.Nat.{digits, bitwise, differ, bit_or-bitwise, bit_xor-bitwise}
use Prim.Native.Nat.{ℕ, zero, suc, ◌+◌, ◌*◌, ◌/◌, ◌%◌, ◌≤◌, ◌<◌, max, bit_and, bit_or, bit_xor}
use mathlib.Core.Path.{◌≡◌, refl}
use mathlib.Core.Bool.{Bool, true, false}
use native.Mathlib.Omega.{arith}
use quicview.Prelude.Tests.{◌==◌, ==_iff, if◌then◌else◌}

module _ (z : ℕ → ℕ) (f : ℕ → ℕ → ℕ) where
  -- More fuel than the number has digits changes nothing.
  digits_enough : (n m a b : ℕ) → a ≤ n → a ≤ m → digits z f n a b ≡ digits z f m a b
  digits_enough zero zero a b p q = refl
  digits_enough zero (suc m) zero b p q = refl
  digits_enough zero (suc m) (suc a) b p q = absurd (omega arith)
  digits_enough (suc n) zero zero b p q = refl
  digits_enough (suc n) zero (suc a) b p q = absurd (omega arith)
  digits_enough (suc n) (suc m) zero b p q = refl
  digits_enough (suc n) (suc m) (suc a) b p q =
      omega (arith, digits_enough n m (suc a / 2) (b / 2) (omega arith) (omega arith))

  lowest_digit :
      (a b : ℕ)
      → bitwise z f (suc a) b ≡ bitwise z f (suc a / 2) (b / 2) * 2 + f (suc a % 2) (b % 2)
  lowest_digit a b =
      omega (arith, digits_enough a (suc a / 2) (suc a / 2) (b / 2) (omega arith) (omega arith))

zero-bit_xor : (b : ℕ) → bit_xor 0 b ≡ b
zero-bit_xor b = bit_xor-bitwise 0 b

bit_xor-suc :
    (a b : ℕ) → bit_xor (suc a) b ≡ bit_xor (suc a / 2) (b / 2) * 2 + differ (suc a % 2) (b % 2)
bit_xor-suc a b = omega (
  arith,
  bit_xor-bitwise (suc a) b,
  bit_xor-bitwise (suc a / 2) (b / 2),
  lowest_digit (λ y. y) differ a b,
)

zero-bit_or : (b : ℕ) → bit_or 0 b ≡ b
zero-bit_or b = bit_or-bitwise 0 b

bit_or-suc : (a b : ℕ) → bit_or (suc a) b ≡ bit_or (suc a / 2) (b / 2) * 2 + max (suc a % 2) (b % 2)
bit_or-suc a b = omega (
  arith,
  bit_or-bitwise (suc a) b,
  bit_or-bitwise (suc a / 2) (b / 2),
  lowest_digit (λ y. y) max a b,
)

-- Two binary digits.
differ_digits :
    (x y : ℕ)
    → x < 2
    → y < 2
    → (differ x y + x + y ≡ 2 * max x y) × (differ x y < 2) × (differ (differ x y) y ≡ x)
differ_digits zero zero h k = omega arith
differ_digits zero (suc zero) h k = omega arith
differ_digits zero (suc (suc y)) h k = absurd (omega arith)
differ_digits (suc zero) zero h k = omega arith
differ_digits (suc zero) (suc zero) h k = omega arith
differ_digits (suc zero) (suc (suc y)) h k = absurd (omega arith)
differ_digits (suc (suc x)) y h k = absurd (omega arith)

-- The lowest digit splits off whether or not the first number is zero.
bit_xor_digit : (a b : ℕ) → bit_xor a b ≡ bit_xor (a / 2) (b / 2) * 2 + differ (a % 2) (b % 2)
bit_xor_digit zero b = omega (arith, zero-bit_xor b, zero-bit_xor (b / 2))
bit_xor_digit (suc a) b = bit_xor-suc a b

bit_or_digit : (a b : ℕ) → bit_or a b ≡ bit_or (a / 2) (b / 2) * 2 + max (a % 2) (b % 2)
bit_or_digit zero b = omega (arith, zero-bit_or b, zero-bit_or (b / 2))
bit_or_digit (suc a) b = bit_or-suc a b

bit_xor_halves :
    (a b : ℕ)
    → (bit_xor a b / 2 ≡ bit_xor (a / 2) (b / 2)) × (bit_xor a b % 2 ≡ differ (a % 2) (b % 2))
bit_xor_halves a b =
    omega (arith, bit_xor_digit a b, differ_digits (a % 2) (b % 2) (omega arith) (omega arith))

bit_xor_cancel_fuel : (n a b : ℕ) → a ≤ n → b ≤ n → bit_xor (bit_xor a b) b ≡ a
bit_xor_cancel_fuel zero zero zero h k = refl
bit_xor_cancel_fuel zero zero (suc b) h k = absurd (omega arith)
bit_xor_cancel_fuel zero (suc a) b h k = absurd (omega arith)
bit_xor_cancel_fuel (suc n) a b h k =
    rw
      (
        bit_xor_digit (bit_xor a b) b,
        (bit_xor_halves a b).0,
        (bit_xor_halves a b).1,
        (differ_digits (a % 2) (b % 2) (omega arith) (omega arith)).2,
        bit_xor_cancel_fuel n (a / 2) (b / 2) (omega arith) (omega arith),
      )
      (omega arith)

-- Applying the same mask twice gives the number back.
pub bit_xor_cancel : (a b : ℕ) → bit_xor (bit_xor a b) b ≡ a
bit_xor_cancel a b = bit_xor_cancel_fuel (a + b) a b (omega arith) (omega arith)

bit_xor-zero_fuel : (n a b : ℕ) → a ≤ n → bit_xor a b ≡ 0 → a ≡ b
bit_xor-zero_fuel zero zero b h e = omega (arith, zero-bit_xor b)
bit_xor-zero_fuel zero (suc a) b h e = absurd (omega arith)
bit_xor-zero_fuel (suc n) a b h e = omega (
  arith,
  bit_xor_halves a b,
  bit_xor-zero_fuel n (a / 2) (b / 2) (omega arith) (omega (arith, bit_xor_halves a b)),
  differ_digits (a % 2) (b % 2) (omega arith) (omega arith),
)

bit_xor_self_fuel : (n a : ℕ) → a ≤ n → bit_xor a a ≡ 0
bit_xor_self_fuel zero zero h = refl
bit_xor_self_fuel zero (suc a) h = absurd (omega arith)
bit_xor_self_fuel (suc n) a h = omega (
  arith,
  bit_xor_digit a a,
  bit_xor_self_fuel n (a / 2) (omega arith),
  differ_digits (a % 2) (a % 2) (omega arith) (omega arith),
)

pub bit_xor_self : (a : ℕ) → bit_xor a a ≡ 0
bit_xor_self a = bit_xor_self_fuel a a (omega arith)

-- Two numbers differ in no digit exactly when they are equal.
pub bit_xor-eq-zero : (a b : ℕ) → bit_xor a b ≡ 0 → a ≡ b
bit_xor-eq-zero a b e = bit_xor-zero_fuel a a b (omega arith) e

bit_xor_fixed_fuel : (n a b : ℕ) → b ≤ n → bit_xor a b ≡ a → b ≡ 0
bit_xor_fixed_fuel zero a b h e = omega arith
bit_xor_fixed_fuel (suc n) a b h e = omega (
  arith,
  bit_xor_halves a b,
  bit_xor_fixed_fuel n (a / 2) (b / 2) (omega arith) (omega (arith, bit_xor_halves a b)),
  differ_digits (a % 2) (b % 2) (omega arith) (omega arith),
)

-- Only the mask 0 changes nothing.
pub bit_xor_fixed : (a b : ℕ) → bit_xor a b ≡ a → b ≡ 0
bit_xor_fixed a b e = bit_xor_fixed_fuel b a b (omega arith) e

bit_xor-zero_right_fuel : (n a : ℕ) → a ≤ n → bit_xor a 0 ≡ a
bit_xor-zero_right_fuel zero a h = rw (let e : a ≡ 0 = omega arith in e) refl
bit_xor-zero_right_fuel (suc n) a h = omega (
  arith,
  bit_xor_digit a 0,
  bit_xor-zero_right_fuel n (a / 2) (omega arith),
  differ_digits (a % 2) 0 (omega arith) (omega arith),
)

pub bit_xor-zero_right : (a : ℕ) → bit_xor a 0 ≡ a
bit_xor-zero_right a = bit_xor-zero_right_fuel a a (omega arith)

bit_or-zero_fuel : (n a b : ℕ) → a ≤ n → bit_or a b ≡ 0 → (a ≡ 0) × (b ≡ 0)
bit_or-zero_fuel zero zero b h e = omega (arith, zero-bit_or b)
bit_or-zero_fuel zero (suc a) b h e = absurd (omega arith)
bit_or-zero_fuel (suc n) a b h e = omega (
  arith,
  bit_or_digit a b,
  bit_or-zero_fuel n (a / 2) (b / 2) (omega arith) (omega (arith, bit_or_digit a b)),
)

pub bit_or-eq-zero : (a b : ℕ) → bit_or a b ≡ 0 → (a ≡ 0) × (b ≡ 0)
bit_or-eq-zero a b e = bit_or-zero_fuel a a b (omega arith) e

-- A test of every number below a bound, run when the bound is small.
passes : (ℕ → Bool) → ℕ → Bool
passes test zero = true
passes test (suc bound) = let lower = passes test bound in if test bound then lower else false

passes_at : (test : ℕ → Bool) (bound k : ℕ) → k < bound → passes test bound ≡ true → test k ≡ true
unfolding passes
passes_at test zero k below ran = absurd (omega arith)
passes_at test (suc bound) k below ran = ground (arith, passes_at test bound k)

low_bits_ran : passes (λ v. bit_and v 0x7f == v % 128) 256 ≡ true
unfolding passes
low_bits_ran = refl

top_bit_ran : passes (λ v. bit_and v 0x80 == v / 128 * 128) 256 ≡ true
unfolding passes
top_bit_ran = refl

pub bit_and_low_seven : (v : ℕ) → v < 256 → bit_and v 0x7f ≡ v % 128
bit_and_low_seven v below = (==_iff _ _).0 (passes_at _ 256 v below low_bits_ran)

pub bit_and_top : (v : ℕ) → v < 256 → bit_and v 0x80 ≡ v / 128 * 128
bit_and_top v below = (==_iff _ _).0 (passes_at _ 256 v below top_bit_ran)
