-- ===== src/Prelude/Bits/Laws.antt =====
-- Bit `k` of a number, and the laws of the bit operations in terms of it.
use Prim.Native.Nat.{ℕ, zero, suc, ◌/◌, ◌%◌, ◌^◌, ◌≤◌, ◌<◌, min, max}
use Prim.Native.Nat.{bit_and, bit_or, bit_xor, differ}
use mathlib.Core.Path.{◌≡◌, refl, ◌∙◌}
use mathlib.Core.Bool.{Bool, false, ◌&&◌, ◌||◌, xor}
use native.Mathlib.Nat.{pow-suc}
use native.Mathlib.Omega.{arith}
use tiny_processors.Prelude.Tests.{◌==◌}
use tiny_processors.Prelude.Bits.Digits.{bit_and_digit, bit_or_digit, bit_xor_digit}

-- Bit `k` of `x`.
unfoldable pub test : ℕ → ℕ → Bool
test x zero = x % 2 == 1
test x (suc k) = test (x / 2) k

pub test-zero : (k : ℕ) → test 0 k ≡ false
unfolding test
test-zero zero = refl
test-zero (suc k) = test-zero k

min_digits : (a b : ℕ) → min (a % 2) (b % 2) < 2
min_digits a b = omega arith

max_digits : (a b : ℕ) → max (a % 2) (b % 2) < 2
max_digits a b = omega arith

differ_digits :
    (a b : ℕ) → a < 2 → b < 2 → (differ a b < 2) × ((differ a b == 1) ≡ xor (a == 1) (b == 1))
unfolding xor
differ_digits zero zero p q = (omega arith, refl)
differ_digits zero (suc zero) p q = (omega arith, refl)
differ_digits zero (suc (suc b)) p q = absurd (omega arith)
differ_digits (suc zero) zero p q = (omega arith, refl)
differ_digits (suc zero) (suc zero) p q = (omega arith, refl)
differ_digits (suc zero) (suc (suc b)) p q = absurd (omega arith)
differ_digits (suc (suc a)) b p q = absurd (omega arith)

pub bit_and-half : (a b : ℕ) → bit_and a b / 2 ≡ bit_and (a / 2) (b / 2)
bit_and-half a b = omega (arith, bit_and_digit a b, min_digits a b)

pub bit_or-half : (a b : ℕ) → bit_or a b / 2 ≡ bit_or (a / 2) (b / 2)
bit_or-half a b = omega (arith, bit_or_digit a b, max_digits a b)

pub bit_xor-half : (a b : ℕ) → bit_xor a b / 2 ≡ bit_xor (a / 2) (b / 2)
bit_xor-half a b =
    omega (arith, bit_xor_digit a b, (differ_digits (a % 2) (b % 2) (omega arith) (omega arith)).0)

pub test-and : (a b k : ℕ) → test (bit_and a b) k ≡ test a k && test b k
unfolding test
test-and a b zero = ground (arith, bit_and_digit a b)
test-and a b (suc k) = rw (bit_and-half a b) (test-and (a / 2) (b / 2) k)

pub test-or : (a b k : ℕ) → test (bit_or a b) k ≡ test a k || test b k
unfolding test
test-or a b zero = ground (arith, bit_or_digit a b)
test-or a b (suc k) = rw (bit_or-half a b) (test-or (a / 2) (b / 2) k)

bit_xor_low : (a b : ℕ) → bit_xor a b % 2 ≡ differ (a % 2) (b % 2)
bit_xor_low a b =
    omega (arith, bit_xor_digit a b, (differ_digits (a % 2) (b % 2) (omega arith) (omega arith)).0)

pub test-xor : (a b k : ℕ) → test (bit_xor a b) k ≡ xor (test a k) (test b k)
unfolding test
test-xor a b zero =
    rw (bit_xor_low a b) (differ_digits (a % 2) (b % 2) (omega arith) (omega arith)).1
test-xor a b (suc k) = rw (bit_xor-half a b) (test-xor (a / 2) (b / 2) k)

-- A word is determined by its bits.
pub test_ext : (w x y : ℕ) → x < 2 ^ w → y < 2 ^ w → ((k : ℕ) → test x k ≡ test y k) → x ≡ y
unfolding test
test_ext zero x y p q h = omega arith
test_ext (suc w) x y p q h = ground (
  arith,
  h 0,
  test_ext w (x / 2) (y / 2) (omega (arith, pow-suc 2 w)) (omega (arith, pow-suc 2 w))
      (λ k. h (suc k)),
)

pub test_past : (w x k : ℕ) → x < 2 ^ w → w ≤ k → test x k ≡ false
unfolding test
test_past zero x k p q = rw low (test-zero k)
  where
    low : x ≡ 0
    low = omega arith
test_past (suc w) x zero p q = elim q [ ]
test_past (suc w) x (suc k) p q = test_past w (x / 2) k (omega (arith, pow-suc 2 w)) (omega arith)

pub test-two_pow : (n k : ℕ) → test (2 ^ n) k ≡ (n == k)
unfolding test
test-two_pow zero zero = refl
test-two_pow zero (suc k) = rw (test-zero k) (ground arith)
test-two_pow (suc n) zero = ground (arith, pow-suc 2 n)
test-two_pow (suc n) (suc k) = rw half (test-two_pow n k ∙ ground arith)
  where
    half : 2 ^ suc n / 2 ≡ 2 ^ n
    half = omega (arith, pow-suc 2 n)
