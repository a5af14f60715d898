-- ===== src/Prelude/Bits/Single.antt =====
-- Single bits: `(x >> k) & 1u`, `x | 1u << n`, `x & ~(1u << n)`.
use Prim.Native.Nat.{ℕ, ◌/◌, ◌^◌, ◌<◌, bit_and, bit_or}
use mathlib.Core.Path.{◌≡◌, ◌∙◌}
use mathlib.Core.Bool.{not, ◌&&◌, ◌||◌}
use native.Mathlib.Nat.{add-zero, pow-le-pow_right, pow-suc, one-le-pow}
use native.Mathlib.Omega.{arith}
use tiny_processors.Prelude.Tests.{◌==◌, ◌!=◌}
use tiny_processors.Prelude.Bits.Laws.{test, test_ext, test-and, test-or, test-two_pow, test_past}
use tiny_processors.Prelude.Bits.Words.{
  flip, has, has_bit, test-shr, test-flip, bit_or-lt, bit_and-lt_right,
}

pub has-shr : (a k : ℕ) → has (a / 2 ^ k) 1 ≡ test a k
has-shr a k = has_bit 0 (a / 2 ^ k) ∙ test-shr a k 0 ∙ rw add-zero

pub two_pow-lt : (n w : ℕ) → n < w → 2 ^ n < 2 ^ w
two_pow-lt n w h =
    omega (arith, pow-le-pow_right {n = 2} (omega arith) h, pow-suc 2 n, one-le-pow n 2)

pub test-set : (x n k : ℕ) → test (bit_or x (2 ^ n)) k ≡ (test x k || k == n)
test-set x n k = ground (arith, test-or x (2 ^ n) k, test-two_pow n k)

-- Clearing any bits of a word.
pub test-and_not :
    (w x y k : ℕ)
    → x < 2 ^ w
    → y < 2 ^ w
    → test (bit_and x (flip w y)) k ≡ (test x k && not (test y k))
test-and_not w x y k hx hy =
    ground (arith, test-and x (flip w y) k, test-flip w y k, test_past w x k hx)

pub test-clear :
    (w x n k : ℕ) → n < w → x < 2 ^ w → test (bit_and x (flip w (2 ^ n))) k ≡ (test x k && k != n)
test-clear w x n k h hx =
    ground (arith, test-and_not w x (2 ^ n) k hx (two_pow-lt n w h), test-two_pow n k)

-- A mask in two parts.
pub bit_and-or :
    (w a b c : ℕ)
    → b < 2 ^ w
    → c < 2 ^ w
    → bit_and a (bit_or b c) ≡ bit_or (bit_and a b) (bit_and a c)
bit_and-or w a b c hb hc =
    test_ext w _ _ (bit_and-lt_right w a (bit_or b c) (bit_or-lt w b c hb hc))
      (bit_or-lt w _ _ (bit_and-lt_right w a b hb) (bit_and-lt_right w a c hc))
      λ k. ground (
        arith,
        test-and a (bit_or b c) k,
        test-or b c k,
        test-or (bit_and a b) (bit_and a c) k,
        test-and a b k,
        test-and a c k,
      )
