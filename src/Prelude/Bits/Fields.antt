-- ===== src/Prelude/Bits/Fields.antt =====
-- Masks of high bits.
use Prim.Native.Nat.{ℕ, zero, suc, ◌+◌, ◌-◌, ◌*◌, ◌/◌, ◌^◌, ◌<◌, bit_and, bit_or, ◌≤◌}
use mathlib.Core.Path.{◌≡◌, sym, ap, ◌∙◌}
use native.Mathlib.Nat.{
  pow-suc, pow-succ', div-div-eq-div-mul, mod-eq_of_lt, div-one, mul-one, zero-add, suc-add,
}
use native.Mathlib.Omega.{arith}
use tiny_processors.Prelude.Bits.Digits.{bit_and_digit, bit_or_digit}
use tiny_processors.Prelude.Bits.Words.{bit_and-mask}

-- A mask of `j` ones above `k` zeros clears the low `k` bits of a word of `j + k` bits.
pub bit_and-high_mask :
    (j k x : ℕ) → x < 2 ^ j * 2 ^ k → bit_and x ((2 ^ j - 1) * 2 ^ k) ≡ x / 2 ^ k * 2 ^ k
bit_and-high_mask j zero x h =
    rw (mul-one (2 ^ j - 1), div-one x, bit_and-mask j x)
      (mod-eq_of_lt (omega (arith, h)) ∙ sym (mul-one x))
bit_and-high_mask j (suc k) x h = ground (
  arith,
  bit_and_digit x ((2 ^ j - 1) * 2 ^ suc k),
  doubled,
  halved,
  bit_and-high_mask j k (x / 2) bound,
  quotients,
  ap (λ (t : ℕ). x / 2 ^ suc k * t) (pow-suc 2 k),
)
  where
    doubled : (2 ^ j - 1) * 2 ^ suc k ≡ (2 ^ j - 1) * 2 ^ k * 2
    doubled = omega (arith, ap (λ (t : ℕ). (2 ^ j - 1) * t) (pow-suc 2 k))

    halved : (2 ^ j - 1) * 2 ^ suc k / 2 ≡ (2 ^ j - 1) * 2 ^ k
    halved = omega (arith, doubled)

    bound : x / 2 < 2 ^ j * 2 ^ k
    bound = omega (arith, ap (λ (t : ℕ). 2 ^ j * t) (pow-suc 2 k))

    quotients : x / 2 / 2 ^ k ≡ x / 2 ^ suc k
    quotients = div-div-eq-div-mul x 2 (2 ^ k) ∙ ap (λ (t : ℕ). x / t) (sym (pow-succ' 2 k))

bit_or_comm_rounds : (n a b : ℕ) → a ≤ n → b ≤ n → bit_or a b ≡ bit_or b a
bit_or_comm_rounds zero a b p q =
    let e : a ≡ 0 = omega arith in let f : b ≡ 0 = omega arith in rw (e, f)
bit_or_comm_rounds (suc n) a b p q = omega (
  arith,
  bit_or_digit a b,
  bit_or_digit b a,
  bit_or_comm_rounds n (a / 2) (b / 2) (omega arith) (omega arith),
)

pub bit_or_comm : (a b : ℕ) → bit_or a b ≡ bit_or b a
bit_or_comm a b = bit_or_comm_rounds (a + b) a b (omega arith) (omega arith)

pub two_pow-add : (j k : ℕ) → 2 ^ (j + k) ≡ 2 ^ j * 2 ^ k
two_pow-add zero k = rw zero-add (omega arith)
two_pow-add (suc j) k = rw (suc-add, pow-suc 2 (j + k), two_pow-add j k, pow-suc 2 j) (omega arith)
