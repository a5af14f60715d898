-- ===== src/Prelude/Bits/Xor.antt =====
-- Exclusive or.
use Prim.Native.Nat.{ℕ, zero, suc, ◌+◌, ◌-◌, ◌*◌, ◌/◌, ◌%◌, ◌^◌, ◌≤◌, bit_xor, differ}
use mathlib.Core.Path.{◌≡◌, refl, sym, ap, ◌∙◌}
use native.Mathlib.Nat.{pow-suc, pow-succ', one-le-pow, div-div-eq-div-mul, div-one}
use native.Mathlib.Omega.{arith}
use tiny_processors.Prelude.Bits.Digits.{bit_xor_digit}
use tiny_processors.Prelude.Bits.Laws.{bit_xor-half}
use tiny_processors.Prelude.Bits.Words.{mod-half, mod-low}

differ_self : (a : ℕ) → differ a a ≡ 0
differ_self zero = refl
differ_self (suc a) = differ_self a

differ_none : (a b : ℕ) → differ a b ≡ 0 → a ≡ b
differ_none zero b h = sym h
differ_none (suc a) zero h = h
differ_none (suc a) (suc b) h = ap suc (differ_none a b h)

bit_xor_self_rounds : (n a : ℕ) → a ≤ n → bit_xor a a ≡ 0
bit_xor_self_rounds n zero h = refl
bit_xor_self_rounds zero (suc a) h = elim h [ ]
bit_xor_self_rounds (suc n) (suc a) h = omega (
  arith,
  bit_xor_digit (suc a) (suc a),
  differ_self (suc a % 2),
  bit_xor_self_rounds n (suc a / 2) (omega arith),
)

pub bit_xor_self : (a : ℕ) → bit_xor a a ≡ 0
bit_xor_self a = bit_xor_self_rounds a a (omega arith)

bit_xor_zero_rounds : (n a b : ℕ) → a ≤ n → b ≤ n → bit_xor a b ≡ 0 → a ≡ b
bit_xor_zero_rounds zero a b p q h = omega arith
bit_xor_zero_rounds (suc n) a b p q h = omega (
  arith,
  bit_xor_digit a b,
  differ_none (a % 2) (b % 2) (omega (arith, bit_xor_digit a b)),
  bit_xor_zero_rounds n (a / 2) (b / 2) (omega arith) (omega arith)
      (omega (arith, bit_xor_digit a b)),
)

pub bit_xor_zero : (a b : ℕ) → bit_xor a b ≡ 0 → a ≡ b
bit_xor_zero a b h = bit_xor_zero_rounds (a + b) a b (omega arith) (omega arith) h

pub bit_xor-div : (k a b : ℕ) → bit_xor a b / 2 ^ k ≡ bit_xor (a / 2 ^ k) (b / 2 ^ k)
bit_xor-div zero a b = rw (div-one (bit_xor a b), div-one a, div-one b)
bit_xor-div (suc k) a b =
    rw (halves (bit_xor a b), halves a, halves b, bit_xor-half a b) (bit_xor-div k (a / 2) (b / 2))
  where
    halves : (x : ℕ) → x / 2 ^ suc k ≡ x / 2 / 2 ^ k
    halves x = ap (λ (t : ℕ). x / t) (pow-succ' 2 k) ∙ sym (div-div-eq-div-mul x 2 (2 ^ k))

even_next : (a : ℕ) → a % 2 ≡ 0 → bit_xor a (a + 1) ≡ 1
even_next a h =
    let half : (a + 1) / 2 ≡ a / 2 = omega arith in
    let odd : (a + 1) % 2 ≡ 1 = omega arith in
    omega (arith, bit_xor_digit a (a + 1), digit half odd)
  where
    digit :
        (a + 1) / 2 ≡ a / 2
        → (a + 1) % 2 ≡ 1
        → bit_xor (a / 2) ((a + 1) / 2) * 2 + differ (a % 2) ((a + 1) % 2) ≡ 1
    digit half odd = rw (half, odd, h, bit_xor_self (a / 2))

odd_next : (a : ℕ) → a % 2 ≡ 1 → bit_xor a (a + 1) ≡ bit_xor (a / 2) (a / 2 + 1) * 2 + 1
odd_next a h =
    let half : (a + 1) / 2 ≡ a / 2 + 1 = omega arith in
    let even : (a + 1) % 2 ≡ 0 = omega arith in bit_xor_digit a (a + 1) ∙ rw (half, even, h)

-- `a ^ (a + 1)` is ones up to the lowest zero of `a`.
pub bit_xor-add_one : (t a : ℕ) → a % 2 ^ suc t ≡ 2 ^ t - 1 → bit_xor a (a + 1) ≡ 2 ^ suc t - 1
bit_xor-add_one zero a h = even_next a h
bit_xor-add_one (suc t) a h = omega (
  arith,
  odd_next a (omega (arith, mod-low a (suc t), pow-suc 2 t, one-le-pow t 2)),
  bit_xor-add_one t (a / 2) (omega (arith, mod-half a (suc t), pow-suc 2 t, one-le-pow t 2)),
  pow-suc 2 (suc t),
  one-le-pow (suc t) 2,
)
