-- ===== src/Prelude/Bits/Words.antt =====
-- Shifts, masks, complements and bounds of words.
use Prim.Native.Nat.{ℕ, zero, suc, ◌+◌, ◌-◌, ◌*◌, ◌/◌, ◌%◌, ◌^◌, ◌≤◌, ◌<◌, bit_and, bit_or, bit_xor}
use Prim.Native.Nat.{bit_and-bitwise}
use mathlib.Core.Path.{◌≡◌, refl, sym, ap, ◌∙◌}
use mathlib.Core.Bool.{Bool, false, not, ◌&&◌}
use native.Mathlib.Nat.{
  pow-suc, pow-succ', one-le-pow, div-div-eq-div-mul, div-one, zero-add, suc-add,
}
use native.Mathlib.Nat.{mul-add-mod_self_right, mod-eq_of_lt, div-add-mod'}
use native.Mathlib.Omega.{arith}
use tiny_processors.Prelude.Tests.{ltb, ◌!=◌, if◌then◌else◌}
use tiny_processors.Prelude.Bits.Digits.{bit_and_digit, bit_or_digit}
use tiny_processors.Prelude.Bits.Laws.{test, test-zero, bit_and-half, bit_or-half, bit_xor-half}

-- `~x` of a word of `w` bits.
abbrev pub flip : ℕ → ℕ → ℕ
flip w x = 2 ^ w - 1 - x

-- `x & mask` read as a condition.
abbrev pub has : ℕ → ℕ → Bool
has x mask = bit_and x mask != 0

pub test-flip : (w x k : ℕ) → x < 2 ^ w → test (flip w x) k ≡ (ltb k w && not (test x k))
unfolding test
test-flip zero x k h = rw none_set (ground arith)
  where
    none_set : test (2 ^ 0 - 1 - x) k ≡ false
    none_set = rw zero_word (test-zero k)
      where
        zero_word : 2 ^ 0 - 1 - x ≡ 0
        zero_word = omega arith
test-flip (suc w) x zero h = ground (arith, pow-suc 2 w, one-le-pow w 2)
test-flip (suc w) x (suc k) h = rw half (test-flip w (x / 2) k bound ∙ ground arith)
  where
    half : (2 ^ suc w - 1 - x) / 2 ≡ 2 ^ w - 1 - x / 2
    half = omega (arith, pow-suc 2 w, one-le-pow w 2)

    bound : x / 2 < 2 ^ w
    bound = omega (arith, pow-suc 2 w)

pub test-shr : (x j k : ℕ) → test (x / 2 ^ j) k ≡ test x (j + k)
unfolding test
test-shr x zero k = rw (div-one, zero-add)
test-shr x (suc j) k = rw (← halves, test-shr (x / 2) j k, suc-add)
  where
    halves : x / 2 / 2 ^ j ≡ x / 2 ^ suc j
    halves = div-div-eq-div-mul x 2 (2 ^ j) ∙ ap (λ (t : ℕ). x / t) (sym (pow-succ' 2 j))

pub zero-bit_and : (b : ℕ) → bit_and 0 b ≡ 0
zero-bit_and b = bit_and-bitwise 0 b

fields_mod : (m q r : ℕ) → r < m → (q * m + r) % m ≡ r
fields_mod m q r h = mul-add-mod_self_right q m r ∙ mod-eq_of_lt h

pub mod-half : (x j : ℕ) → x % 2 ^ suc j / 2 ≡ x / 2 % 2 ^ j
mod-half x j = sym (rw parts (fields_mod (2 ^ j) (x / 2 ^ suc j) (x % 2 ^ suc j / 2) bound))
  where
    bound : x % 2 ^ suc j / 2 < 2 ^ j
    bound = omega (arith, pow-suc 2 j, one-le-pow j 2)

    parts : x / 2 ≡ x / 2 ^ suc j * 2 ^ j + x % 2 ^ suc j / 2
    parts =
        omega (arith, div-add-mod' x (2 ^ suc j), ap (λ (t : ℕ). x / 2 ^ suc j * t) (pow-suc 2 j))

pub mod-low : (x j : ℕ) → x % 2 ^ suc j % 2 ≡ x % 2
mod-low x j =
    omega (arith, div-add-mod' x (2 ^ suc j), ap (λ (t : ℕ). x / 2 ^ suc j * t) (pow-suc 2 j))

pub test-mod : (x j k : ℕ) → test (x % 2 ^ j) k ≡ (ltb k j && test x k)
unfolding test
test-mod x zero k = rw zero_word (test-zero k ∙ ground arith)
  where
    zero_word : x % 2 ^ 0 ≡ 0
    zero_word = omega arith
test-mod x (suc j) zero = rw (mod-low x j) (ground arith)
test-mod x (suc j) (suc k) = rw (mod-half x j) (test-mod (x / 2) j k ∙ ground arith)

pub bit_and-lt : (w a b : ℕ) → a < 2 ^ w → bit_and a b < 2 ^ w
bit_and-lt zero a b h = let e : a ≡ 0 = omega arith in rw (e, zero-bit_and b) (omega arith)
bit_and-lt (suc w) a b h =
    omega (arith, pow-suc 2 w, bit_and-half a b, bit_and-lt w (a / 2) (b / 2))

pub bit_or-lt : (w a b : ℕ) → a < 2 ^ w → b < 2 ^ w → bit_or a b < 2 ^ w
bit_or-lt zero a b h k =
    let e : a ≡ 0 = omega arith in let f : b ≡ 0 = omega arith in rw (e, f) (omega arith)
bit_or-lt (suc w) a b h k = omega (arith, pow-suc 2 w, bit_or-half a b, bit_or-lt w (a / 2) (b / 2))

pub bit_xor-lt : (w a b : ℕ) → a < 2 ^ w → b < 2 ^ w → bit_xor a b < 2 ^ w
bit_xor-lt zero a b h k =
    let e : a ≡ 0 = omega arith in let f : b ≡ 0 = omega arith in rw (e, f) (omega arith)
bit_xor-lt (suc w) a b h k =
    omega (arith, pow-suc 2 w, bit_xor-half a b, bit_xor-lt w (a / 2) (b / 2))

bit_and-zero_rounds : (n a : ℕ) → a ≤ n → bit_and a 0 ≡ 0
bit_and-zero_rounds n zero h = refl
bit_and-zero_rounds zero (suc a) h = elim h [ ]
bit_and-zero_rounds (suc n) (suc a) h =
    omega (arith, bit_and_digit (suc a) 0, bit_and-zero_rounds n (suc a / 2) (omega arith))

pub bit_and-zero : (a : ℕ) → bit_and a 0 ≡ 0
bit_and-zero a = bit_and-zero_rounds a a (omega arith)

pub bit_and-lt_right : (w a b : ℕ) → b < 2 ^ w → bit_and a b < 2 ^ w
bit_and-lt_right zero a b h = let e : b ≡ 0 = omega arith in rw (e, bit_and-zero a) (omega arith)
bit_and-lt_right (suc w) a b h =
    omega (arith, pow-suc 2 w, bit_and-half a b, bit_and-lt_right w (a / 2) (b / 2))

-- A mask of the `k` low bits is the remainder by `2 ^ k`.
pub bit_and-mask : (k a : ℕ) → bit_and a (2 ^ k - 1) ≡ a % 2 ^ k
bit_and-mask zero a = rw (bit_and-zero a) (omega arith)
bit_and-mask (suc k) a = ground (
  arith,
  bit_and_digit a (2 ^ suc k - 1),
  pow-suc 2 k,
  one-le-pow k 2,
  mod-half a k,
  mod-low a k,
  bit_and-mask k (a / 2),
)

pub bit_and-two_pow : (k a : ℕ) → bit_and a (2 ^ k) ≡ (if test a k then 2 ^ k else 0)
unfolding test
bit_and-two_pow zero a = ground (arith, bit_and_digit a 1, bit_and-zero (a / 2))
bit_and-two_pow (suc k) a =
    ground (arith, bit_and_digit a (2 ^ suc k), pow-suc 2 k, bit_and-two_pow k (a / 2))

-- A mask of one bit tests that bit.
pub has_bit : (k a : ℕ) → has a (2 ^ k) ≡ test a k
has_bit k a = ground (arith, bit_and-two_pow k a, one-le-pow k 2)

mul-two_pow_suc : (q k : ℕ) → q * 2 ^ suc k ≡ q * 2 ^ k * 2
mul-two_pow_suc q k = omega (arith, ap (λ (t : ℕ). q * t) (pow-suc 2 k))

bit_or-zero_rounds : (n a : ℕ) → a ≤ n → bit_or a 0 ≡ a
bit_or-zero_rounds n zero h = refl
bit_or-zero_rounds zero (suc a) h = elim h [ ]
bit_or-zero_rounds (suc n) (suc a) h =
    omega (arith, bit_or_digit (suc a) 0, bit_or-zero_rounds n (suc a / 2) (omega arith))

pub bit_or-zero : (a : ℕ) → bit_or a 0 ≡ a
bit_or-zero a = bit_or-zero_rounds a a (omega arith)

-- Fields that do not overlap are joined by a sum.
pub bit_or-add : (k q r : ℕ) → r < 2 ^ k → bit_or (q * 2 ^ k) r ≡ q * 2 ^ k + r
bit_or-add zero q r h = let e : r ≡ 0 = omega arith in rw (e, bit_or-zero (q * 2 ^ 0)) (omega arith)
bit_or-add (suc k) q r h = ground (
  arith,
  bit_or_digit (q * 2 ^ suc k) r,
  mul-two_pow_suc q k,
  bit_or-add k q (r / 2) (omega (arith, pow-suc 2 k)),
)
