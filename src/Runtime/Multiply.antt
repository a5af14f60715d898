-- ===== src/Runtime/Multiply.antt =====
-- `rv32_mul` computes the low word of the product.
use native.Mathlib.Nat.{add-mul-mod_self_right, mod-add-mod, div-add-mod', pow-suc, zero-add}
use tiny_processors.Prelude.{
  ℕ, zero, suc, ◌+◌, ◌*◌, ◌/◌, ◌%◌, ◌^◌, ◌<◌, ◌≡◌, refl, ap, ◌∙◌, sym, inl, inr, ◌⊎◌, some, arith,
  ◌==◌, ◌!=◌, if◌then◌else◌, Bool-cases, bit_and,
}
use tiny_processors.Prelude.Bits.{bit_and-mask}
use tiny_processors.Runtime.{mul_loop, rv32_mul}

-- A factor may be reduced first.
mul-mod_reduced : (m x y z : ℕ) → (x + y % m * z) % m ≡ (x + y * z) % m
mul-mod_reduced m x y z = sym (rw parts (add-mul-mod_self_right (x + y % m * z) (y / m * z) m))
  where
    parts : x + y * z ≡ x + y % m * z + y / m * z * m
    parts = omega (arith, ap (λ (t : ℕ). t * z) (div-add-mod' y m))

digit_cases : (b : ℕ) → (b % 2 ≡ 0) ⊎ (b % 2 ≡ 1)
digit_cases b = omega arith

-- What one round adds, and what it leaves to the others.
mul_round :
    (a b p : ℕ)
    → ((if bit_and b 1 != 0 then (p + a) % 2 ^ 32 else p) + a * 2 % 2 ^ 32 * (b / 2)) % 2 ^ 32
      ≡ (p + a * b) % 2 ^ 32
mul_round a b p =
    mul-mod_reduced (2 ^ 32) _ (a * 2) (b / 2)
    ∙ ground (
      arith,
      bit_and-mask 1 b,
      mod-add-mod (p + a) (2 ^ 32) (a * 2 * (b / 2)),
      ap (λ (t : ℕ). a * t) (div-add-mod' b 2),
      digit_cases b,
    )

mul_loop-suc :
    (fuel a b p : ℕ)
    → mul_loop (suc fuel) a b p ≡ (
        if b == 0
        then some p
        else mul_loop fuel
            (a * 2 % 2 ^ 32)
            (b / 2)
            (if bit_and b 1 != 0 then (p + a) % 2 ^ 32 else p))
unfolding mul_loop
mul_loop-suc fuel a b p = refl

-- A multiplier of `n` bits is used up in `n` rounds.
mul_loop_lem :
    (n a b p : ℕ) → b < 2 ^ n → p < 2 ^ 32 → mul_loop (suc n) a b p ≡ some ((p + a * b) % 2 ^ 32)
mul_loop_lem zero a b p hb hp = rw (mul_loop-suc 0 a b p) (ground (arith, used_up))
  where
    used_up : b ≡ 0
    used_up = omega arith
mul_loop_lem (suc n) a b p hb hp = elim (Bool-cases (b == 0)) [
  | inl done ↦ rw (mul_loop-suc (suc n) a b p, done) (ground arith)
  | inr more ↦
      rw (mul_loop-suc (suc n) a b p, more)
        (mul_loop_lem n (a * 2 % 2 ^ 32) (b / 2) _ (omega (arith, pow-suc 2 n)) (ground arith)
          ∙ ap some (mul_round a b p))
]

-- For every `a` and every 32-bit word `b`, the loop of `rv32_mul` ends within 33 rounds of fuel,
-- and returns the product modulo 2 ^ 32.
pub rv32_mul_lem : (a b : ℕ) → b < 2 ^ 32 → rv32_mul a b ≡ some (a * b % 2 ^ 32)
unfolding rv32_mul
rv32_mul_lem a b h = mul_loop_lem 32 a b 0 h (omega arith) ∙ rw zero-add
