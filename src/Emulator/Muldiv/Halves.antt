-- ===== src/Emulator/Muldiv/Halves.antt =====
-- MUL and the three MULH instructions give the two halves of the 64-bit product.
use tiny_processors.Prelude.{ℕ, ◌+◌, ◌*◌, ◌^◌, ◌<◌, ◌≡◌, arith, ◌-◌, ap}
use tiny_processors.Prelude.Int.{pos, ◌*ℤ◌, signed32, to_word}
use tiny_processors.Emulator.Muldiv.{muldiv}

-- `a` read as signed is `a` less 2 ^ 32 where its sign bit is set.
both_negative :
    (a b p q : ℕ)
    → a + p ≡ 2 ^ 32
    → b + q ≡ 2 ^ 32
    → p * q + 2 ^ 32 * a + 2 ^ 32 * b ≡ 2 ^ 64 + a * b
both_negative a b p q ha hb = omega (arith, ap (λ (t : ℕ). t * q) ha, ap (λ (t : ℕ). a * t) hb)

one_negative : (a b p : ℕ) → a + p ≡ 2 ^ 32 → p * b + a * b ≡ 2 ^ 32 * b
one_negative a b p ha = omega (arith, ap (λ (t : ℕ). t * b) ha)

signed_signed :
    (a b : ℕ)
    → a < 2 ^ 32
    → b < 2 ^ 32
    → muldiv 1 a b * 2 ^ 32 + muldiv 0 a b ≡ to_word (2 ^ 64) (signed32 a *ℤ signed32 b)
unfolding muldiv ◌*ℤ◌
signed_signed a b ha hb = ground (
  arith,
  both_negative a b (2 ^ 32 - a) (2 ^ 32 - b),
  one_negative a b (2 ^ 32 - a),
  one_negative b a (2 ^ 32 - b),
)

signed_unsigned :
    (a b : ℕ)
    → a < 2 ^ 32
    → b < 2 ^ 32
    → muldiv 2 a b * 2 ^ 32 + muldiv 0 a b ≡ to_word (2 ^ 64) (signed32 a *ℤ pos b)
unfolding muldiv ◌*ℤ◌
signed_unsigned a b ha hb = ground (arith, one_negative a b (2 ^ 32 - a))

-- For 32-bit words `a` and `b`, MULH (funct3 1), MULHSU (2) and MULHU (3), each followed by MUL,
-- hold the 64-bit product of the operands read as signed and signed, signed and unsigned, and
-- unsigned and unsigned.
pub muldiv-halves :
    (a b : ℕ)
    → a < 2 ^ 32
    → b < 2 ^ 32
    → (muldiv 1 a b * 2 ^ 32 + muldiv 0 a b ≡ to_word (2 ^ 64) (signed32 a *ℤ signed32 b))
      × (muldiv 2 a b * 2 ^ 32 + muldiv 0 a b ≡ to_word (2 ^ 64) (signed32 a *ℤ pos b))
      × (muldiv 3 a b * 2 ^ 32 + muldiv 0 a b ≡ a * b)
unfolding muldiv ◌*ℤ◌
muldiv-halves a b ha hb = (signed_signed a b ha hb, signed_unsigned a b ha hb, omega arith)
