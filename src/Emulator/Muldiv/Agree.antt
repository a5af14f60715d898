-- ===== src/Emulator/Muldiv/Agree.antt =====
-- The software routines of the runtime and the emulator's M extension are the same functions.
use tiny_processors.Prelude.{ℕ, ◌^◌, ◌<◌, ◌≡◌, arith, some}
use tiny_processors.Runtime.{rv32_mul, rv32_divu, rv32_remu, rv32_div, rv32_rem, magnitude}
use tiny_processors.Runtime.Multiply.{rv32_mul_lem}
use tiny_processors.Runtime.Divide.{udivmod_lem}
use tiny_processors.Emulator.Muldiv.{muldiv}

-- For all 32-bit words `a` and `b`, `rv32_mul` ends within its fuel with what the emulator's MUL
-- returns, and `rv32_divu` and `rv32_remu` return what its DIVU and REMU do, division by zero
-- included.
pub unsigned_agree :
    (a b : ℕ)
    → a < 2 ^ 32
    → b < 2 ^ 32
    → (rv32_mul a b ≡ some (muldiv 0 a b))
      × (rv32_divu a b ≡ muldiv 5 a b)
      × (rv32_remu a b ≡ muldiv 7 a b)
unfolding muldiv rv32_divu rv32_remu
unsigned_agree a b ha hb = (
  rv32_mul_lem a b hb,
  ground (arith, udivmod_lem a b ha hb),
  ground (arith, udivmod_lem a b ha hb),
)

-- For all 32-bit words `a` and `b`, `rv32_div` of the runtime returns what the emulator's DIV
-- does, division by zero and overflow included.
pub div_agree : (a b : ℕ) → a < 2 ^ 32 → b < 2 ^ 32 → rv32_div a b ≡ muldiv 4 a b
unfolding muldiv rv32_div
div_agree a b ha hb = ground (arith, udivmod_lem (magnitude a) (magnitude b))

-- For all 32-bit words `a` and `b`, `rv32_rem` of the runtime returns what the emulator's REM
-- does, division by zero and overflow included.
pub rem_agree : (a b : ℕ) → a < 2 ^ 32 → b < 2 ^ 32 → rv32_rem a b ≡ muldiv 6 a b
unfolding muldiv rv32_rem
rem_agree a b ha hb = ground (arith, udivmod_lem (magnitude a) (magnitude b))
