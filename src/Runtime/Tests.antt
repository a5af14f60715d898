-- ===== src/Runtime/Tests.antt =====
-- Multiplication and division at concrete words.
use tiny_processors.Prelude.{◌*◌, ◌/◌, ◌%◌, ◌^◌, ◌≡◌, arith, some}
use tiny_processors.Runtime.{udivmod, rv32_mul}
use tiny_processors.Runtime.Multiply.{rv32_mul_lem}
use tiny_processors.Runtime.Divide.{udivmod_lem}

rv32_mul_lem_example : rv32_mul 0x1_0001 0xffff_ffff ≡ some (0x1_0001 * 0xffff_ffff % 2 ^ 32)
rv32_mul_lem_example = rv32_mul_lem 0x1_0001 0xffff_ffff (omega arith)

udivmod_lem_example :
    ((udivmod 0xffff_ffff 0x8000_0001).quotient ≡ 0xffff_ffff / 0x8000_0001)
    × ((udivmod 0xffff_ffff 0x8000_0001).rem ≡ 0xffff_ffff % 0x8000_0001)
udivmod_lem_example = udivmod_lem 0xffff_ffff 0x8000_0001 (omega arith) (omega arith) (omega arith)
