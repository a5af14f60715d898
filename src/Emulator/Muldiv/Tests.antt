-- ===== src/Emulator/Muldiv/Tests.antt =====
-- The M extension at concrete words.
use tiny_processors.Prelude.{◌+◌, ◌*◌, ◌^◌, ◌≡◌, arith}
use tiny_processors.Prelude.Int.{pos, to_word, signed32, ◌*ℤ◌}
use tiny_processors.Runtime.{rv32_div, rv32_rem}
use tiny_processors.Emulator.Muldiv.{muldiv}
use tiny_processors.Emulator.Muldiv.Agree.{div_agree, rem_agree}
use tiny_processors.Emulator.Muldiv.Halves.{muldiv-halves}

div_agree_example : rv32_div 0x8000_0000 0xffff_ffff ≡ muldiv 4 0x8000_0000 0xffff_ffff
div_agree_example = div_agree 0x8000_0000 0xffff_ffff (omega arith) (omega arith)

rem_agree_example : rv32_rem 0xffff_fff9 3 ≡ muldiv 6 0xffff_fff9 3
rem_agree_example = rem_agree 0xffff_fff9 3 (omega arith) (omega arith)

muldiv-halves_example :
    (muldiv 1 0x8000_0000 3 * 2 ^ 32 + muldiv 0 0x8000_0000 3
      ≡ to_word (2 ^ 64) (signed32 0x8000_0000 *ℤ signed32 3))
    × (muldiv 2 0x8000_0000 3 * 2 ^ 32 + muldiv 0 0x8000_0000 3
        ≡ to_word (2 ^ 64) (signed32 0x8000_0000 *ℤ pos 3))
    × (muldiv 3 0x8000_0000 3 * 2 ^ 32 + muldiv 0 0x8000_0000 3 ≡ 0x8000_0000 * 3)
muldiv-halves_example = muldiv-halves 0x8000_0000 3 (omega arith) (omega arith)
