-- ===== src/Emulator/Amo.antt =====
-- The atomic operations of tools/rv32emu_core.c: `amo_valid` and `amo_value`.
pub mod Words
mod Tests
use tiny_processors.Prelude.{
  ℕ, ◌+◌, ◌%◌, ◌^◌, Bool, true, false, ◌||◌, Option, none, some, ltb, ◌==◌, if◌then◌else◌, bit_and,
  bit_or, bit_xor,
}
use tiny_processors.Prelude.Int.{slt}

abbrev pub amo_add : ℕ
amo_add = 0x00

abbrev pub amo_swap : ℕ
amo_swap = 0x01

abbrev pub amo_lr : ℕ
amo_lr = 0x02

abbrev pub amo_sc : ℕ
amo_sc = 0x03

abbrev pub amo_xor : ℕ
amo_xor = 0x04

abbrev pub amo_or : ℕ
amo_or = 0x08

abbrev pub amo_and : ℕ
amo_and = 0x0c

abbrev pub amo_min : ℕ
amo_min = 0x10

abbrev pub amo_max : ℕ
amo_max = 0x14

abbrev pub amo_minu : ℕ
amo_minu = 0x18

abbrev pub amo_maxu : ℕ
amo_maxu = 0x1c

pub amo_valid : ℕ → ℕ → Bool
amo_valid funct5 rs2 =
    if funct5 == amo_lr
    then rs2 == 0
    else funct5 == amo_add
      || funct5 == amo_swap
      || funct5 == amo_sc
      || funct5 == amo_xor
      || funct5 == amo_or
      || funct5 == amo_and
      || funct5 == amo_min
      || funct5 == amo_max
      || funct5 == amo_minu
      || funct5 == amo_maxu

-- `none` is `abort()`.
pub amo_value : ℕ → ℕ → ℕ → Option ℕ
amo_value funct5 old operand =
    if funct5 == amo_swap
    then some operand
    else if funct5 == amo_add
    then some ((old + operand) % 2 ^ 32)
    else if funct5 == amo_xor
    then some (bit_xor old operand)
    else if funct5 == amo_and
    then some (bit_and old operand)
    else if funct5 == amo_or
    then some (bit_or old operand)
    else if funct5 == amo_min
    then some (if slt old operand then old else operand)
    else if funct5 == amo_max
    then some (if slt operand old then old else operand)
    else if funct5 == amo_minu
    then some (if ltb old operand then old else operand)
    else if funct5 == amo_maxu
    then some (if ltb operand old then old else operand)
    else none
