-- ===== src/Emulator/Step/Alu.antt =====
-- The integer operations of `step` in tools/rv32emu_core.c: the branches, OP-IMM and OP. `none` is an
-- illegal instruction.
use tiny_processors.Prelude.{
  ℕ, ◌+◌, ◌-◌, ◌*◌, ◌/◌, ◌%◌, ◌^◌, Bool, true, false, not, ◌&&◌, ◌||◌, Option, none, some, ltb, leb,
  ◌==◌, ◌!=◌, if◌then◌else◌, bit_and, bit_or, bit_xor,
}
use tiny_processors.Prelude.Int.{slt}
use tiny_processors.Emulator.Muldiv.{muldiv}
use tiny_processors.Emulator.Step.Decode.{sra}

-- `taken` of a branch.
pub branch_taken : ℕ → ℕ → ℕ → Option Bool
branch_taken funct3 a b =
    if funct3 == 0
    then some (a == b)
    else if funct3 == 1
    then some (a != b)
    else if funct3 == 4
    then some (slt a b)
    else if funct3 == 5
    then some (not (slt a b))
    else if funct3 == 6
    then some (ltb a b)
    else if funct3 == 7
    then some (leb b a)
    else none

-- A comparison as a word.
pub flag : Bool → ℕ
flag true = 1
flag false = 0

pub op_imm : ℕ → ℕ → ℕ → ℕ → ℕ → Option ℕ
op_imm funct3 funct7 a imm shamt =
    if funct3 == 0
    then some ((a + imm) % 2 ^ 32)
    else if funct3 == 1
    then if funct7 != 0 then none else some (a * 2 ^ shamt % 2 ^ 32)
    else if funct3 == 2
    then some (flag (slt a imm))
    else if funct3 == 3
    then some (flag (ltb a imm))
    else if funct3 == 4
    then some (bit_xor a imm)
    else if funct3 == 5
    then if funct7 == 0
      then some (a / 2 ^ shamt)
      else if funct7 == 0x20
      then some (sra a shamt)
      else none
    else if funct3 == 6
    then some (bit_or a imm)
    else some (bit_and a imm)

pub op : ℕ → ℕ → ℕ → ℕ → Option ℕ
op funct3 funct7 a b =
    let shamt = bit_and b 31 in
    if funct7 == 1
    then some (muldiv funct3 a b)
    else if funct7 != 0 && not (funct7 == 0x20 && (funct3 == 0 || funct3 == 5))
    then none
    else if funct3 == 0
    then some (if funct7 != 0 then (a + 2 ^ 32 - b) % 2 ^ 32 else (a + b) % 2 ^ 32)
    else if funct3 == 1
    then some (a * 2 ^ shamt % 2 ^ 32)
    else if funct3 == 2
    then some (flag (slt a b))
    else if funct3 == 3
    then some (flag (ltb a b))
    else if funct3 == 4
    then some (bit_xor a b)
    else if funct3 == 5
    then some (if funct7 != 0 then sra a shamt else a / 2 ^ shamt)
    else if funct3 == 6
    then some (bit_or a b)
    else some (bit_and a b)
