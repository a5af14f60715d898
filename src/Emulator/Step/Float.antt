-- ===== src/Emulator/Step/Float.antt =====
-- The decoding of the F instructions in `step` of tools/rv32emu_core.c, opcodes 0x43, 0x47, 0x4b, 0x4f
-- and 0x53, with the operations of tools/rv32_fp.h. `none` is an illegal instruction.
use tiny_processors.Prelude.{
  ℕ, ◌+◌, ◌-◌, ◌/◌, ◌^◌, Bool, true, false, ◌||◌, Option, none, some, ltb, ◌==◌, ◌!=◌,
  if◌then◌else◌, bit_and, bit_or, bit_xor,
}
use tiny_processors.Prelude.Bits.{flip}
use tiny_processors.Emulator.Step.Decode.{funct3_of, rs2_of}

-- What an F instruction does: an operation of `rv32_fp` with the operands fa, fb and fc, its rounding mode in
-- `rm`, or a result that needs no arithmetic; `to_x` says that the result goes to an integer register.
pub data FloatOp : Type 0 where
  arithmetic : (operation : ℕ) (rounded : Bool) (fa : ℕ) (to_x : Bool) → FloatOp
  moved : (result : ℕ) (to_x : Bool) → FloatOp

abbrev pub op_add : ℕ
op_add = 0

abbrev pub op_sub : ℕ
op_sub = 1

abbrev pub op_mul : ℕ
op_mul = 2

abbrev pub op_fmadd : ℕ
op_fmadd = 3

abbrev pub op_div : ℕ
op_div = 7

abbrev pub op_sqrt : ℕ
op_sqrt = 8

abbrev pub op_i32_to_f32 : ℕ
op_i32_to_f32 = 9

abbrev pub op_u32_to_f32 : ℕ
op_u32_to_f32 = 10

abbrev pub op_f32_to_i32 : ℕ
op_f32_to_i32 = 11

abbrev pub op_f32_to_u32 : ℕ
op_f32_to_u32 = 12

abbrev pub op_eq : ℕ
op_eq = 13

abbrev pub op_lt : ℕ
op_lt = 14

abbrev pub op_le : ℕ
op_le = 15

abbrev pub op_min : ℕ
op_min = 16

abbrev pub op_max : ℕ
op_max = 17

-- FCLASS: the bit of the class of a single-precision number.
pub class_bit : ℕ → ℕ
class_bit fa =
    let exp = bit_and (fa / 2 ^ 23) 255 in
    let frac = bit_and fa 0x7f_ffff in
    let sign = fa / 2 ^ 31 in
    if exp == 255
    then if frac != 0
      then if bit_and frac 0x40_0000 != 0 then 9 else 8
      else if sign != 0
      then 0
      else 7
    else if exp == 0
    then if frac != 0 then if sign != 0 then 2 else 5 else if sign != 0 then 3 else 4
    else if sign != 0
    then 1
    else 6

-- FSGNJ, FSGNJN and FSGNJX.
pub sign_injected : ℕ → ℕ → ℕ → ℕ
sign_injected funct3 fa fb = bit_or (bit_and fa 0x7fff_ffff) (
    bit_and (if funct3 == 0 then fb else if funct3 == 1 then flip 32 fb else bit_xor fa fb)
      0x8000_0000)

-- Opcode 0x53, by funct7.
pub decode_op_fp : ℕ → ℕ → ℕ → ℕ → ℕ → ℕ → Option FloatOp
decode_op_fp funct7 funct3 rs2 a fa fb =
    if funct7 == 0x00
    then some (arithmetic op_add true fa false)
    else if funct7 == 0x04
    then some (arithmetic op_sub true fa false)
    else if funct7 == 0x08
    then some (arithmetic op_mul true fa false)
    else if funct7 == 0x0c
    then some (arithmetic op_div true fa false)
    else if funct7 == 0x2c
    then if rs2 != 0 then none else some (arithmetic op_sqrt true fa false)
    else if funct7 == 0x60
    then if ltb 1 rs2
      then none
      else some (arithmetic (if rs2 != 0 then op_f32_to_u32 else op_f32_to_i32) true fa true)
    else if funct7 == 0x68
    then if ltb 1 rs2
      then none
      else some (arithmetic (if rs2 != 0 then op_u32_to_f32 else op_i32_to_f32) true a false)
    else if funct7 == 0x50
    then if ltb 2 funct3
      then none
      else some (
          arithmetic (if funct3 == 2 then op_eq else if funct3 == 1 then op_lt else op_le) false fa
            true)
    else if funct7 == 0x14
    then if ltb 1 funct3
      then none
      else some (arithmetic (if funct3 != 0 then op_max else op_min) false fa false)
    else if funct7 == 0x10
    then if ltb 2 funct3 then none else some (moved (sign_injected funct3 fa fb) false)
    else if funct7 == 0x70
    then if rs2 != 0 || ltb 1 funct3
      then none
      else some (moved (if funct3 != 0 then 2 ^ class_bit fa else fa) true)
    else if funct7 == 0x78
    then if rs2 != 0 || funct3 != 0 then none else some (moved a false)
    else none

pub decode_float : ℕ → ℕ → ℕ → ℕ → Option FloatOp
decode_float word a fa fb =
    let opcode = bit_and word 0x7f in
    if opcode != 0x53
    then if bit_and (word / 2 ^ 25) 3 != 0
      then none
      else some (arithmetic (op_fmadd + (opcode - 0x43) / 2 ^ 2) true fa false)
    else decode_op_fp (word / 2 ^ 25) (funct3_of word) (rs2_of word) a fa fb

-- The rounding mode: that of the instruction, or the dynamic one of fcsr.
pub rounding : Bool → ℕ → ℕ → Option ℕ
rounding rounded funct3 fcsr =
    if rounded
    then (let rm = if funct3 == 7 then fcsr / 2 ^ 5 else funct3 in
        if ltb 4 rm then none else some rm)
    else some 0
