-- ===== src/Emulator/Muldiv.antt =====
-- `muldiv` of tools/rv32emu_core.c: the M extension, by the value of funct3.
mod Tests
pub mod Halves
pub mod Agree
use tiny_processors.Prelude.{ℕ, suc, ◌+◌, ◌-◌, ◌*◌, ◌/◌, ◌%◌, ◌^◌, Bool, ◌&&◌, ◌==◌, if◌then◌else◌}
use tiny_processors.Prelude.Int.{ℤ, pos, negsuc, pos_part, neg_part, sub_ℕ, ◌*ℤ◌, signed32, to_word}

-- The absolute value, and C's `/` and `%` of `int32_t`, which truncate towards zero.
abbrev pub abs : ℤ → ℕ
abs z = pos_part z + neg_part z

pub quot : ℤ → ℤ → ℤ
quot (pos a) (pos b) = pos (a / b)
quot (pos a) (negsuc b) = sub_ℕ 0 (a / suc b)
quot (negsuc a) (pos b) = sub_ℕ 0 (suc a / b)
quot (negsuc a) (negsuc b) = pos (suc a / suc b)

pub rem : ℤ → ℤ → ℤ
rem (pos a) b = pos (a % abs b)
rem (negsuc a) b = sub_ℕ 0 (suc a % abs b)

-- `(uint32_t)((uint64_t)z >> 32)`
abbrev pub high_word : ℤ → ℕ
high_word z = to_word (2 ^ 64) z / 2 ^ 32

unfoldable pub muldiv : ℕ → ℕ → ℕ → ℕ
unfolding quot rem
muldiv funct3 a b =
    let sa = signed32 a in
    let sb = signed32 b in
    let overflow = a == 0x8000_0000 && b == 0xffff_ffff in
    if funct3 == 0
    then a * b % 2 ^ 32
    else if funct3 == 1
    then high_word (sa *ℤ sb)
    else if funct3 == 2
    then high_word (sa *ℤ pos b)
    else if funct3 == 3
    then a * b / 2 ^ 32
    else if funct3 == 4
    then if b == 0 then 0xffff_ffff else if overflow then a else to_word (2 ^ 32) (quot sa sb)
    else if funct3 == 5
    then if b == 0 then 0xffff_ffff else a / b
    else if funct3 == 6
    then if b == 0 then a else if overflow then 0 else to_word (2 ^ 32) (rem sa sb)
    else if b == 0
    then a
    else a % b
