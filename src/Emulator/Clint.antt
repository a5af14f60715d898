-- ===== src/Emulator/Clint.antt =====
-- The timer of tools/rv32emu_core.c: `mtime_now`, `clint_load` and `clint_store`. `steps`, which
-- the machine counts, is an argument.
pub mod Laws
use tiny_processors.Prelude.{
  ℕ, ◌+◌, ◌-◌, ◌*◌, ◌/◌, ◌%◌, ◌^◌, ◌==◌, ◌!=◌, if◌then◌else◌, bit_and, bit_or,
}
use tiny_processors.Prelude.Bits.{flip}
use tiny_processors.Emulator.Access.{Access, acc_ok, acc_fault}

pub record Clint : Type 0 where
  pub mtime_offset : ℕ
  pub mtimecmp : ℕ
  pub msip : ℕ

abbrev pub clint_msip : ℕ
clint_msip = 0

abbrev pub clint_mtimecmp : ℕ
clint_mtimecmp = 0x4000

abbrev pub clint_mtime : ℕ
clint_mtime = 0xbff8

pub mtime_now : ℕ → Clint → ℕ
mtime_now steps c = (steps + c.mtime_offset) % 2 ^ 64

-- `(uint32_t)x` and `(uint32_t)(x >> 32)`
abbrev pub low_half : ℕ → ℕ
low_half x = x % 2 ^ 32

abbrev pub high_half : ℕ → ℕ
high_half x = x / 2 ^ 32 % 2 ^ 32

-- `(x & ~0xffffffffull) | value` and `(x & 0xffffffffull) | (uint64_t)value << 32`
pub with_low : ℕ → ℕ → ℕ
with_low x value = bit_or (bit_and x (flip 64 0xffff_ffff)) value

pub with_high : ℕ → ℕ → ℕ
with_high x value = bit_or (bit_and x 0xffff_ffff) (value * 2 ^ 32)

pub clint_load : ℕ → ℕ → ℕ → Clint → Access ℕ
clint_load steps offset width c =
    if width != 4
    then acc_fault
    else if offset == clint_msip
    then acc_ok c.msip
    else if offset == clint_mtimecmp
    then acc_ok (low_half c.mtimecmp)
    else if offset == clint_mtimecmp + 4
    then acc_ok (high_half c.mtimecmp)
    else if offset == clint_mtime
    then acc_ok (low_half (mtime_now steps c))
    else if offset == clint_mtime + 4
    then acc_ok (high_half (mtime_now steps c))
    else acc_fault

pub clint_store : ℕ → ℕ → ℕ → ℕ → Clint → Access Clint
clint_store steps offset width value c =
    let now = mtime_now steps c in
    if width != 4
    then acc_fault
    else if offset == clint_msip
    then acc_ok (record c { msip = bit_and value 1 })
    else if offset == clint_mtimecmp
    then acc_ok (record c { mtimecmp = with_low c.mtimecmp value })
    else if offset == clint_mtimecmp + 4
    then acc_ok (record c { mtimecmp = with_high c.mtimecmp value })
    else if offset == clint_mtime
    then acc_ok (record c { mtime_offset = (with_low now value + 2 ^ 64 - steps) % 2 ^ 64 })
    else if offset == clint_mtime + 4
    then acc_ok (record c { mtime_offset = (with_high now value + 2 ^ 64 - steps) % 2 ^ 64 })
    else acc_fault
