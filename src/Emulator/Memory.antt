-- ===== src/Emulator/Memory.antt =====
-- RAM in tools/rv32emu_core.c: `bytes_read`, `bytes_write`, `in_ram` and `ram_read`. `ram` is a byte for each offset.
pub mod Bytes
mod Tests
use tiny_processors.Prelude.{
  ℕ, zero, suc, ◌+◌, ◌-◌, ◌*◌, ◌/◌, ◌%◌, ◌^◌, Bool, ◌&&◌, leb, ◌==◌, if◌then◌else◌, bit_or,
}

abbrev pub ram_base : ℕ
ram_base = 0x8000_0000

abbrev pub ram_size : ℕ
ram_size = 0x100_0000

-- `for (int i = width - 1; i >= 0; i--)`, by the rounds left: `i + 1`.
unfoldable pub read_loop : (ℕ → ℕ) → ℕ → ℕ → ℕ → ℕ
read_loop ram at zero value = value
read_loop ram at (suc i) value = read_loop ram at i (bit_or (value * 2 ^ 8 % 2 ^ 32) (ram (at + i)))

unfoldable pub bytes_read : (ℕ → ℕ) → ℕ → ℕ → ℕ
bytes_read ram at width = read_loop ram at width 0

-- One byte of the array written.
pub put : (ℕ → ℕ) → ℕ → ℕ → ℕ → ℕ
put ram at byte a = if a == at then byte else ram a

-- The loop of `bytes_write` at byte `i`, with `left` bytes to go.
pub write_loop : ℕ → (ℕ → ℕ) → ℕ → ℕ → ℕ → ℕ → ℕ
write_loop zero ram at value i = ram
write_loop (suc left) ram at value i =
    write_loop left (put ram (at + i) (value / 2 ^ (8 * i) % 2 ^ 8)) at value (i + 1)

pub bytes_write : (ℕ → ℕ) → ℕ → ℕ → ℕ → ℕ → ℕ
bytes_write ram at width value = write_loop width ram at value 0

unfoldable pub in_ram : ℕ → ℕ → Bool
in_ram addr width = leb ram_base addr && leb ((addr - ram_base + width) % 2 ^ 32) ram_size

unfoldable pub ram_read : (ℕ → ℕ) → ℕ → ℕ → ℕ
ram_read ram addr width = bytes_read ram (addr - ram_base) width
