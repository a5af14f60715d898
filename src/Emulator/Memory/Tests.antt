-- ===== src/Emulator/Memory/Tests.antt =====
-- Words in a small array.
use tiny_processors.Prelude.{ℕ, ◌≡◌, arith}
use tiny_processors.Emulator.Memory.{bytes_read, bytes_write}
use tiny_processors.Emulator.Memory.Bytes.{bytes_read-write}

abbrev empty_ram : ℕ → ℕ
empty_ram a = 0

bytes_read-write_example :
    bytes_read (bytes_write empty_ram 0x100 4 0xdead_beef) 0x100 4 ≡ 0xdead_beef
bytes_read-write_example =
    bytes_read-write 4 empty_ram 0x100 0xdead_beef (omega arith) (omega arith)
