-- ===== src/Os/Kernel/Memory.antt =====
-- User memory and programs in programs/rv32/os/kernel.c: `user_range`, `user_string` and `entry_ok`.
use tiny_processors.Prelude.{
  ℕ, zero, suc, ◌+◌, ◌-◌, ◌*◌, ◌%◌, ◌^◌, Bool, true, false, not, ◌&&◌, ◌||◌, List, [], ◌∷◌, Option,
  none, some, ltb, leb, ◌==◌, ◌!=◌, if◌then◌else◌, get_or, bit_and,
}
use tiny_processors.Prelude.Bits.{flip}
use tiny_processors.Os.Kernel.{
  Program, page_size, os_guard_size, os_slot_base, os_slot_size, os_slots, program_accelerators,
}

-- Whether the `len` bytes at `address` lie in the slots of a process, by its base, span and guard page.
unfoldable pub user_range : ℕ → ℕ → ℕ → ℕ → ℕ → Bool
user_range base span guard address len =
    if not (leb base address && leb len span && leb (address - base) (span - len))
    then false
    else not (len != 0 && ltb address (guard + os_guard_size) && ltb guard (address + len))

-- The loop of `user_string`, with `left` bytes to go. Addresses wrap.
unfoldable pub string_loop : ℕ → ℕ → ℕ → ℕ → (ℕ → ℕ) → ℕ → Option (List ℕ)
string_loop zero base span guard memory address = none
string_loop (suc left) base span guard memory address =
    elim (user_range base span guard address 1) [
      | false ↦ none
      | true ↦ elim (memory address == 0) [
        | true ↦ some []
        | false ↦ elim (string_loop left base span guard memory ((address + 1) % 2 ^ 32)) [
          | none ↦ none
          | some rest ↦ some (memory address ∷ rest)
        ]
      ]
    ]

-- Whether a RAM disk entry keeps the rules of the slots, in a RAM disk of `size` bytes.
unfoldable pub entry_ok : Program → ℕ → Bool
entry_ok e size = not (
    get_or e.name 23 0 != 0
    || bit_and e.flags (flip 32 program_accelerators) != 0
    || ltb size e.offset
    || ltb (size - e.offset) e.file_size
    || ltb e.memory_size e.file_size
    || e.span == 0
    || e.span % os_slot_size != 0
    || ltb (os_slots * os_slot_size) e.span
    || ltb e.load os_slot_base
    || (e.load - os_slot_base) % os_slot_size != 0
    || ltb (os_slot_base + os_slots * os_slot_size - e.span) e.load
    || e.stack % page_size != 0
    || ltb e.stack (2 * page_size)
    || leb e.span e.stack
    || ltb (e.span - e.stack) e.memory_size
    || ltb e.entry e.load
    || leb e.file_size (e.entry - e.load))
