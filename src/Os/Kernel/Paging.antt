-- ===== src/Os/Kernel/Paging.antt =====
-- The page tables of programs/rv32/os/kernel.c: `clear_table`, `map`, `lay_out` and `map_process`.
use tiny_processors.Prelude.{
  ℕ, zero, suc, ◌+◌, ◌-◌, ◌*◌, ◌/◌, ◌%◌, ◌^◌, List, [], ◌∷◌, ◌==◌, ◌!=◌, if◌then◌else◌, bit_and,
  bit_or,
}
use tiny_processors.Prelude.Bits.{has, flip}
use tiny_processors.Emulator.Memory.{bytes_read, bytes_write}
use tiny_processors.Os.Fs.Data.{copied}
use tiny_processors.Os.Kernel.{
  Kernel, Config, Outcome, returns, panics, ◌>>=◌, proc_at, space_at, with_space, page_size,
  os_guard_size, drives,
}

abbrev pub page_tables_each : ℕ
page_tables_each = 7

abbrev pub pte_v : ℕ
pte_v = 0x01

abbrev pub pte_rwx : ℕ
pte_rwx = 0x0e

abbrev pub pte_x : ℕ
pte_x = 0x08

-- PTE_V, PTE_U, PTE_A and PTE_D, which every leaf has.
abbrev pub pte_leaf : ℕ
pte_leaf = 0xd1

-- The address of table `t` of a process table entry.
unfoldable pub table_at : Config → ℕ → ℕ → ℕ
table_at config entry t = config.page_tables + (entry * page_tables_each + t) * page_size

-- A word of memory.
module _ {B D : Type 0} where
  unfoldable pub word : ℕ → Kernel B D → ℕ
  word at k = bytes_read k.memory at 4

  unfoldable pub with_word : ℕ → ℕ → Kernel B D → Kernel B D
  with_word at value k = record k { memory = bytes_write k.memory at 4 value }

  unfoldable pub clear_table : ℕ → Kernel B D → Kernel B D
  clear_table at k = record k { memory = copied at page_size (λ j. 0) k.memory }

  unfoldable pub write_leaf : ℕ → ℕ → ℕ → Kernel B D → Kernel B D
  write_leaf pointer_at page rights k =
      let table = word pointer_at k / 2 ^ 10 * 2 ^ 12 % 2 ^ 32 in
      with_word (table + 4 * (page / 2 ^ 12 % 1024))
        (if rights != 0 then bit_or (bit_or (page / 2 ^ 12 * 2 ^ 10) rights) pte_leaf else 0) k

module _ {B D : Type 0} (config : Config) where
  -- The level-0 table of a page, taken if there is none and the page is to be mapped.
  unfoldable pub take_table : ℕ → ℕ → Kernel B D → Outcome B D (Unit {0})
  take_table entry pointer_at k =
      let space = space_at k entry in
      let table = table_at config entry space.tables in
      if space.tables == page_tables_each
      then panics k
      else returns tt (
          with_word pointer_at (bit_or (table / 2 ^ 12 * 2 ^ 10) pte_v)
            (clear_table table (with_space entry (record space { tables = space.tables + 1 }) k)))

  unfoldable pub map_page : ℕ → ℕ → ℕ → Kernel B D → Outcome B D (Unit {0})
  map_page entry page rights k =
      let pointer_at = table_at config entry 0 + 4 * (page / 2 ^ 22) in
      if has (word pointer_at k) pte_v
      then returns tt (write_leaf pointer_at page rights k)
      else if rights == 0
      then returns tt k
      else (take_table entry pointer_at k >>= λ (u, k').
          returns tt (write_leaf pointer_at page rights k'))

  -- The loop of `map`, with `left` pages to go.
  unfoldable pub map_loop : ℕ → ℕ → ℕ → ℕ → Kernel B D → Outcome B D (Unit {0})
  map_loop zero entry page rights k = returns tt k
  map_loop (suc left) entry page rights k =
      map_page entry page rights k >>= λ (u, k'). map_loop left entry (page + page_size) rights k'

  unfoldable pub map : ℕ → ℕ → ℕ → ℕ → Kernel B D → Outcome B D (Unit {0})
  map entry start end rights k =
      let page = start / page_size * page_size in
      if (space_at k entry).tables == 0
      then panics k
      else map_loop ((end - page + (page_size - 1)) / page_size) entry page rights k

  unfoldable pub map_windows : ℕ → List (ℕ × ℕ) → ℕ → Kernel B D → Outcome B D (Unit {0})
  map_windows entry [] rights k = returns tt k
  map_windows entry ((base, size) ∷ rest) rights k =
      map entry base (base + size) rights k >>= λ (u, k'). map_windows entry rest rights k'

  unfoldable pub lay_out : ℕ → ℕ → Kernel B D → Outcome B D (Unit {0})
  lay_out entry rights k =
      let space = space_at k entry in
      let data_rights = bit_and rights (flip 32 pte_x) in
      do
        (u, k₁) ← map entry space.base space.guard rights k
        (u, k₂) ← map entry (space.guard + os_guard_size) (space.base + space.span) rights k₁
        (u, k₃) ←
            if config.framebuffer != 0
            then map entry config.framebuffer (config.framebuffer + config.framebuffer_size)
                data_rights k₂
            else returns tt k₂
        if space.drives_engines
            then map_windows entry config.engine_windows data_rights k₃
            else returns tt k₃

  -- The root of an entry's first process is cleared; the leaves of a previous process are.
  unfoldable pub prepare_tables : ℕ → Kernel B D → Outcome B D (Unit {0})
  prepare_tables entry k =
      let space = space_at k entry in
      if space.tables != 0
      then lay_out entry 0 k
      else returns tt
          (with_space entry (record space { tables = 1 }) (clear_table (table_at config entry 0) k))

  unfoldable pub map_process : ℕ → ℕ → Kernel B D → Outcome B D (Unit {0})
  map_process entry stack k = prepare_tables entry k >>= λ (u, k').
      let p = proc_at k' entry in
      lay_out entry pte_rwx (
        with_space entry
          (record (space_at k' entry) {
            base = p.base;
            span = p.span;
            guard = p.base + p.span - stack;
            drives_engines = drives p;
          })
          k')
