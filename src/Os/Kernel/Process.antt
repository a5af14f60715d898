-- ===== src/Os/Kernel/Process.antt =====
-- The life of a process in programs/rv32/os/kernel.c: `spawn` and `finish`, and what they call. The kernel's own
-- messages are left out.
use tiny_processors.Prelude.{
  ℕ, zero, suc, ◌+◌, ◌-◌, ◌*◌, ◌%◌, ◌^◌, min, Bool, true, false, not, ◌&&◌, ◌||◌, List, [], ◌∷◌,
  Option, none, some, ltb, ◌==◌, ◌!=◌, if◌then◌else◌, set, length, replicate, bit_and, bit_xor, map,
}
use tiny_processors.Prelude.Bits.{flip}
use tiny_processors.Os.Disk.{Disk}
use tiny_processors.Os.Fs.{char_at}
use tiny_processors.Os.Fs.Data.{Count, fs_error, count, copied, fs_read}
use tiny_processors.Os.Fs.Directory.{fs_open, fs_size, word_at, name_at}
use tiny_processors.Os.Kernel.{
  Kernel, Board, Config, Outcome, returns, ◌>>=◌, Proc, Program, State, free, ready, blocked_wait,
  is_free, is_zombie, alive, drives, no_file, space_at, with_board, args_max, o_read,
}
use tiny_processors.Os.Kernel.Files.{may_open}
use tiny_processors.Os.Kernel.Memory.{entry_ok}
use tiny_processors.Os.Kernel.Paging.{map_process}

-- `fdt_same` of programs/rv32/fdt.c, on strings as the lists of their bytes.
unfoldable pub fdt_same : List ℕ → List ℕ → Bool
fdt_same [] b = char_at b 0 == 0
fdt_same (c ∷ a) [] = c == 0
fdt_same (c ∷ a) (d ∷ b) = elim (c == 0) [
  | true ↦ d == 0
  | false ↦ elim (c == d) [ true ↦ fdt_same a b | false ↦ false ]
]

unfoldable pub program_named : List ℕ → List Program → Option Program
program_named name [] = none
program_named name (p ∷ rest) = elim (fdt_same p.name name) [
  | true ↦ some p
  | false ↦ program_named name rest
]

-- `strlen` of a field of 24 bytes as a string: its bytes up to a NUL.
unfoldable pub text_of : ℕ → List ℕ → List ℕ
text_of zero s = []
text_of (suc left) [] = []
text_of (suc left) (c ∷ s) = elim (c == 0) [ true ↦ [] | false ↦ c ∷ text_of left s ]

abbrev pub ramdisk_magic : ℕ
ramdisk_magic = 0x4b53_4452

abbrev pub ramdisk_header : ℕ
ramdisk_header = 16

-- A RAM disk entry as it lies in memory.
unfoldable pub program_at : (ℕ → ℕ) → Program
program_at bytes = record {
  name = name_at 24 bytes 0;
  load = word_at bytes 24;
  entry = word_at bytes 28;
  file_size = word_at bytes 32;
  memory_size = word_at bytes 36;
  offset = word_at bytes 40;
  flags = word_at bytes 44;
  span = word_at bytes 48;
  stack = word_at bytes 52;
}

-- Whether `fs_read` returned `n`.
unfoldable pub is_count : ℕ → Count → Bool
is_count n fs_error = false
is_count n (count c) = c == n

-- The tests of `disk_program` on a file's header and entry.
unfoldable pub is_ramdisk : (ℕ → ℕ) → Bool
is_ramdisk header =
    word_at header 0 == ramdisk_magic
    && word_at header 4 == 1
    && word_at header 8 == 0
    && word_at header 12 == 0

unfoldable pub is_runnable : List ℕ → ℕ → Program → Bool
is_runnable name size e = entry_ok e size && fdt_same e.name name && e.flags == 0

-- The first free entry of the process table, unless a live process has a slot of [load, load + span).
unfoldable pub find_slot : ℕ → ℕ → List Proc → ℕ → Option ℕ → Option ℕ
find_slot load span [] i chosen = chosen
find_slot load span (q ∷ rest) i chosen =
    elim (alive q && ltb q.base (load + span) && ltb load (q.base + q.span)) [
      | true ↦ none
      | false ↦
          find_slot load span rest (i + 1)
            (elim chosen [ some j ↦ some j | none ↦ if is_free q.state then some i else none ])
    ]

-- The process that `spawn` puts in the table.
unfoldable pub new_proc : Program → ℕ → ℕ → Proc
new_proc program pid parent =
    let top = program.load + program.span in
    record {
      x =
          set (set (replicate 32 0) 2 (bit_and (top - args_max - 16) (flip 32 15))) 10
            (top - args_max);
      pc = program.entry;
      mstatus = 0x80;
      files = replicate 4 no_file;
      state = ready;
      pid = pid;
      parent = parent;
      base = program.load;
      span = program.span;
      brk = bit_and (program.load + program.memory_size + 15) (flip 32 15);
      exit_code = 0;
      wait_pid = 0;
      flags = program.flags;
      switches = 0;
      wake = 0;
      name = text_of 23 program.name;
    }

-- The image is in place: memory past it is cleared and the arguments are put on top of the stack.
unfoldable pub prepare_memory : Program → List ℕ → (ℕ → ℕ) → ℕ → ℕ
prepare_memory program args memory =
    let n = min (length args) (args_max - 1) in
    let arguments_at = program.load + program.span - args_max in
    copied (arguments_at + n) 1 (λ j. 0)
      (copied arguments_at n (char_at args) (
        copied (program.load + program.file_size) (program.memory_size - program.file_size) (λ j. 0)
          memory))

-- FNV-1a, the loop of `fold_name`.
unfoldable pub fold_loop : ℕ → List ℕ → ℕ
fold_loop h [] = h
fold_loop h (c ∷ s) = fold_loop (bit_xor h c * 16777619 % 2 ^ 32) s

unfoldable pub fold_name : List ℕ → ℕ
fold_name s = fold_loop 2166136261 s

-- The index of the live process of a pid, the last one.
unfoldable pub find_pid : ℕ → List Proc → ℕ → Option ℕ → Option ℕ
find_pid pid [] i before = before
find_pid pid (p ∷ rest) i before =
    find_pid pid rest (i + 1) (if alive p && p.pid == pid then some i else before)

-- Whether another live process than the one at index `i` drives the engines.
unfoldable pub another_drives : ℕ → ℕ → List Proc → Bool
another_drives i j [] = false
another_drives i j (p ∷ rest) = (i != j && alive p && drives p) || another_drives i (j + 1) rest

-- The zombies that a finished process leaves behind are freed.
unfoldable pub free_children : ℕ → List Proc → List Proc
free_children pid =
    map (λ q. if is_zombie q.state && q.parent == pid then record q { state = free } else q)

unfoldable pub is_waiting : State → Bool
is_waiting blocked_wait = true
is_waiting s = false

module _ {B : Type 0} (board : Board B) where
  -- The loop of `write_palette`, with `left` entries to go.
  unfoldable pub palette_loop : ℕ → ℕ → (ℕ → ℕ) → B → B
  palette_loop zero i colours b = b
  palette_loop (suc left) i colours b =
      palette_loop left (i + 1) colours (board.palette_put i (colours i) b)

  unfoldable pub write_palette : {D : Type 0} → (ℕ → ℕ) → Kernel B D → Kernel B D
  write_palette colours k = with_board (palette_loop 256 0 colours k.board) k

module _ {B D : Type 0} (disk : Disk D) (config : Config) where
  -- A program's file on the disk.
  unfoldable pub read_program : List ℕ → ℕ → Kernel B D → Option (ℕ × Program) × Kernel B D
  read_program name file k =
      let size = fs_size file k.fs in
      let (read, header, fs₁) = fs_read disk file 0 0 ramdisk_header (λ a. 0) k.fs in
      let (read', bytes, fs₂) = fs_read disk file ramdisk_header 0 56 (λ a. 0) fs₁ in
      if not (is_count ramdisk_header read && is_ramdisk header)
      then (none, record k { fs = fs₁ })
      else if is_count 56 read' && is_runnable name size (program_at bytes)
      then (some (file, program_at bytes), record k { fs = fs₂ })
      else (none, record k { fs = fs₂ })

  unfoldable pub disk_program : List ℕ → Kernel B D → Option (ℕ × Program) × Kernel B D
  disk_program name k =
      let (opened, fs') = fs_open disk name false k.fs in
      elim opened [
        | none ↦ (none, record k { fs = fs' })
        | some file ↦
            if may_open file o_read k.procs
            then read_program name file (record k { fs = fs' })
            else (none, record k { fs = fs' })
      ]

  -- The program of a name, and its file if it is on the disk.
  unfoldable pub find_program : List ℕ → Kernel B D → Option (Option ℕ × Program) × Kernel B D
  find_program name k = elim (program_named name config.programs) [
    | some program ↦ (some (none, program), k)
    | none ↦
        let (on_disk, k') = disk_program name k in
        elim on_disk [ none ↦ (none, k') | some (file, program) ↦ (some (some file, program), k') ]
  ]

  -- The program's file is read into its slots; `none` where the read fails.
  unfoldable pub load_image : Option ℕ → Program → Kernel B D → Bool × Kernel B D
  load_image none program k = (
    true,
    record k {
      memory =
          copied program.load program.file_size (λ j. config.ramdisk (program.offset + j)) k.memory;
    },
  )
  load_image (some file) program k =
      let (read, memory', fs') =
        fs_read disk file program.offset program.load program.file_size k.memory k.fs in
      (is_count program.file_size read, record k { memory = memory'; fs = fs' })

  -- The process in its entry of the table, with its pages mapped.
  unfoldable pub start : ℕ → Program → List ℕ → ℕ → Kernel B D → Outcome B D (Option ℕ)
  start i program args parent k =
      let space = space_at k i in
      let k' = record k {
        procs = set k.procs i (new_proc program k.next_pid parent);
        spaces = set k.spaces i (record space { float_state = replicate 33 0 });
        next_pid = (k.next_pid + 1) % 2 ^ 32;
        memory = prepare_memory program args k.memory;
      } in
      map_process config i program.stack k' >>= λ (u, k''). returns (some i) k''

  unfoldable pub spawn : List ℕ → List ℕ → ℕ → Kernel B D → Outcome B D (Option ℕ)
  spawn name args parent k =
      let (program, k₁) = find_program name k in
      elim program [
        | none ↦ returns none k₁
        | some (file, p) ↦ elim (find_slot p.load p.span k₁.procs 0 none) [
          | none ↦ returns none k₁
          | some i ↦
              let (loaded, k₂) = load_image file p k₁ in
              if loaded then start i p args parent k₂ else returns none k₂
        ]
      ]
