-- ===== src/Os/Kernel/Files.antt =====
-- The descriptors of a process in programs/rv32/os/kernel.c: `open_file_of`, `may_open`, `close_file` and
-- `seek_file`.
use tiny_processors.Prelude.{
  ℕ, ◌+◌, ◌-◌, Bool, true, false, not, ◌&&◌, ◌||◌, List, [], ◌∷◌, Option, none, some, ltb, leb,
  ◌==◌, ◌!=◌, if◌then◌else◌, get_or,
}
use tiny_processors.Prelude.Int.{ℤ, pos, negsuc, signed32}
use tiny_processors.Os.Kernel.{Proc, OpenFile, no_file, is_free, open_files, os_first_file, o_write}
use tiny_processors.Os.Disk.{Disk}
use tiny_processors.Os.Fs.{Fs}
use tiny_processors.Os.Fs.Directory.{fs_flush}

-- The index in `files` of descriptor `fd`, open in `mode` (0: either).
unfoldable pub open_file_of : Proc → ℕ → ℕ → Option ℕ
open_file_of p fd mode =
    if ltb fd os_first_file || leb (os_first_file + open_files) fd
    then none
    else let o = get_or p.files (fd - os_first_file) no_file in
      if o.mode == 0 || mode != 0 && o.mode != mode then none else some (fd - os_first_file)

-- The test of `may_open` on an open file, and the loops over files and processes.
unfoldable pub conflicts : ℕ → ℕ → OpenFile → Bool
conflicts file mode o = o.mode != 0 && o.file == file && (mode == o_write || o.mode == o_write)

unfoldable pub any_conflict : ℕ → ℕ → List OpenFile → Bool
any_conflict file mode [] = false
any_conflict file mode (o ∷ rest) = conflicts file mode o || any_conflict file mode rest

unfoldable pub may_open : ℕ → ℕ → List Proc → Bool
may_open file mode [] = true
may_open file mode (p ∷ rest) =
    (is_free p.state || not (any_conflict file mode p.files)) && may_open file mode rest

-- `close_file`: the closed file, whether the call failed, and the file system.
unfoldable pub close_file : {D : Type 0} → Disk D → OpenFile → Fs D → OpenFile × Bool × Fs D
close_file disk o fs =
    let (stored, fs') = fs_flush disk fs in
    if o.mode == o_write
    then (record o { mode = 0 }, not stored, fs')
    else (record o { mode = 0 }, false, fs)

-- `seek_file` for an open file of `size` bytes: the new position. The offset is an `int32_t`, and the sum is in 64 bits.
unfoldable pub seek_to : ℕ → ℕ → ℤ → Option ℕ
seek_to from size (pos n) = if ltb size (from + n) then none else some (from + n)
seek_to from size (negsuc n) =
    if ltb from (n + 1) || ltb size (from - (n + 1)) then none else some (from - (n + 1))

unfoldable pub seek_file : OpenFile → ℕ → ℕ → ℕ → Option ℕ
seek_file o size offset whence =
    if whence == 0
    then seek_to 0 size (signed32 offset)
    else if whence == 1
    then seek_to o.position size (signed32 offset)
    else if whence == 2
    then seek_to size size (signed32 offset)
    else none
