-- ===== src/Os/Kernel/Calls/Filing.antt =====
-- The system calls of programs/rv32/os/kernel.c on files and on the console.
use tiny_processors.Prelude.{
  ℕ, zero, suc, ◌+◌, ◌%◌, ◌^◌, true, false, not, ◌&&◌, ◌||◌, List, [], ◌∷◌, Option, none, some, ltb,
  leb, ◌==◌, ◌!=◌, if◌then◌else◌, get_or, set, length,
}
use tiny_processors.Prelude.Bits.{has}
use tiny_processors.Os.Disk.{Disk}
use tiny_processors.Os.Fs.Data.{Count, fs_error, count, fs_read, fs_write}
use tiny_processors.Os.Fs.Directory.{fs_open, fs_truncate, fs_size, fs_name}
use tiny_processors.Os.Kernel.{
  Kernel, Board, Outcome, returns, Proc, OpenFile, blocked_read, no_file, proc_at, space_at,
  with_proc, with_board, os_first_file, o_read, o_write, o_create, sys_error,
}
use tiny_processors.Os.Kernel.Calls.Ending.{Answer, again, fails, gives}
use tiny_processors.Os.Kernel.Calls.Processes.{put_string}
use tiny_processors.Os.Kernel.Files.{open_file_of, may_open, close_file, seek_file}
use tiny_processors.Os.Kernel.Memory.{user_range, string_loop}
use tiny_processors.Os.Kernel.Process.{text_of}

-- Descriptor slot `f` of a process holds `o`.
abbrev pub with_file : ℕ → OpenFile → Proc → Proc
with_file f o p = record p { files = set p.files f o }

-- The first descriptor that is closed.
unfoldable pub free_file : List OpenFile → ℕ → Option ℕ
free_file [] at = none
free_file (o ∷ rest) at = elim (o.mode == 0) [ true ↦ some at | false ↦ free_file rest (at + 1) ]

module _ {B D : Type 0} where
  -- What a transfer of a file makes of its position and of the call's result.
  unfoldable pub advance : ℕ → ℕ → Count → Kernel B D → Outcome B D Answer
  advance i f fs_error k = fails k
  advance i f (count c) k =
      let p = proc_at k i in
      let o = get_or p.files f no_file in
      gives c (with_proc i (with_file f (record o { position = (o.position + c) % 2 ^ 32 }) p) k)

  unfoldable pub seek_call : ℕ → ℕ → ℕ → ℕ → Kernel B D → Outcome B D Answer
  seek_call i a0 a1 a2 k =
      let p = proc_at k i in
      elim (open_file_of p a0 0) [
        | none ↦ fails k
        | some f ↦
            let o = get_or p.files f no_file in
            elim (seek_file o (fs_size o.file k.fs) a1 a2) [
              | none ↦ fails k
              | some to ↦ gives to (with_proc i (with_file f (record o { position = to }) p) k)
            ]
      ]

  unfoldable pub files_call : ℕ → ℕ → ℕ → ℕ → Kernel B D → Outcome B D Answer
  files_call i a0 a1 a2 k =
      let p = proc_at k i in
      elim (fs_name a0 k.fs) [
        | none ↦ fails k
        | some (name, size) ↦
            let text = text_of 20 name in
            if user_range p.base p.span (space_at k i).guard a1 a2 && ltb (length text) a2
            then gives size (record k { memory = put_string a1 text k.memory })
            else fails k
      ]

  module _ (disk : Disk D) where
    unfoldable pub close_call : ℕ → ℕ → Kernel B D → Outcome B D Answer
    close_call i a0 k =
        let p = proc_at k i in
        elim (open_file_of p a0 0) [
          | none ↦ fails k
          | some f ↦
              let (o, was_lost, fs') = close_file disk (get_or p.files f no_file) k.fs in
              gives (if was_lost then sys_error else 0)
                (record (with_proc i (with_file f o p) k) { fs = fs' })
        ]

    -- The file is opened unless another process has it open in a way that `may_open` refuses.
    unfoldable pub install : ℕ → ℕ → ℕ → ℕ → Kernel B D → Outcome B D Answer
    install i f mode file k =
        let p = proc_at k i in
        let o : OpenFile = record { mode = mode; file = file; position = 0 } in
        if may_open file mode k.procs
        then gives (os_first_file + f) (record (with_proc i (with_file f o p) k) {
          fs = if mode == o_write then fs_truncate file k.fs else k.fs;
        })
        else fails k

    unfoldable pub open_call : ℕ → ℕ → ℕ → Kernel B D → Outcome B D Answer
    open_call i a0 a1 k =
        let p = proc_at k i in
        let mode = a1 % 4 in
        if not (mode == o_read || mode == o_write) || leb 8 a1
        then fails k
        else elim (string_loop 20 p.base p.span (space_at k i).guard k.memory a0) [
          | none ↦ fails k
          | some name ↦ elim (free_file p.files 0) [
            | none ↦ fails k
            | some f ↦
                let (opened, fs') = fs_open disk name (has a1 o_create && mode == o_write) k.fs in
                elim opened [
                  | none ↦ fails (record k { fs = fs' })
                  | some file ↦ install i f mode file (record k { fs = fs' })
                ]
          ]
        ]

    module _ (board : Board B) where
      -- The console's bytes, with `left` to go.
      unfoldable pub put_loop : ℕ → ℕ → (ℕ → ℕ) → B → B
      put_loop zero at memory b = b
      put_loop (suc left) at memory b =
          put_loop left (at + 1) memory (board.console_put (memory at) b)

      unfoldable pub get_loop : ℕ → ℕ → ℕ → Kernel B D → ℕ × Kernel B D
      get_loop zero at got k = (got, k)
      get_loop (suc left) at got k =
          let (is_waiting, b) = board.console_ready k.board in
          let (byte, b') = board.console_get b in
          elim is_waiting [
            | false ↦ (got, with_board b k)
            | true ↦
                get_loop left (at + 1) (got + 1)
                  (record k { memory = λ a. if a == at then byte else k.memory a; board = b' })
          ]

      unfoldable pub write_call : ℕ → ℕ → ℕ → ℕ → Kernel B D → Outcome B D Answer
      write_call i a0 a1 a2 k =
          let p = proc_at k i in
          let in_range = user_range p.base p.span (space_at k i).guard a1 a2 in
          let to_console =
            if (a0 == 1 || a0 == 2) && in_range
            then gives a2 (with_board (put_loop a2 a1 k.memory k.board) k)
            else fails k in
          elim (open_file_of p a0 o_write) [
            | none ↦ to_console
            | some f ↦
                let o = get_or p.files f no_file in
                let (wrote, fs') =
                  fs_write disk o.file o.position (λ j. k.memory (a1 + j)) a2 k.fs in
                if in_range then advance i f wrote (record k { fs = fs' }) else to_console
          ]

      -- A read of the console waits for a byte.
      unfoldable pub read_console : ℕ → ℕ → ℕ → Kernel B D → Outcome B D Answer
      read_console i a1 a2 k =
          let (is_waiting, b) = board.console_ready k.board in
          let (got, k') = get_loop a2 a1 0 (with_board b k) in
          if is_waiting
          then gives got k'
          else returns again
              (with_proc i (record (proc_at k i) { state = blocked_read }) (with_board b k))

      unfoldable pub read_call : ℕ → ℕ → ℕ → ℕ → Kernel B D → Outcome B D Answer
      read_call i a0 a1 a2 k =
          let p = proc_at k i in
          let in_range = user_range p.base p.span (space_at k i).guard a1 a2 in
          let from_console =
            if a0 == 0 && a2 != 0 && in_range then read_console i a1 a2 k else fails k in
          elim (open_file_of p a0 o_read) [
            | none ↦ from_console
            | some f ↦
                let o = get_or p.files f no_file in
                let (read, memory', fs') = fs_read disk o.file o.position a1 a2 k.memory k.fs in
                if in_range
                then advance i f read (record k { memory = memory'; fs = fs' })
                else from_console
          ]
