-- ===== src/Os/Kernel/Safety/Filing.antt =====
-- The system calls on files and on the console, but for an open, leave the process table quiet.
use tiny_processors.Prelude.{
  ℕ, zero, suc, ◌+◌, ◌≡◌, refl, inl, inr, arith, Bool, true, false, ◌&&◌, ◌||◌, ◌==◌, ◌!=◌,
  if◌then◌else◌, Bool-cases, Option-cases, get_or, get_or-set,
}
use tiny_processors.Os.Disk.{Disk}
use tiny_processors.Os.Fs.{Fs}
use tiny_processors.Os.Fs.Directory.{fs_name, fs_size}
use tiny_processors.Os.Fs.Data.{Count, fs_error, count, fs_read, fs_write}
use tiny_processors.Os.Kernel.{
  Kernel, Board, returns, Proc, OpenFile, blocked_read, no_file, alive, proc_at, space_at,
  with_board, o_read, o_write,
}
use tiny_processors.Os.Kernel.Memory.{user_range}
use tiny_processors.Os.Kernel.Files.{open_file_of, seek_file}
use tiny_processors.Os.Kernel.Calls.Ending.{result, fails}
use tiny_processors.Os.Kernel.Calls.Filing.{
  with_file, advance, seek_call, files_call, close_call, put_loop, get_loop, write_call,
  read_console, read_call,
}
use tiny_processors.Os.Kernel.Safety.{QuietProc, Quiet-refl, Quiet-set}
use tiny_processors.Os.Kernel.Safety.Returns.{Asks, Asks-same, Asks-returns, Asks-if, Asks-after}
use tiny_processors.Os.Kernel.Safety.Waking.{QuietProc-state}
use tiny_processors.Os.Kernel.Safety.Ending.{QuietProc-close, close_file-closed}

-- A descriptor whose position alone is another.
QuietProc-moved :
    (p : Proc) (f to : ℕ)
    → QuietProc p (with_file f (record (get_or p.files f no_file) { position = to }) p)
QuietProc-moved p f to = record {
  lives = λ h. h;
  base = λ h. refl;
  span = λ h. refl;
  opened = λ g h. ground (arith, get_or-set p.files f g o no_file);
  mode = λ g h. ground (arith, get_or-set p.files f g o no_file);
  file = λ g h. ground (arith, get_or-set p.files f g o no_file);
}
  where
    o : OpenFile
    o = record (get_or p.files f no_file) { position = to }

module _ {B D : Type 0} where
  advance-Quiet : (i f : ℕ) (c : Count) (k : Kernel B D) → Asks k (advance i f c k)
  unfolding advance
  advance-Quiet i f fs_error k = Asks-same k k _ refl
  advance-Quiet i f (count c) k =
      Asks-returns k _ _ (Quiet-set k.procs i _ (QuietProc-moved (proc_at k i) f _))

  pub seek_call-Quiet : (i a0 a1 a2 : ℕ) (k : Kernel B D) → Asks k (seek_call i a0 a1 a2 k)
  unfolding seek_call
  seek_call-Quiet i a0 a1 a2 k = elim (Option-cases (open_file_of (proc_at k i) a0 0)) [
    | inl closed ↦ rw (closed, seek_call) (Asks-same k k _ refl)
    | inr f ↦ elim (Option-cases (seek_file (o f.0) (fs_size (o f.0).file k.fs) a1 a2)) [
      | inl outside ↦ rw (f.1, outside, seek_call) (Asks-same k k _ refl)
      | inr to ↦
          rw (f.1, to.1, seek_call)
            (Asks-returns k _ _ (Quiet-set k.procs i _ (QuietProc-moved (proc_at k i) f.0 to.0)))
    ]
  ]
    where
      o : ℕ → OpenFile
      o f = get_or (proc_at k i).files f no_file

  pub files_call-Quiet : (i a0 a1 a2 : ℕ) (k : Kernel B D) → Asks k (files_call i a0 a1 a2 k)
  unfolding files_call
  files_call-Quiet i a0 a1 a2 k = elim (Option-cases (fs_name a0 k.fs)) [
    | inl missing ↦ rw (missing, files_call) (Asks-same k k _ refl)
    | inr found ↦
        rw (found.1, files_call) (Asks-if k _ _ _ (Asks-same k _ _ refl) (Asks-same k k _ refl))
  ]

  module _ (disk : Disk D) where
    pub close_call-Quiet : (i a0 : ℕ) (k : Kernel B D) → Asks k (close_call disk i a0 k)
    unfolding close_call
    close_call-Quiet i a0 k = elim (Option-cases (open_file_of (proc_at k i) a0 0)) [
      | inl closed ↦ rw (closed, close_call) (Asks-same k k _ refl)
      | inr f ↦
          rw (f.1, close_call)
            (Asks-returns k _ _ (
              Quiet-set k.procs i _
                (QuietProc-close (proc_at k i) f.0 _ (close_file-closed disk _ k.fs))))
    ]

    module _ (board : Board B) where
      get_loop-procs :
          (left at got : ℕ) (k : Kernel B D) → (get_loop disk board left at got k).1.procs ≡ k.procs
      unfolding get_loop
      get_loop-procs zero at got k = refl
      get_loop-procs (suc left) at got k = elim (Bool-cases (board.console_ready k.board).0) [
        | inl waiting ↦ rw (waiting, get_loop) (get_loop-procs left (at + 1) (got + 1) _)
        | inr idle ↦ rw (idle, get_loop) refl
      ]

      pub write_call-Quiet :
          (i a0 a1 a2 : ℕ) (k : Kernel B D) → Asks k (write_call disk board i a0 a1 a2 k)
      unfolding write_call
      write_call-Quiet i a0 a1 a2 k = elim (Option-cases (open_file_of (proc_at k i) a0 o_write)) [
        | inl closed ↦ rw (closed, write_call) (to_console in_range)
        | inr f ↦ elim (Bool-cases in_range) [
          | inl inside ↦ rw (f.1, inside, write_call) (moves f.0)
          | inr outside ↦ rw (f.1, outside, write_call) (to_console false)
        ]
      ]
        where
          in_range : Bool
          in_range = user_range (proc_at k i).base (proc_at k i).span (space_at k i).guard a1 a2

          to_console :
              (b : Bool)
              → Asks k (
                  if (a0 == 1 || a0 == 2) && b
                  then returns
                      (result a2)
                      (with_board (put_loop disk board a2 a1 k.memory k.board) k)
                  else fails k)
          to_console b = Asks-if k _ _ _ (Asks-same k _ _ refl) (Asks-same k k _ refl)

          written : ℕ → Count × Fs D
          written f =
              let o = get_or (proc_at k i).files f no_file in
              fs_write disk o.file o.position (λ j. k.memory (a1 + j)) a2 k.fs

          moves : (f : ℕ) → Asks k (advance i f (written f).0 (record k { fs = (written f).1 }))
          moves f =
              Asks-after k (record k { fs = (written f).1 }) _ (Quiet-refl k.procs)
                (advance-Quiet i f _ _)

      read_console-Quiet :
          (i a1 a2 : ℕ) (k : Kernel B D)
          → alive (proc_at k i) ≡ true
          → Asks k (read_console disk board i a1 a2 k)
      unfolding read_console
      read_console-Quiet i a1 a2 k lives = elim (Bool-cases (board.console_ready k.board).0) [
        | inl waiting ↦
            rw (waiting, read_console)
              (Asks-same k _ _
                (get_loop-procs a2 a1 0 (with_board (board.console_ready k.board).1 k)))
        | inr idle ↦
            rw (idle, read_console)
              (Asks-returns k _ _
                (Quiet-set k.procs i _ (QuietProc-state (proc_at k i) blocked_read lives)))
      ]

      pub read_call-Quiet :
          (i a0 a1 a2 : ℕ) (k : Kernel B D)
          → alive (proc_at k i) ≡ true
          → Asks k (read_call disk board i a0 a1 a2 k)
      unfolding read_call
      read_call-Quiet i a0 a1 a2 k lives =
          elim (Option-cases (open_file_of (proc_at k i) a0 o_read)) [
            | inl closed ↦ rw (closed, read_call) (from_console in_range)
            | inr f ↦ elim (Bool-cases in_range) [
              | inl inside ↦ rw (f.1, inside, read_call) (moves f.0)
              | inr outside ↦ rw (f.1, outside, read_call) (from_console false)
            ]
          ]
        where
          in_range : Bool
          in_range = user_range (proc_at k i).base (proc_at k i).span (space_at k i).guard a1 a2

          from_console :
              (b : Bool)
              → Asks k
                  (if a0 == 0 && a2 != 0 && b then read_console disk board i a1 a2 k else fails k)
          from_console b =
              Asks-if k _ _ _ (read_console-Quiet i a1 a2 k lives) (Asks-same k k _ refl)

          read : ℕ → Count × (ℕ → ℕ) × Fs D
          read f =
              let o = get_or (proc_at k i).files f no_file in
              fs_read disk o.file o.position a1 a2 k.memory k.fs

          moves :
              (f : ℕ)
              → Asks k (advance i f (read f).0 (record k { memory = (read f).1; fs = (read f).2 }))
          moves f =
              Asks-after k (record k { memory = (read f).1; fs = (read f).2 }) _
                (Quiet-refl k.procs) (advance-Quiet i f _ _)
