-- ===== src/Os/Kernel/Calls/Processes.antt =====
-- The system calls of programs/rv32/os/kernel.c on processes and programs.
use tiny_processors.Prelude.{
  ℕ, zero, suc, ◌+◌, ◌-◌, ◌/◌, ◌%◌, ◌^◌, true, false, not, ◌&&◌, ◌||◌, List, [], ◌∷◌, ◌++◌, Option,
  none, some, ltb, leb, ◌==◌, ◌!=◌, if◌then◌else◌, get_or, length,
}
use tiny_processors.Os.Disk.{Disk}
use tiny_processors.Os.Fs.{char_at}
use tiny_processors.Os.Fs.Data.{copied}
use tiny_processors.Os.Kernel.{
  Kernel, Board, Config, Outcome, returns, ◌>>=◌, Proc, Program, State, free, ready, running,
  blocked_read, blocked_wait, blocked_sleep, zombie, is_free, is_zombie, proc_at, space_at,
  with_proc, with_board, max_procs, args_max,
}
use tiny_processors.Os.Kernel.Calls.Ending.{Answer, again, fails, gives}
use tiny_processors.Os.Kernel.Memory.{user_range, string_loop}
use tiny_processors.Os.Kernel.Process.{spawn, text_of}

abbrev empty_program : Program
empty_program = record {
  name = [];
  load = 0;
  entry = 0;
  file_size = 0;
  memory_size = 0;
  offset = 0;
  flags = 0;
  span = 0;
  stack = 0;
}

-- `kdecimal`: the digits of a number below 10 ^ left, before those of `rest`.
unfoldable pub digit_loop : ℕ → ℕ → List ℕ → List ℕ
digit_loop zero value rest = rest
digit_loop (suc left) value rest = elim (value / 10 == 0) [
  | true ↦ (48 + value % 10) ∷ rest
  | false ↦ digit_loop left (value / 10) ((48 + value % 10) ∷ rest)
]

unfoldable pub kdecimal : ℕ → List ℕ
kdecimal value = digit_loop 10 value []

unfoldable pub first_bytes : ℕ → List ℕ → List ℕ
first_bytes zero s = []
first_bytes (suc n) [] = []
first_bytes (suc n) (c ∷ s) = c ∷ first_bytes n s

unfoldable pub state_name : State → List ℕ
state_name free = b'f' ∷ b'r' ∷ b'e' ∷ b'e' ∷ []
state_name ready = b'r' ∷ b'e' ∷ b'a' ∷ b'd' ∷ b'y' ∷ []
state_name running = b'r' ∷ b'u' ∷ b'n' ∷ b'n' ∷ b'i' ∷ b'n' ∷ b'g' ∷ []
state_name blocked_read = b'r' ∷ b'e' ∷ b'a' ∷ b'd' ∷ b'i' ∷ b'n' ∷ b'g' ∷ []
state_name blocked_wait = b'w' ∷ b'a' ∷ b'i' ∷ b't' ∷ b'i' ∷ b'n' ∷ b'g' ∷ []
state_name blocked_sleep = b's' ∷ b'l' ∷ b'e' ∷ b'e' ∷ b'p' ∷ b'i' ∷ b'n' ∷ b'g' ∷ []
state_name zombie = b'z' ∷ b'o' ∷ b'm' ∷ b'b' ∷ b'i' ∷ b'e' ∷ []

-- The line of SYS_PS: the name and the state in 36 bytes at most, and the pid.
unfoldable pub ps_line : Proc → List ℕ
ps_line q = first_bytes 36 (text_of 24 q.name ++ (32 ∷ state_name q.state)) ++ (32 ∷ kdecimal q.pid)

-- A string and its NUL put in memory.
unfoldable pub put_string : ℕ → List ℕ → (ℕ → ℕ) → ℕ → ℕ
put_string at s memory = copied at (length s + 1) (char_at s) memory

module _ {B D : Type 0} where
  unfoldable pub sbrk_call : ℕ → ℕ → Kernel B D → Outcome B D Answer
  sbrk_call i a0 k =
      let p = proc_at k i in
      if leb a0 (((space_at k i).guard + 2 ^ 32 - p.brk) % 2 ^ 32)
      then gives p.brk (with_proc i (record p { brk = (p.brk + a0) % 2 ^ 32 }) k)
      else fails k

  -- The loop of SYS_WAIT from index `j` on, with `left` entries to go, and the result so far.
  unfoldable pub wait_loop : ℕ → ℕ → ℕ → ℕ → ℕ → Kernel B D → Outcome B D Answer
  wait_loop zero j i a0 value k = gives value k
  wait_loop (suc left) j i a0 value k =
      let child = proc_at k j in
      let p = proc_at k i in
      elim (is_free child.state || child.pid != a0 || child.parent != p.pid) [
        | true ↦ wait_loop left (j + 1) i a0 value k
        | false ↦ elim (is_zombie child.state) [
          | false ↦ returns again (with_proc i (record p { state = blocked_wait; wait_pid = a0 }) k)
          | true ↦
              wait_loop left (j + 1) i a0 child.exit_code
                (with_proc j (record child { state = free }) k)
        ]
      ]

  unfoldable pub wait_call : ℕ → ℕ → Kernel B D → Outcome B D Answer
  wait_call i a0 k = wait_loop max_procs 0 i a0 0xffff_ffff k

  unfoldable pub list_call : Config → ℕ → ℕ → ℕ → ℕ → Kernel B D → Outcome B D Answer
  list_call config i a0 a1 a2 k =
      let p = proc_at k i in
      let name = text_of 24 (get_or config.programs a0 empty_program).name in
      if ltb a0 (length config.programs)
        && user_range p.base p.span (space_at k i).guard a1 a2
        && ltb (length name) a2
      then gives (length name) (record k { memory = put_string a1 name k.memory })
      else fails k

  unfoldable pub yield_call : ℕ → Kernel B D → Outcome B D Answer
  yield_call i k = gives 0 (with_proc i (record (proc_at k i) { state = ready }) k)

  unfoldable pub sleep_call : Board B → ℕ → ℕ → Kernel B D → Outcome B D Answer
  sleep_call board i a0 k =
      let (time, b) = board.mtime k.board in
      let p = proc_at k i in
      gives 0 (
        with_proc i (record p { wake = (time + a0) % 2 ^ 64; state = blocked_sleep })
          (with_board b k))

  unfoldable pub ps_call : ℕ → ℕ → ℕ → ℕ → Kernel B D → Outcome B D Answer
  ps_call i a0 a1 a2 k =
      let p = proc_at k i in
      let q = proc_at k a0 in
      if ltb a0 max_procs
        && not (is_free q.state)
        && user_range p.base p.span (space_at k i).guard a1 a2
        && leb 48 a2
      then gives (length (ps_line q)) (record k { memory = put_string a1 (ps_line q) k.memory })
      else fails k

  -- The pid of the process that `spawn` made.
  unfoldable pub child_pid : Option ℕ → Kernel B D → ℕ
  child_pid none k = 0xffff_ffff
  child_pid (some j) k = (proc_at k j).pid

  unfoldable pub spawn_call :
      Board B → Disk D → Config → ℕ → ℕ → ℕ → Kernel B D → Outcome B D Answer
  spawn_call board disk config i a0 a1 k =
      let p = proc_at k i in
      let guard = (space_at k i).guard in
      elim (string_loop 24 p.base p.span guard k.memory a0) [
        | none ↦ fails k
        | some name ↦ elim (string_loop args_max p.base p.span guard k.memory a1) [
          | none ↦ fails k
          | some args ↦
              spawn disk config name args p.pid k >>= λ (child, k'). gives (child_pid child k') k'
        ]
      ]
