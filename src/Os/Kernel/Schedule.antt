-- ===== src/Os/Kernel/Schedule.antt =====
-- Scheduling in programs/rv32/os/kernel.c: `wake_blocked`, `engines_busy`, `next_ready`, `protect` and `schedule`.
use tiny_processors.Prelude.{
  ℕ, zero, suc, ◌+◌, ◌%◌, Bool, true, false, not, ◌&&◌, ◌||◌, List, [], ◌∷◌, Option, none, some,
  leb, ◌==◌, if◌then◌else◌,
}
use tiny_processors.Os.Kernel.{
  Kernel, Board, Proc, State, ready, running, blocked_read, blocked_sleep, is_ready, is_running,
  alive, drives, proc_at, with_proc, with_board, max_procs,
}

-- What `wake_blocked` has asked so far: the console, and the time.
pub record Asked (B : Type 0) : Type 0 where
  pub console : Option Bool
  pub now : ℕ
  pub board : B

pub data Sleep : Type 0 where
  reads : Sleep
  sleeps : Sleep
  other : Sleep

abbrev pub sleep_of : State → Sleep
sleep_of blocked_read = reads
sleep_of blocked_sleep = sleeps
sleep_of s = other

module _ {B : Type 0} (board : Board B) where
  -- One process: whether it wakes.
  unfoldable pub ask_console : Asked B → Bool × Asked B
  ask_console a = elim a.console [
    | some answer ↦ (answer, a)
    | none ↦
        let (answer, b) = board.console_ready a.board in
        (answer, record a { console = some answer; board = b })
  ]

  -- Time 0 is asked for again.
  unfoldable pub ask_time : ℕ → Asked B → Bool × Asked B
  ask_time wake a =
      let (time, b) = board.mtime a.board in
      if a.now == 0
      then (leb wake time, record a { now = time; board = b })
      else (leb wake a.now, a)

  unfoldable pub wakes : Proc → Asked B → Bool × Asked B
  wakes p a = elim (sleep_of p.state) [
    | reads ↦ ask_console a
    | sleeps ↦ ask_time p.wake a
    | other ↦ (false, a)
  ]

  unfoldable pub wake_loop : List Proc → Asked B → List Proc × Asked B
  wake_loop [] a = ([], a)
  wake_loop (p ∷ rest) a =
      let (woken, a') = wakes p a in
      let (rest', a'') = wake_loop rest a' in
      ((if woken then record p { state = ready } else p) ∷ rest', a'')

  unfoldable pub wake_blocked : {D : Type 0} → Kernel B D → Kernel B D
  wake_blocked k =
      let (procs', a) = wake_loop k.procs (record { console = none; now = 0; board = k.board }) in
      record k { procs = procs'; board = a.board }

-- The index that `next_ready` starts from.
abbrev pub after : Option ℕ → ℕ
after none = 0
after (some i) = i + 1

unfoldable pub any_drives : List Proc → Bool
any_drives [] = false
any_drives (p ∷ rest) = (alive p && drives p) || any_drives rest

module _ {B D : Type 0} (board : Board B) where
  unfoldable pub engines_busy : Kernel B D → Bool × Kernel B D
  engines_busy k =
      let (at_work, b) = board.engines_at_work k.board in
      if not k.engines_used
      then (false, k)
      else if at_work
      then (true, with_board b k)
      else (false, record k { engines_used = any_drives k.procs; board = b })

  unfoldable pub known_busy : Option Bool → Kernel B D → Bool × Kernel B D
  known_busy none k = engines_busy k
  known_busy (some busy) k = (busy, k)

  -- The loop of `next_ready` from index `at` on, with `left` entries to go. The engines are asked about at the first
  -- ready process that does not drive them.
  unfoldable pub ready_loop : ℕ → ℕ → Option Bool → Kernel B D → Option ℕ × Kernel B D
  ready_loop zero at busy k = (none, k)
  ready_loop (suc left) at busy k =
      let p = proc_at k (at % max_procs) in
      elim (is_ready p.state) [
        | false ↦ ready_loop left (at + 1) busy k
        | true ↦ elim (drives p) [
          | true ↦ (some (at % max_procs), k)
          | false ↦
              let (is_busy, k') = known_busy busy k in
              elim is_busy [
                | true ↦ ready_loop left (at + 1) (some true) k'
                | false ↦ (some (at % max_procs), k')
              ]
        ]
      ]

  unfoldable pub next_ready : Option ℕ → Kernel B D → Option ℕ × Kernel B D
  next_ready from k = ready_loop max_procs (after from) none k

  -- `protect`: PMP, the page tables and the DMA window for the process at `i`.
  unfoldable pub protect : ℕ → Kernel B D → Kernel B D
  protect i k =
      let p = proc_at k i in
      if p.pid == k.protected_pid then k else record k {
        protected_pid = p.pid;
        board = board.protect p.base p.span (drives p) i k.board;
      }

  -- Whether the current process goes on.
  unfoldable pub goes_on : Kernel B D → Bool
  goes_on k = elim k.current [ none ↦ false | some i ↦ is_running (proc_at k i).state ]

  unfoldable pub choose : Kernel B D → Kernel B D
  choose k =
      let (next, k') = next_ready k.current k in
      elim next [
        | none ↦ record k' { current = none }
        | some i ↦ record (with_proc i (record (proc_at k' i) { state = running }) k') {
          current = some i;
        }
      ]

  -- The end of `schedule`: the machine is set up for the current process.
  unfoldable pub set_up : Kernel B D → Kernel B D
  set_up k = elim k.current [
    | none ↦ k
    | some i ↦ protect i (if drives (proc_at k i) then record k { engines_used = true } else k)
  ]

  -- The frame that `schedule` returns is that of the current process, or the idle loop's.
  unfoldable pub schedule : Kernel B D → Kernel B D
  schedule k = let k' = wake_blocked board k in set_up (if goes_on k' then k' else choose k')
