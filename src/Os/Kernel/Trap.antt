-- ===== src/Os/Kernel/Trap.antt =====
-- Traps in programs/rv32/os/kernel.c: `drain_input`, `external_interrupt`, `kill`, `trapped_instruction` and
-- `kernel_trap`.
use tiny_processors.Prelude.{
  ℕ, zero, suc, ◌+◌, ◌%◌, ◌^◌, Bool, true, false, not, ◌&&◌, ◌||◌, Option, none, some, ◌==◌, ◌!=◌,
  if◌then◌else◌, set,
}
use tiny_processors.Emulator.Memory.{bytes_read}
use tiny_processors.Os.Disk.{Disk}
use tiny_processors.Os.Kernel.{
  Kernel, Board, Config, Outcome, returns, panics, ◌>>=◌, ready, is_running, proc_at, space_at,
  with_proc, with_board, key_buffer,
}
use tiny_processors.Os.Kernel.Calls.{syscall}
use tiny_processors.Os.Kernel.Fpu.{claim_fpu}
use tiny_processors.Os.Kernel.Memory.{user_range}
use tiny_processors.Os.Kernel.Exit.{finish}
use tiny_processors.Os.Kernel.Schedule.{next_ready, schedule}

-- A trap as `mcause` and `mtval` tell it.
pub data Cause : Type 0 where
  interrupt : ℕ → Cause
  exception : (cause tval : ℕ) → Cause

-- An event goes into the buffer, or is dropped.
unfoldable pub take_event : {B D : Type 0} → ℕ → Kernel B D → Kernel B D
take_event event k =
    if k.key_count == key_buffer
    then record k { keys_dropped = (k.keys_dropped + 1) % 2 ^ 32 }
    else record k {
      keys = set k.keys ((k.key_head + k.key_count) % key_buffer) event;
      key_count = k.key_count + 1;
    }

module _ {B D : Type 0} (board : Board B) where
  -- `drain_input`, for at most `fuel` events: the ones the device holds.
  unfoldable pub drain_loop : ℕ → Kernel B D → Kernel B D
  drain_loop zero k = k
  drain_loop (suc fuel) k =
      let (event, b) = board.input_event k.board in
      elim (event == 0) [
        | true ↦ with_board b k
        | false ↦ drain_loop fuel (take_event event (with_board b k))
      ]

  -- The tick of the timer: the process yields if another is ready.
  unfoldable pub preempt : Option ℕ → Kernel B D → Kernel B D
  preempt none k = k
  preempt (some i) k =
      let (next, k') = next_ready board (some i) k in
      let p = proc_at k' i in
      elim next [
        | none ↦ k'
        | some j ↦
            if is_running p.state && j != i
            then with_proc i (record p { state = ready; switches = (p.switches + 1) % 2 ^ 32 }) k'
            else k'
      ]

  unfoldable pub trapped_instruction : ℕ → ℕ → Kernel B D → ℕ
  trapped_instruction i tval k =
      let p = proc_at k i in
      if tval != 0 || not (user_range p.base p.span (space_at k i).guard p.pc 4)
      then tval
      else bytes_read k.memory p.pc 4

  module _ (config : Config) where
    unfoldable pub external_interrupt : ℕ → Kernel B D → Kernel B D
    external_interrupt fuel k =
        let (source, b) = board.plic_claim k.board in
        let k₁ = with_board b k in
        let k₂ =
          if source != 0 && config.has_input && source == config.input_source
          then drain_loop fuel k₁
          else k₁ in
        if source != 0 then with_board (board.plic_complete source k₂.board) k₂ else k₁

    unfoldable pub timer_interrupt : Kernel B D → Kernel B D
    timer_interrupt k =
        let (time, b) = board.mtime k.board in
        preempt k.current (with_board (board.set_timer ((time + config.tick) % 2 ^ 64) b) k)

    module _ (disk : Disk D) where
      -- The pc goes past the ecall of a call that finished.
      unfoldable pub step_past : ℕ → Bool → Kernel B D → Kernel B D
      step_past i done k =
          let p = proc_at k i in
          if done then with_proc i (record p { pc = (p.pc + 4) % 2 ^ 32 }) k else k

      unfoldable pub exception_of : ℕ → ℕ → ℕ → Kernel B D → Outcome B D (Unit {0})
      exception_of i cause tval k =
          if cause == 8 || cause == 11
          then (syscall board disk config i k >>= λ (done, k'). returns tt (step_past i done k'))
          else if cause == 2
          then (claim_fpu board i (trapped_instruction i tval k) k >>= λ (claimed, k').
              if claimed then returns tt k' else finish board disk config i (128 + cause) k')
          else finish board disk config i ((128 + cause) % 2 ^ 32) k

      -- What a trap does before it schedules. `fuel` bounds the events that the input device holds.
      unfoldable pub handle : ℕ → Cause → Kernel B D → Outcome B D (Unit {0})
      handle fuel (interrupt code) k =
          if code == 11
          then returns tt (external_interrupt fuel k)
          else if code == 7
          then returns tt (timer_interrupt k)
          else returns tt k
      handle fuel (exception cause tval) k = elim k.current [
        | none ↦ panics k
        | some i ↦ exception_of i cause tval k
      ]

      -- The trap of the context that `from` names, a process or the idle loop.
      unfoldable pub kernel_trap : ℕ → Option ℕ → Cause → Kernel B D → Outcome B D (Unit {0})
      kernel_trap fuel from cause k = handle fuel cause (record k { current = from }) >>= λ (u, k').
          returns tt (schedule board k')
