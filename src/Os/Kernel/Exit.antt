-- ===== src/Os/Kernel/Exit.antt =====
-- The end of a process in programs/rv32/os/kernel.c: `finish` and what it calls.
use tiny_processors.Prelude.{
  ℕ, zero, suc, ◌+◌, ◌%◌, ◌^◌, not, ◌&&◌, ◌||◌, Option, none, some, ◌==◌, if◌then◌else◌, get_or,
  set, bit_xor,
}
use tiny_processors.Os.Disk.{Disk}
use tiny_processors.Os.Kernel.{
  no_proc, Kernel, Board, Config, Outcome, returns, halts, free, ready, zombie, drives, no_file,
  proc_at, with_proc, with_board,
}
use tiny_processors.Os.Kernel.Files.{close_file}
use tiny_processors.Os.Kernel.Process.{
  find_pid, another_drives, free_children, is_waiting, write_palette, fold_name,
}

module _ {B D : Type 0} (board : Board B) (disk : Disk D) (config : Config) where
  unfoldable pub stop_orphaned_engines : ℕ → Kernel B D → Kernel B D
  stop_orphaned_engines i k =
      let (at_work, b) = board.engines_at_work k.board in
      if not (drives (proc_at k i)) || another_drives i 0 k.procs
      then k
      else with_board (if at_work then board.reset_engines b else b) k

  unfoldable pub restore_palette : ℕ → Kernel B D → Kernel B D
  restore_palette i k =
      if k.palette_writer == (proc_at k i).pid
      then record (write_palette board config.boot_palette k) { palette_writer = 0 }
      else k

  unfoldable pub drop_fpu : ℕ → Kernel B D → Kernel B D
  drop_fpu i k = elim k.fpu_owner [
    | none ↦ k
    | some j ↦ if i == j then record k { fpu_owner = none } else k
  ]

  -- `close_file` on each file of the process at `i`, with `left` to go.
  unfoldable pub close_loop : ℕ → ℕ → ℕ → Kernel B D → Kernel B D
  close_loop zero at i k = k
  close_loop (suc left) at i k =
      let p = proc_at k i in
      let (o, was_lost, fs') = close_file disk (get_or p.files at no_file) k.fs in
      close_loop left (at + 1) i
        (record k { procs = set k.procs i (record p { files = set p.files at o }); fs = fs' })

  -- The end of `finish`: who waits for the process, if anybody can.
  unfoldable pub hand_over : ℕ → Option ℕ → ℕ → Kernel B D → Outcome B D (Unit {0})
  hand_over i none code k =
      let p = proc_at k i in
      if p.pid == 1 then halts code k else returns tt (with_proc i (record p { state = free }) k)
  hand_over i (some parent) code k =
      let p = proc_at k i in
      let k' = with_proc i (record p { state = zombie }) k in
      let q = proc_at k' parent in
      returns tt (
        if is_waiting q.state && q.wait_pid == p.pid
        then with_proc parent (record q { state = ready }) k'
        else k')

  -- What `finish` does before it looks for the parent.
  unfoldable pub wind_up : ℕ → ℕ → Kernel B D → Kernel B D
  wind_up i code k =
      let k₁ = close_loop 4 0 i (drop_fpu i (restore_palette i (stop_orphaned_engines i k))) in
      let procs' = free_children (proc_at k₁ i).pid k₁.procs in
      let p = get_or procs' i no_proc in
      record k₁ {
        procs = set procs' i (record p { exit_code = code });
        exits = (k₁.exits + 1) % 2 ^ 32;
        exit_sum = (k₁.exit_sum + bit_xor (fold_name p.name) code) % 2 ^ 32;
      }

  unfoldable pub finish : ℕ → ℕ → Kernel B D → Outcome B D (Unit {0})
  finish i code k =
      let k' = wind_up i code k in
      hand_over i (find_pid (proc_at k' i).parent k'.procs 0 none) code k'
