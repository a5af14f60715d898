-- ===== src/Os/Kernel/Calls.antt =====
-- The system calls of programs/rv32/os/kernel.c: `syscall`. Its longer cases stand below, by what they act on.
pub mod Ending
pub mod Devices
pub mod Filing
pub mod Processes
use tiny_processors.Prelude.{
  ℕ, ◌+◌, ◌==◌, if◌then◌else◌, Bool, true, false, get_or, set, Option, none, some,
}
use tiny_processors.Os.Disk.{Disk}
use tiny_processors.Os.Kernel.{
  Kernel, Board, Config, Outcome, returns, halts, ◌>>=◌, proc_at, with_proc, sys_error,
}
use tiny_processors.Os.Kernel.Calls.Ending.{Answer, result, again, gone, fails, gives}
use tiny_processors.Os.Kernel.Calls.Devices
use tiny_processors.Os.Kernel.Calls.Filing
use tiny_processors.Os.Kernel.Calls.Processes
use tiny_processors.Os.Kernel.Exit.{finish}

module _ {B D : Type 0} (board : Board B) (disk : Disk D) (config : Config) where
  -- The `switch` of `syscall`, for the process at `i`.
  unfoldable pub dispatch : ℕ → ℕ → ℕ → ℕ → ℕ → Kernel B D → Outcome B D Answer
  dispatch number i a0 a1 a2 k =
      let p = proc_at k i in
      if number == 0
      then (finish board disk config i a0 k >>= λ (u, k'). returns gone k')
      else if number == 1
      then Filing.write_call disk board i a0 a1 a2 k
      else if number == 2
      then Filing.read_call disk board i a0 a1 a2 k
      else if number == 3
      then Devices.event_call k
      else if number == 4
      then Devices.keys_call board config k
      else if number == 5
      then Devices.present_call board config k
      else if number == 6
      then Processes.sbrk_call i a0 k
      else if number == 7
      then Processes.spawn_call board disk config i a0 a1 k
      else if number == 8
      then Processes.wait_call i a0 k
      else if number == 9
      then Processes.list_call config i a0 a1 a2 k
      else if number == 10
      then Processes.yield_call i k
      else if number == 11
      then Processes.sleep_call board i a0 k
      else if number == 12
      then halts a0 k
      else if number == 13
      then Devices.time_call board k
      else if number == 14
      then gives p.pid k
      else if number == 15
      then gives config.framebuffer k
      else if number == 16
      then Filing.open_call disk i a0 a1 k
      else if number == 17
      then Filing.close_call disk i a0 k
      else if number == 18
      then Filing.files_call i a0 a1 a2 k
      else if number == 19
      then Processes.ps_call i a0 a1 a2 k
      else if number == 20
      then gives p.switches k
      else if number == 21
      then Filing.seek_call i a0 a1 a2 k
      else if number == 22
      then Devices.palette_call board config i a0 a1 k
      else fails k

  -- The result goes to a0, except where the process is gone or makes its call again.
  unfoldable pub conclude : ℕ → Answer → Kernel B D → Bool × Kernel B D
  conclude i (result value) k =
      let p = proc_at k i in (true, with_proc i (record p { x = set p.x 10 value }) k)
  conclude i again k = (false, k)
  conclude i gone k = (true, k)

  unfoldable pub syscall : ℕ → Kernel B D → Outcome B D Bool
  syscall i k =
      let x = (proc_at k i).x in
      dispatch (get_or x 17 0) i (get_or x 10 0) (get_or x 11 0) (get_or x 12 0) k
      >>= λ (answer, k'). let (done, k'') = conclude i answer k' in returns done k''
