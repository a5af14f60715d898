-- ===== src/Os/Kernel/Calls/Ending.antt =====
-- How a case of `syscall` in programs/rv32/os/kernel.c ends.
use tiny_processors.Prelude.{ℕ}
use tiny_processors.Os.Kernel.{Kernel, Outcome, returns, sys_error}

-- With a result; to be made again later; or with the process finished.
pub data Answer : Type 0 where
  result : ℕ → Answer
  again gone : Answer

module _ {B D : Type 0} where
  abbrev pub gives : ℕ → Kernel B D → Outcome B D Answer
  gives value k = returns (result value) k

  abbrev pub fails : Kernel B D → Outcome B D Answer
  fails k = gives sys_error k
