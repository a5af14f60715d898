-- ===== src/Os/Kernel/Fpu/Tests.antt =====
-- A claim of the FPU from a process that has written its registers.
use tiny_processors.Prelude.{
  ℕ, zero, suc, ◌≡◌, refl, true, ◌∷◌, replicate, some, get_or, get_or-replicate,
}
use tiny_processors.Os.Kernel.{Kernel, Proc, no_proc, alive}
use tiny_processors.Os.Kernel.Fpu.{claim_fpu}
use tiny_processors.Os.Kernel.Fpu.Owner.{IsOwned, Claims, claim_fpu-Claims}
use tiny_processors.Os.Kernel.Samples.{quiet_board, first, second, kernel}

-- The second process owns the FPU, and its state is dirty.
abbrev floating : Kernel (Unit {0}) (Unit {0})
floating = record kernel {
  procs = first ∷ record second { mstatus = 0x6000 } ∷ replicate 6 no_proc;
  fpu_owner = some 1;
}

past : (i : ℕ) → get_or floating.procs (suc (suc i)) no_proc ≡ no_proc
past i = get_or-replicate {A = Proc} 6 i no_proc

floating-IsOwned : IsOwned floating
floating-IsOwned zero lives on = cc
floating-IsOwned (suc zero) lives on = refl
floating-IsOwned (suc (suc i)) lives on =
    let dead : alive no_proc ≡ true = rw (past i) at lives in cc

-- The first process meets an FLW.
claim_fpu-Claims_example : Claims quiet_board (claim_fpu quiet_board 0 0x2007 floating)
claim_fpu-Claims_example = claim_fpu-Claims quiet_board 0 0x2007 floating floating-IsOwned
