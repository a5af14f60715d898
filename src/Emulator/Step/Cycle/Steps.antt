-- ===== src/Emulator/Step/Cycle/Steps.antt =====
-- What a step gives, from a machine whose registers are legal.
use tiny_processors.Prelude.{◌≡◌, ◌≢◌, true, some}
use tiny_processors.Emulator.Bus.{Emu, Engines}
use tiny_processors.Emulator.Csr.Untouched.{HasWords}
use tiny_processors.Emulator.Hart.Legal.{IsLegal}
use tiny_processors.Emulator.Pmp.{priv_m}
use tiny_processors.Emulator.Step.Execute.{FloatUnit}
use tiny_processors.Emulator.Step.Cycle
use tiny_processors.Emulator.Step.Cycle.Legal.{step_keeps_registers}
use tiny_processors.Emulator.Step.Cycle.Interrupts.{step_returns}
use tiny_processors.Emulator.Step.Cycle.Accounts.{
  Accounts, HandlesOrHalts, step_adds_up, step_handles,
}
use tiny_processors.Emulator.Step.Cycle.Service.{Serves, step_serves}
use tiny_processors.Emulator.Step.Cycle.Confined.{IsConfined, step_confines}

module _ {D : Type 0} (engines : Engines D) (rv32_fp : FloatUnit) where
  -- The step has a result, and `P` holds of it.
  abbrev pub Gives : Emu D → (Emu D → Type 0) → Type 0
  Gives e P = (e' : Emu D) × (Cycle.step engines rv32_fp e ≡ some e') × P e'

  gives :
      (e : Emu D) (P : Emu D → Type 0)
      → IsLegal e.machine.hart
      → ((e' : Emu D) → Cycle.step engines rv32_fp e ≡ some e' → P e')
      → Gives e P
  gives e P l f = let r = step_returns engines rv32_fp e l in (r.0, r.1, f r.0 r.1)

  -- For any engines and floating-point unit and a machine whose registers are legal, a step has a
  -- result, and with the PLIC sampled either no interrupt can be taken, and the result is that of
  -- `run_instruction`, or one is served that can be taken and goes before every other that can.
  -- An interrupt can be taken if it is pending in mip and on in mie, the last handler has retired
  -- an instruction, and its level lets it in: the machine's in a lower mode or with MIE on, the
  -- supervisor's, which mideleg names, in user mode or in supervisor mode with SIE on. The
  -- machine's go before the supervisor's, and within a level the order is 11, 3, 7, 9, 1, 5. The
  -- step then counts one more interrupt, and is in the mode of the level at its stvec or mtvec,
  -- with the cause 2 ^ 31 plus the interrupt and the old pc in scause and sepc, or in mcause and
  -- mepc.
  pub step-Serves :
      (e : Emu D)
      → IsLegal e.machine.hart
      → Gives e (Serves engines rv32_fp (Cycle.prepare engines rv32_fp e).machine e)
  step-Serves e l = gives e _ l (λ e' ran. (step_serves engines rv32_fp e l).at e' ran)

  -- For any engines and floating-point unit, a step from a machine whose registers are legal does
  -- not abort and leaves them legal: the privilege and MPP are 0, 1 or 3, the pc, mepc, sepc,
  -- mtvec and stvec are multiples of 4, mie and mideleg hold no bits but those of the six
  -- interrupts, and x0 is zero.
  pub step-IsLegal : (e : Emu D) → IsLegal e.machine.hart → Gives e (λ e'. IsLegal e'.machine.hart)
  step-IsLegal e l = gives e _ l (λ e' ran. step_keeps_registers engines rv32_fp e e' l ran)

  -- For any engines and floating-point unit and a machine in supervisor or user mode whose
  -- registers are legal and whose mstatus, mie, mideleg and mip_soft are words, a step has a
  -- result that leaves medeleg, mideleg, mtvec, mscratch, mcounteren and the PMP registers as
  -- they were, and the privilege does not rise but to supervisor mode at the old stvec or to
  -- machine mode at the old mtvec.
  pub step-IsConfined :
      (e : Emu D)
      → IsLegal e.machine.hart
      → HasWords e.machine.hart
      → e.machine.hart.priv ≢ priv_m
      → Gives e (λ e'. IsConfined e.machine.hart e'.machine.hart)
  step-IsConfined e l w below =
      gives e _ l (λ e' ran. step_confines engines rv32_fp e e' l w below ran)

  -- For any engines and floating-point unit and a machine whose registers are legal and whose
  -- last trap has a handler that has not retired an instruction, a step has a result: either an
  -- instruction retires and the handler is on its way, or the machine halts with a double fault,
  -- retires nothing, and its hart is as it was but for the reservation and wr_fcsr.
  pub step-HandlesOrHalts :
      (e : Emu D)
      → IsLegal e.machine.hart
      → e.machine.hart.in_trap ≡ true
      → Gives e (HandlesOrHalts e)
  step-HandlesOrHalts e l again =
      gives e _ l (λ e' ran. step_handles engines rv32_fp e e' again ran)

  -- For any engines and floating-point unit and a machine whose registers are legal, a step has a
  -- result that counts one step, and the sum of the retired instructions, the traps and the
  -- interrupts grows by one, or it stays and the machine halts with a double fault.
  pub step-Accounts : (e : Emu D) → IsLegal e.machine.hart → Gives e (Accounts e)
  step-Accounts e l = gives e _ l (λ e' ran. step_adds_up engines rv32_fp e e' ran)
