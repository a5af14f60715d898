-- ===== src/Emulator/Step/Cycle/Budget.antt =====
-- The run loop returns: every step counts, and the step limit is reached.
use tiny_processors.Prelude.{
  ℕ, zero, suc, ◌+◌, ◌<◌, ◌≤◌, ◌≡◌, ◌≢◌, refl, ap, arith, Bool, true, false, not, leb, ◌!=◌, some,
  get_or, if◌then◌else◌,
}
use tiny_processors.Emulator.Bus.{Emu, Engines, halt_limit}
use tiny_processors.Emulator.Hart.Legal.{IsLegal}
use tiny_processors.Emulator.Step.Execute.{FloatUnit}
use tiny_processors.Emulator.Step.Cycle
use tiny_processors.Emulator.Step.Cycle.Relation.{Stepped, step_within}
use tiny_processors.Emulator.Step.Cycle.Legal.{step_keeps_registers}
use tiny_processors.Emulator.Step.Cycle.Interrupts.{step_returns}

module _ {D : Type 0} where
  -- What the loop returns: a frame has been presented, or the budget is used up by exactly its steps, or the
  -- machine is halted, or a step is in the middle of `virtio_serve`, after the rounds
  -- given to it, and the one before was not; its registers are legal.
  pub data Returns (engines : Engines D) (rv32_fp : FloatUnit) (limit end frames : ℕ)
      : Cycle.Run D → Type 0 where
    presented :
        (e : Emu D)
        → engines.frames e.devices ≢ frames
        → IsLegal e.machine.hart
        → Returns engines rv32_fp limit end frames (Cycle.stopped Cycle.stop_presented e)
    budget :
        (e : Emu D)
        → Cycle.is_running e.halt ≡ true
        → end ≤ e.machine.steps
        → e.machine.steps < limit
        → IsLegal e.machine.hart
        → Returns engines rv32_fp limit end frames (Cycle.stopped Cycle.stop_budget e)
    halted :
        (e : Emu D)
        → Cycle.is_running e.halt ≡ false
        → IsLegal e.machine.hart
        → Returns engines rv32_fp limit end frames (Cycle.stopped Cycle.stop_halted e)
    unserved :
        (before e : Emu D)
        → before.machine.steps < limit
        → before.machine.steps < end
        → before.disk.serving ≡ false
        → Cycle.step engines rv32_fp before ≡ some e
        → e.disk.serving ≡ true
        → Returns engines rv32_fp limit end frames (Cycle.serving e)

  Stepped-steps : {e e' : Emu D} → Stepped e e' → e'.machine.steps ≡ e.machine.steps + 1
  Stepped-steps (Stepped.retired word next rd fd h effect same c) = ap (λ l. get_or l 0 0) c
  Stepped-steps (Stepped.trapped cause tval first same c) = ap (λ l. get_or l 0 0) c
  Stepped-steps (Stepped.interrupted code first same c) = ap (λ l. get_or l 0 0) c
  Stepped-steps (Stepped.double_faulted cause tval again both same c) = ap (λ l. get_or l 0 0) c

  Returns-if :
      {engines : Engines D} {rv32_fp : FloatUnit} {limit end frames : ℕ} (b : Bool)
      (x y : Cycle.Run D)
      → (b ≡ true → Returns engines rv32_fp limit end frames x)
      → (b ≡ false → Returns engines rv32_fp limit end frames y)
      → Returns engines rv32_fp limit end frames (if b then x else y)
  Returns-if true x y f g = f refl
  Returns-if false x y f g = g refl

  module _ (engines : Engines D) (rv32_fp : FloatUnit) where
    step-steps :
        (e e' : Emu D)
        → Cycle.step engines rv32_fp e ≡ some e'
        → e'.machine.steps ≡ e.machine.steps + 1
    unfolding Cycle.prepare
    step-steps e e' ran = Stepped-steps ((step_within engines rv32_fp e).at e' ran)

    pub run_loop-Returns :
        (fuel limit end frames : ℕ) (e : Emu D)
        → limit < fuel + e.machine.steps
        → 0 < fuel
        → IsLegal e.machine.hart
        → e.disk.serving ≡ false
        → Returns engines rv32_fp limit end frames
            (Cycle.run_loop engines rv32_fp fuel limit end frames e)
    unfolding Cycle.run_loop Cycle.is_running
    run_loop-Returns zero limit end frames e h pos l idle = absurd (omega arith)
    run_loop-Returns (suc fuel) limit end frames e h pos l idle =
        let (e', ran) = step_returns engines rv32_fp e l in
        let legal = step_keeps_registers engines rv32_fp e e' l ran in
        let counted = step-steps e e' ran in
        rw (Cycle.run_loop, ran)
          (Returns-if (not (Cycle.is_running e.halt)) _ _
            (λ stopped. Returns.halted e (ground arith) l)
            (λ going.
              Returns-if (leb limit e.machine.steps) _ _
                (λ spent. Returns.halted (record e { halt = halt_limit }) refl l)
                (λ left.
                  Returns-if (leb end e.machine.steps) _ _
                    (λ used. Returns.budget e (ground arith) (ground arith) (ground arith) l)
                    (λ more.
                      Returns-if e'.disk.serving _ _
                        (λ serves.
                          Returns.unserved e e' (ground arith) (ground arith) idle ran serves)
                        (λ served.
                          Returns-if (engines.frames e'.devices != frames) _ _
                            (λ shown. Returns.presented e' (ground arith) legal)
                            (λ same.
                              run_loop-Returns fuel limit end frames e' (ground (arith, counted))
                                (ground (arith, counted)) legal served))))))

    -- For any engines and floating-point unit, a machine whose registers are legal and which is
    -- in no call of virtio_serve, and more fuel than the step limit, the run loop of
    -- emu_run_until makes no more rounds than its fuel and never aborts. It stops with a frame
    -- presented, or with the machine running below the limit and its steps at or past the end of
    -- the budget, or with the machine halted, and with legal registers; or, where the source need
    -- not return, at the first step, below the limit and the end of the budget, which after the
    -- rounds given to it is still in the loop of virtio_serve.
    pub emu_run_until-Returns :
        (fuel limit steps : ℕ) (e : Emu D)
        → limit < fuel
        → IsLegal e.machine.hart
        → e.disk.serving ≡ false
        → Returns engines rv32_fp limit
            (Cycle.run_end steps e)
            (engines.frames e.devices)
            (Cycle.emu_run_until engines rv32_fp fuel limit steps e)
    unfolding Cycle.emu_run_until
    emu_run_until-Returns fuel limit steps e h l idle =
        run_loop-Returns fuel limit (Cycle.run_end steps e) (engines.frames e.devices) e
          (omega arith) (omega arith) l idle
