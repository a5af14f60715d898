-- ===== src/Emulator/Step/Cycle.antt =====
-- `step` of tools/rv32emu_core.c around the instruction: interrupts, the fetch, `trap`, `take_interrupt`, the end
-- of an instruction, and the run loop `emu_run_until`.
pub mod Relation
pub mod Legal
pub mod Interrupts
pub mod Priority
pub mod Service
pub mod Budget
pub mod Confined
pub mod Accounts
pub mod Steps
mod Tests
use tiny_processors.Prelude.{
  ℕ, zero, suc, ◌+◌, ◌-◌, ◌/◌, ◌^◌, Bool, true, false, not, ◌&&◌, ◌||◌, List, [], ◌∷◌, Option, none,
  some, ltb, leb, ◌==◌, ◌!=◌, if◌then◌else◌, bit_and, bit_or, set,
}
use tiny_processors.Prelude.Bits.{flip, has}
use tiny_processors.Emulator.Access.{Access, acc_ok, acc_fault, acc_misaligned, acc_page_fault}
use tiny_processors.Emulator.Bus.{
  Emu, Engines, Halt, halt_done, halt_double_fault, halt_limit, halt_stopped, running, serve,
  with_hart, with_machine,
}
use tiny_processors.Emulator.Csr.{Machine, mip_now}
use tiny_processors.Emulator.Csr.Write.{mark_dirty}
use tiny_processors.Emulator.Hart.{Hart, enter_handler, interrupt, mstatus_mie, mstatus_sie}
use tiny_processors.Emulator.Memory.{in_ram, ram_read}
use tiny_processors.Emulator.Plic.{plic_lines, plic_sample}
use tiny_processors.Emulator.Pmp.{pmp_allows, pmp_x, priv_u, priv_s, priv_m}
use tiny_processors.Emulator.Sv32.{walk_fetch, translate}
use tiny_processors.Emulator.Step.Decode.{
  cause_fetch_misaligned, cause_fetch_fault, cause_fetch_page_fault, rd_of,
}
use tiny_processors.Emulator.Step.Execute.{Exec, FloatUnit, traps, retires, execute}

-- IRQ_MEI, IRQ_MSI, IRQ_MTI, IRQ_SEI, IRQ_SSI and IRQ_STI.
abbrev pub order : List ℕ
order = 11 ∷ 3 ∷ 7 ∷ 9 ∷ 1 ∷ 5 ∷ []

pub first_enabled : List ℕ → ℕ → Option ℕ
first_enabled [] enabled = none
first_enabled (code ∷ rest) enabled =
    if has (enabled / 2 ^ code) 1 then some code else first_enabled rest enabled

-- The interrupts that `step` may take, as a word.
pub enabled_interrupts : Machine → ℕ
enabled_interrupts m =
    let h = m.hart in
    let pending = if h.in_trap then 0 else bit_and (mip_now m) h.mie in
    let m_enabled = ltb h.priv priv_m || has h.mstatus mstatus_mie in
    let s_enabled = h.priv == priv_u || h.priv == priv_s && has h.mstatus mstatus_sie in
    let machine_level = if m_enabled then bit_and pending (flip 32 h.mideleg) else 0 in
    let supervisor_level = if s_enabled then bit_and pending h.mideleg else 0 in
    if machine_level != 0 then machine_level else supervisor_level

pub write_f : ℕ → Option ℕ → Hart → Hart
write_f rd (some result) h = mark_dirty true (record h { f = set h.f rd result })
write_f rd none h = mark_dirty false h

pub write_x : ℕ → Option ℕ → Hart → Hart
write_x rd (some result) h = if rd != 0 then record h { x = set h.x rd result } else h
write_x rd none h = h

-- The writes of f[rd] and x[rd], and what they make of mstatus.
pub write_back : ℕ → Option ℕ → Option ℕ → Hart → Hart
write_back rd fd value h = write_x rd value (write_f rd fd h)

-- `emu_stop`, and what the run loop returns: `aborted` is `abort()`, and `serving` is a run that is in the middle of
-- `virtio_serve` after the rounds that it was given.
pub data Stop : Type 0 where
  stop_presented stop_budget stop_halted : Stop

pub data Run (D : Type 0) : Type 0 where
  stopped : Stop → Emu D → Run D
  aborted out_of_fuel : Run D
  serving : Emu D → Run D

pub is_running : Halt → Bool
is_running running = true
is_running halt_done = false
is_running halt_double_fault = false
is_running halt_limit = false
is_running halt_stopped = false

module _ {D : Type 0} where
  -- A trap or an interrupt in a handler that has not retired an instruction.
  pub double_fault : ℕ → ℕ → Emu D → Emu D
  double_fault cause tval e = record e {
    halt = halt_double_fault;
    second_cause = cause;
    second_tval = tval;
  }

  abbrev pub enter : ℕ → ℕ → Emu D → Emu D
  enter cause tval e =
      with_hart (enter_handler cause tval (record e.machine.hart { in_trap = true })) e

  -- `end` of `emu_run_until`: the steps of the budget, in 64 bits.
  pub run_end : ℕ → Emu D → ℕ
  run_end budget e =
      let steps = e.machine.steps in
      if ltb (2 ^ 64 - 1 - steps) budget then 2 ^ 64 - 1 else steps + budget

  module _ (engines : Engines D) (rv32_fp : FloatUnit) where
    pub tick_accelerators : Emu D → Emu D
    tick_accelerators e = serve (engines.engine_tick e.devices e.ram e.input) e

    -- What every step does: the accelerators' tick, and one more step.
    pub count_step : Emu D → Emu D
    count_step e =
        let e' = tick_accelerators e in
        with_machine (record e'.machine { steps = e'.machine.steps + 1 }) e'

    pub trap : ℕ → ℕ → Emu D → Emu D
    trap cause tval e =
        let e' = count_step e in
        if e'.machine.hart.in_trap
        then double_fault cause tval e'
        else enter cause tval (record e' { traps = e'.traps + 1 })

    pub take_interrupt : ℕ → Emu D → Emu D
    take_interrupt code e =
        let e' = count_step e in
        if e'.machine.hart.in_trap
        then double_fault (bit_or interrupt code) 0 e'
        else enter (bit_or interrupt code) 0 (record e' { interrupts = e'.interrupts + 1 })

    -- The end of an instruction that retires.
    pub retire : ℕ → ℕ → Hart → Emu D → Emu D
    retire rd next h e =
        let e' = count_step (with_hart h e) in
        with_machine
          (record e'.machine {
            retired = e'.machine.retired + 1;
            hart = record e'.machine.hart { in_trap = false; pc = next };
          })
          e'

    pub finish : ℕ → Exec D → Emu D
    finish word (traps cause tval e) = trap cause tval e
    finish word (retires next rd fd e) =
        retire (rd_of word) next (write_back (rd_of word) fd rd e.machine.hart) e

    pub fetch : Emu D → Access ℕ
    fetch e = translate e.ram e.machine.hart e.machine.hart.pc walk_fetch e.machine.hart.priv

    -- What follows the translation of the pc.
    pub after_fetch : Access ℕ → Emu D → Emu D
    after_fetch acc_page_fault e = trap cause_fetch_page_fault e.machine.hart.pc e
    after_fetch acc_fault e = trap cause_fetch_fault e.machine.hart.pc e
    after_fetch acc_misaligned e = trap cause_fetch_fault e.machine.hart.pc e
    after_fetch (acc_ok at) e =
        let h = e.machine.hart in
        let word = ram_read e.ram at 4 in
        if not (in_ram at 4) || not (pmp_allows h.priv h.pmp at pmp_x)
        then trap cause_fetch_fault h.pc e
        else finish word (execute engines rv32_fp word e)

    -- The fetch, once no interrupt is taken.
    pub run_instruction : Emu D → Emu D
    run_instruction e =
        if bit_and e.machine.hart.pc 3 != 0
        then trap cause_fetch_misaligned e.machine.hart.pc e
        else after_fetch (fetch e) e

    -- `wr_fcsr` cleared and the PLIC sampled.
    pub prepare : Emu D → Emu D
    prepare e =
        let lines = plic_lines e.input.count e.disk.interrupt in
        with_machine
          (record e.machine {
            hart = record e.machine.hart { wr_fcsr = false };
            plic = plic_sample lines e.machine.plic;
          })
          e

    -- The loop over `order`. `none` is the `abort()` after it.
    pub take_first : ℕ → Emu D → Option (Emu D)
    take_first enabled e = elim (first_enabled order enabled) [
      | some code ↦ some (take_interrupt code e)
      | none ↦ none
    ]

    pub step : Emu D → Option (Emu D)
    step e =
        let e' = prepare e in
        let enabled = enabled_interrupts e'.machine in
        if enabled != 0 then take_first enabled e' else some (run_instruction e')

    -- The `while` of `emu_run_until`, with fuel for its rounds.
    pub run_loop : ℕ → ℕ → ℕ → ℕ → Emu D → Run D
    run_loop zero limit end frames e = out_of_fuel
    run_loop (suc fuel) limit end frames e =
        if not (is_running e.halt)
        then stopped stop_halted e
        else if leb limit e.machine.steps
        then stopped stop_halted (record e { halt = halt_limit })
        else if leb end e.machine.steps
        then stopped stop_budget e
        else elim (step e) [
          | none ↦ aborted
          | some e' ↦
              let rest = run_loop fuel limit end frames e' in
              if e'.disk.serving
              then serving e'
              else if engines.frames e'.devices != frames
              then stopped stop_presented e'
              else rest
        ]

    pub emu_run_until : ℕ → ℕ → ℕ → Emu D → Run D
    emu_run_until fuel limit budget e =
        run_loop fuel limit (run_end budget e) (engines.frames e.devices) e
