-- ===== src/Emulator/Step/Cycle/Accounts.antt =====
-- The counters of the machine, and the double fault.
use tiny_processors.Prelude.{ℕ, ◌+◌, ◌≡◌, ◌⊎◌, inl, inr, ap, arith, true, false, some, List, get_or}
use tiny_processors.Emulator.Bus.{Emu, Engines, halt_double_fault}
use tiny_processors.Emulator.Bus.Frame.{counts}
use tiny_processors.Emulator.Hart.{unreserved}
use tiny_processors.Emulator.Step.Execute.{FloatUnit}
use tiny_processors.Emulator.Step.Cycle
use tiny_processors.Emulator.Step.Cycle.Relation.{Stepped, step_within}

module _ {D : Type 0} where
  -- What has happened to a machine.
  abbrev pub events : Emu D → ℕ
  events e = e.machine.retired + (e.traps + e.interrupts)

  -- A step that counts an event, or one that halts.
  abbrev pub Accounts : Emu D → Emu D → Type 0
  Accounts e e' =
      (e'.machine.steps ≡ e.machine.steps + 1)
      × ((events e' ≡ events e + 1) ⊎ ((e'.halt ≡ halt_double_fault) × (events e' ≡ events e)))

  counted : (e : Emu D) (k : ℕ) {l : List ℕ} → counts e ≡ l → get_or (counts e) k 0 ≡ get_or l k 0
  counted e k c = ap (λ l. get_or l k 0) c

  Stepped-Accounts : {e e' : Emu D} → Stepped e e' → Accounts e e'
  Stepped-Accounts {e} {e'} (Stepped.retired word next rd fd h effect same c) =
      (counted e' 0 c, inl (omega (arith, counted e' 1 c, counted e' 2 c, counted e' 3 c)))
  Stepped-Accounts {e} {e'} (Stepped.trapped cause tval first same c) =
      (counted e' 0 c, inl (omega (arith, counted e' 1 c, counted e' 2 c, counted e' 3 c)))
  Stepped-Accounts {e} {e'} (Stepped.interrupted code first same c) =
      (counted e' 0 c, inl (omega (arith, counted e' 1 c, counted e' 2 c, counted e' 3 c)))
  Stepped-Accounts {e} {e'} (Stepped.double_faulted cause tval again both same c) =
      (counted e' 0 c, inr (both.0, omega (arith, counted e' 1 c, counted e' 2 c, counted e' 3 c)))

  -- After a trap whose handler has not retired an instruction: the instruction retires and the handler is on its
  -- way, or the machine halts with the hart as it was.
  abbrev pub HandlesOrHalts : Emu D → Emu D → Type 0
  HandlesOrHalts e e' =
      ((e'.machine.hart.in_trap ≡ false) × (e'.machine.retired ≡ e.machine.retired + 1))
      ⊎ ((e'.halt ≡ halt_double_fault)
          × (unreserved e'.machine.hart ≡ unreserved (record e.machine.hart { wr_fcsr = false }))
          × (e'.machine.retired ≡ e.machine.retired))

  module _ (engines : Engines D) (rv32_fp : FloatUnit) where
    pub step_adds_up : (e e' : Emu D) → Cycle.step engines rv32_fp e ≡ some e' → Accounts e e'
    unfolding Cycle.prepare
    step_adds_up e e' ran = Stepped-Accounts ((step_within engines rv32_fp e).at e' ran)

    Stepped-in_trap :
        (e e' : Emu D)
        → e.machine.hart.in_trap ≡ true
        → Stepped (Cycle.prepare engines rv32_fp e) e'
        → HandlesOrHalts e e'
    unfolding Cycle.prepare
    Stepped-in_trap e e' again (Stepped.retired word next rd fd h effect same c) =
        inl (ap (λ g. g.in_trap) same, counted e' 1 c)
    Stepped-in_trap e e' again (Stepped.trapped cause tval first same c) = absurd (ground arith)
    Stepped-in_trap e e' again (Stepped.interrupted code first same c) = absurd (ground arith)
    Stepped-in_trap e e' again (Stepped.double_faulted cause tval still both same c) =
        inr (both.0, same, counted e' 1 c)

    pub step_handles :
        (e e' : Emu D)
        → e.machine.hart.in_trap ≡ true
        → Cycle.step engines rv32_fp e ≡ some e'
        → HandlesOrHalts e e'
    step_handles e e' again ran =
        Stepped-in_trap e e' again ((step_within engines rv32_fp e).at e' ran)
