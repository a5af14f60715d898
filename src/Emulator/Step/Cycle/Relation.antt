-- ===== src/Emulator/Step/Cycle/Relation.antt =====
-- A step as a relation between the machine after `prepare` and the machine after the step, and that `step`
-- is within it.
use tiny_processors.Prelude.{
  ℕ, ◌+◌, ◌≡◌, refl, sym, arith, ap, ◌∙◌, inl, inr, Bool, true, false, List, [], ◌∷◌, Option, ◌!=◌,
  if◌then◌else◌, bit_or, get_or, set, OnSome, OnSome-some, OnSome-none, OnSome-if, Option-cases,
  Bool-cases,
}
use tiny_processors.Prelude.Bits.{flip, zero-bit_and}
use tiny_processors.Emulator.Csr.{Machine}
use tiny_processors.Emulator.Access.{Access, acc_ok, acc_fault, acc_misaligned, acc_page_fault}
use tiny_processors.Emulator.Bus.{Emu, Engines, halt_double_fault, with_hart}
use tiny_processors.Emulator.Bus.Frame.{counts, core, serve-core}
use tiny_processors.Emulator.Hart.{Hart, unreserved, enter_handler, interrupt}
use tiny_processors.Emulator.Hart.Traps.{enter_handler-unreserved}
use tiny_processors.Emulator.Memory.{ram_read}
use tiny_processors.Emulator.Step.Decode.{rd_of}
use tiny_processors.Emulator.Step.Execute.{FloatUnit, Exec, retires}
use tiny_processors.Emulator.Step.Execute.Effects.{Effect, Ends}
use tiny_processors.Emulator.Step.Execute.Within.{execute-Ends}
use tiny_processors.Emulator.Step.Cycle

-- The counters, in the order of `counts`, after a step, and with one more of those at `k`.
abbrev pub one_step : List ℕ → List ℕ
one_step before =
    (get_or before 0 0 + 1) ∷ get_or before 1 0 ∷ get_or before 2 0 ∷ get_or before 3 0 ∷ []

abbrev pub one_more : ℕ → List ℕ → List ℕ
one_more k before = set (one_step before) k (get_or before k 0 + 1)

abbrev pub trapped_hart : ℕ → ℕ → Hart → Hart
trapped_hart cause tval h = enter_handler cause tval (unreserved (record h { in_trap = true }))

if_same : {x : ℕ} (b : Bool) → (if b then x else x) ≡ x
if_same true = refl
if_same false = refl

-- No interrupt is enabled before a handler's first instruction retires.
enabled-first : (m : Machine) → (Cycle.enabled_interrupts m != 0) ≡ true → m.hart.in_trap ≡ false
unfolding Cycle.enabled_interrupts
enabled-first m pending = elim (Bool-cases m.hart.in_trap) [
  | inr first ↦ first
  | inl again ↦ absurd (none_enabled again)
]
  where
    none_enabled : m.hart.in_trap ≡ true → ⊥
    none_enabled again =
        ground (arith, again, zero-bit_and m.hart.mideleg, zero-bit_and (flip 32 m.hart.mideleg))

module _ {D : Type 0} where
  -- The step retires one instruction, or traps, or takes an interrupt, or, where the last trap's handler has not
  -- retired an instruction, halts.
  pub data Stepped (e e' : Emu D) : Type 0 where
    retired :
        (word next : ℕ) (rd fd : Option ℕ) (h : Hart)
        → Effect e.machine next h
        → unreserved e'.machine.hart
          ≡ unreserved
              (record (Cycle.write_back (rd_of word) fd rd h) { in_trap = false; pc = next })
        → counts e' ≡ one_more 1 (counts e)
        → Stepped e e'
    trapped :
        (cause tval : ℕ)
        → e.machine.hart.in_trap ≡ false
        → unreserved e'.machine.hart ≡ trapped_hart cause tval e.machine.hart
        → counts e' ≡ one_more 2 (counts e)
        → Stepped e e'
    interrupted :
        (code : ℕ)
        → e.machine.hart.in_trap ≡ false
        → unreserved e'.machine.hart ≡ trapped_hart (bit_or interrupt code) 0 e.machine.hart
        → counts e' ≡ one_more 3 (counts e)
        → Stepped e e'
    double_faulted :
        (cause tval : ℕ)
        → e.machine.hart.in_trap ≡ true
        → (e'.halt ≡ halt_double_fault) × (e'.second_cause ≡ cause) × (e'.second_tval ≡ tval)
        → unreserved e'.machine.hart ≡ unreserved e.machine.hart
        → counts e' ≡ one_step (counts e)
        → Stepped e e'

  module _ (engines : Engines D) (rv32_fp : FloatUnit) where
    pub count_step-core :
        (e : Emu D)
        → core (Cycle.count_step engines rv32_fp e)
          ≡ (unreserved e.machine.hart, one_step (counts e))
    unfolding Cycle.count_step Cycle.tick_accelerators
    count_step-core e =
        ap (λ p. (p.0, one_step p.1)) (serve-core (engines.engine_tick e.devices e.ram e.input) e)

    pub in_trap_kept :
        (e : Emu D)
        → (Cycle.count_step engines rv32_fp e).machine.hart.in_trap ≡ e.machine.hart.in_trap
    in_trap_kept e = ap (λ p. p.0.in_trap) (count_step-core e)

    pub entered :
        (cause tval : ℕ) (h h' : Hart)
        → unreserved h' ≡ unreserved h
        → unreserved (enter_handler cause tval (record h' { in_trap = true }))
          ≡ trapped_hart cause tval h
    entered cause tval h h' same =
        enter_handler-unreserved cause tval (record h' { in_trap = true })
        ∙ ap (λ u. enter_handler cause tval (record u { in_trap = true })) same

    -- `e` is the machine at the start of the instruction, `e'` that at the trap.
    trap-Stepped :
        (cause tval : ℕ) (e e' : Emu D)
        → core e' ≡ core e
        → Stepped e (Cycle.trap engines rv32_fp cause tval e')
    unfolding Cycle.trap Cycle.double_fault
    trap-Stepped cause tval e e' same =
        let c = count_step-core e' in
        let hart = ap (λ p. p.0) (c ∙ ap (λ p. (p.0, one_step p.1)) same) in
        let counters = ap (λ p. p.1) (c ∙ ap (λ p. (p.0, one_step p.1)) same) in
        elim (Bool-cases (Cycle.count_step engines rv32_fp e').machine.hart.in_trap) [
          | inl again ↦
              rw (Cycle.trap, again)
                (Stepped.double_faulted cause tval (sym (ap (λ h. h.in_trap) hart) ∙ again)
                  (refl, refl, refl) hart counters)
          | inr first ↦
              rw (Cycle.trap, first)
                (Stepped.trapped cause tval (sym (ap (λ h. h.in_trap) hart) ∙ first)
                  (entered cause tval e.machine.hart _ hart)
                  (ap (λ c. set c 2 (get_or c 2 0 + 1)) counters))
        ]

    interrupt-Stepped :
        (code : ℕ) (e : Emu D)
        → e.machine.hart.in_trap ≡ false
        → Stepped e (Cycle.take_interrupt engines rv32_fp code e)
    unfolding Cycle.take_interrupt
    interrupt-Stepped code e first =
        let c = count_step-core e in
        rw (Cycle.take_interrupt, in_trap_kept e ∙ first)
          (Stepped.interrupted code first
            (entered (bit_or interrupt code) 0 e.machine.hart _ (ap (λ p. p.0) c))
            (ap (λ p. set p.1 3 (get_or p.1 3 0 + 1)) c))

    retire-Stepped :
        (word next : ℕ) (rd fd : Option ℕ) (e e' : Emu D)
        → counts e' ≡ counts e
        → Effect e.machine next e'.machine.hart
        → Stepped e (Cycle.finish engines rv32_fp word (retires next rd fd e'))
    unfolding Cycle.finish Cycle.retire
    retire-Stepped word next rd fd e e' same effect =
        let c =
          count_step-core (with_hart (Cycle.write_back (rd_of word) fd rd e'.machine.hart) e') in
        Stepped.retired word next rd fd e'.machine.hart effect
          (ap (λ p. record p.0 { in_trap = false; pc = next }) c)
          (ap (λ p. set p.1 1 (get_or p.1 1 0 + 1)) c ∙ ap (one_more 1) same)

    finish-Stepped :
        (word : ℕ) (e : Emu D) (x : Exec D)
        → Ends e x
        → Stepped e (Cycle.finish engines rv32_fp word x)
    unfolding Cycle.finish
    finish-Stepped word e x (Ends.trapping cause tval e' same) = trap-Stepped cause tval e e' same
    finish-Stepped word e x (Ends.retiring next rd fd e' same effect) =
        retire-Stepped word next rd fd e e' same effect

    Stepped-if :
        {e : Emu D} (b : Bool) (x y : Emu D)
        → Stepped e x
        → Stepped e y
        → Stepped e (if b then x else y)
    Stepped-if true x y f g = f
    Stepped-if false x y f g = g

    fetch_trap :
        (cause : ℕ) (e : Emu D) → Stepped e (Cycle.trap engines rv32_fp cause e.machine.hart.pc e)
    fetch_trap cause e = trap-Stepped cause e.machine.hart.pc e e refl

    after_fetch-Stepped :
        (found : Access ℕ) (e : Emu D) → Stepped e (Cycle.after_fetch engines rv32_fp found e)
    unfolding Cycle.after_fetch
    after_fetch-Stepped acc_page_fault e = fetch_trap _ e
    after_fetch-Stepped acc_fault e = fetch_trap _ e
    after_fetch-Stepped acc_misaligned e = fetch_trap _ e
    after_fetch-Stepped (acc_ok at) e =
        let word = ram_read e.ram at 4 in
        search
          (Stepped-if, fetch_trap, finish-Stepped word e _ (execute-Ends engines rv32_fp word e))
          depth 4

    run_instruction-Stepped : (e : Emu D) → Stepped e (Cycle.run_instruction engines rv32_fp e)
    unfolding Cycle.run_instruction
    run_instruction-Stepped e = search (Stepped-if, fetch_trap, after_fetch-Stepped) depth 4

    taken-Stepped :
        (enabled : ℕ) (e : Emu D)
        → e.machine.hart.in_trap ≡ false
        → OnSome (Stepped e) (Cycle.take_first engines rv32_fp enabled e)
    unfolding Cycle.take_first
    taken-Stepped enabled e first = elim (Option-cases (Cycle.first_enabled Cycle.order enabled)) [
      | inl nothing ↦ rw (Cycle.take_first, nothing) OnSome-none
      | inr (code, found) ↦
          rw (Cycle.take_first, found) (OnSome-some _ (interrupt-Stepped code e first))
    ]

    pub step_within :
        (e : Emu D)
        → OnSome (Stepped (Cycle.prepare engines rv32_fp e)) (Cycle.step engines rv32_fp e)
    unfolding Cycle.step
    step_within e =
        let p = Cycle.prepare engines rv32_fp e in
        OnSome-if (Cycle.enabled_interrupts p.machine != 0) _ _
          (λ pending. taken-Stepped _ p (enabled-first p.machine pending))
          (λ quiet. OnSome-some _ (run_instruction-Stepped p))
