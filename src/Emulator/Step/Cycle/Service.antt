-- ===== src/Emulator/Step/Cycle/Service.antt =====
-- What `step` of tools/rv32emu_core.c does about interrupts: the handler of the one that it takes.
use tiny_processors.Prelude.{
  ℕ, zero, suc, ◌+◌, ◌≡◌, inl, inr, refl, sym, subst, arith, Bool, true, false, some, ◌!=◌,
  if◌then◌else◌, bit_and, bit_or, ap, get_or, OnSome, OnSome-some, OnSome-none, Bool-cases,
  Option-cases, ◌∙◌,
}
use tiny_processors.Prelude.Bits.{test, has, test-zero}
use tiny_processors.Emulator.Bus.{Emu, Engines}
use tiny_processors.Emulator.Csr.{Machine}
use tiny_processors.Emulator.Hart.{Hart, mie_mask, interrupt, unreserved, enter_handler, delegated}
use tiny_processors.Emulator.Hart.Entry.{
  delegated-interrupt, enter_handler-to_s, enter_handler-to_m,
}
use tiny_processors.Emulator.Step.Cycle.Relation.{
  count_step-core, in_trap_kept, entered, trapped_hart,
}
use tiny_processors.Emulator.Hart.Legal.{IsLegal}
use tiny_processors.Emulator.Step.Execute.{FloatUnit}
use tiny_processors.Emulator.Step.Cycle
use tiny_processors.Emulator.Step.Cycle.Legal.{prepare-IsLegal}
use tiny_processors.Emulator.Step.Cycle.Priority.{
  to_supervisor, can_take, level_of, level-test, enabled_lem, IsChosen, level-IsChosen,
}

cause_code :
    (k : ℕ)
    → test mie_mask k ≡ true
    → (bit_and (bit_or interrupt k) 31 ≡ k)
      × (has (bit_or interrupt k) interrupt ≡ true)
      × (bit_or interrupt k ≡ 0x8000_0000 + k)
unfolding test
cause_code zero h = cc
cause_code (suc zero) h = (refl, refl, refl)
cause_code (suc (suc zero)) h = cc
cause_code (suc (suc (suc zero))) h = (refl, refl, refl)
cause_code (suc (suc (suc (suc zero)))) h = cc
cause_code (suc (suc (suc (suc (suc zero))))) h = (refl, refl, refl)
cause_code (suc (suc (suc (suc (suc (suc zero)))))) h = cc
cause_code (suc (suc (suc (suc (suc (suc (suc zero))))))) h = (refl, refl, refl)
cause_code (suc (suc (suc (suc (suc (suc (suc (suc zero)))))))) h = cc
cause_code (suc (suc (suc (suc (suc (suc (suc (suc (suc zero))))))))) h = (refl, refl, refl)
cause_code (suc (suc (suc (suc (suc (suc (suc (suc (suc (suc zero)))))))))) h = cc
cause_code (suc (suc (suc (suc (suc (suc (suc (suc (suc (suc (suc zero))))))))))) h =
    (refl, refl, refl)
cause_code (suc (suc (suc (suc (suc (suc (suc (suc (suc (suc (suc (suc k)))))))))))) h =
    absurd (ground (arith, test-zero k))

-- Hart `h` has entered the handler of interrupt `k`, at its level.
abbrev pub InHandler : Machine → ℕ → Hart → Type 0
InHandler m k h =
    if to_supervisor m k
    then (h.priv ≡ 1) × (h.scause ≡ 0x8000_0000 + k) × (h.sepc ≡ m.hart.pc) × (h.pc ≡ m.hart.stvec)
    else (h.priv ≡ 3) × (h.mcause ≡ 0x8000_0000 + k) × (h.mepc ≡ m.hart.pc) × (h.pc ≡ m.hart.mtvec)

handler_of :
    (m : Machine) (k : ℕ)
    → IsLegal m.hart
    → can_take m k ≡ true
    → (h : Hart) → unreserved h ≡ trapped_hart (bit_or interrupt k) 0 m.hart
    → InHandler m k h
handler_of m k l ready h e =
    let code = cause_code k (l.mie k (ground arith)) in
    let entry : Hart = unreserved (record m.hart { in_trap = true }) in
    let goes = delegated-interrupt (bit_or interrupt k) k entry (code.1) (code.0) in
    elim (Bool-cases (to_supervisor m k)) [
      | inl lower ↦
          let to_s : delegated (bit_or interrupt k) entry ≡ true = goes ∙ rw lower (ground arith) in
          let r = enter_handler-to_s (bit_or interrupt k) 0 entry to_s in
          rw lower (
            ap (λ g. g.priv) e ∙ r.0,
            ap (λ g. g.scause) e ∙ r.1 ∙ code.2,
            ap (λ g. g.sepc) e ∙ r.2,
            ap (λ g. g.pc) e ∙ r.3,
          )
      | inr higher ↦
          let to_m : delegated (bit_or interrupt k) entry ≡ false = goes ∙ ground (arith, higher) in
          let r = enter_handler-to_m (bit_or interrupt k) 0 entry to_m in
          rw higher (
            ap (λ g. g.priv) e ∙ r.0,
            ap (λ g. g.mcause) e ∙ r.1 ∙ code.2,
            ap (λ g. g.mepc) e ∙ r.2,
            ap (λ g. g.pc) e ∙ r.3,
          )
    ]

module _ {D : Type 0} (engines : Engines D) (rv32_fp : FloatUnit) where
  -- What a step from `e`, whose machine after `prepare` is `m`, does about interrupts.
  pub data Serves (m : Machine) (e e' : Emu D) : Type 0 where
    served :
        (k : ℕ)
        → IsChosen m k
        → InHandler m k e'.machine.hart
        → e'.interrupts ≡ e.interrupts + 1
        → Serves m e e'
    unserved :
        ((k : ℕ) → can_take m k ≡ false)
        → e' ≡ Cycle.run_instruction engines rv32_fp (Cycle.prepare engines rv32_fp e)
        → Serves m e e'

  take_interrupt-Served :
      (k : ℕ) (e : Emu D)
      → IsLegal e.machine.hart
      → can_take e.machine k ≡ true
      → InHandler e.machine k (Cycle.take_interrupt engines rv32_fp k e).machine.hart
        × ((Cycle.take_interrupt engines rv32_fp k e).interrupts ≡ e.interrupts + 1)
  unfolding Cycle.take_interrupt
  take_interrupt-Served k e l ready =
      let c = count_step-core engines rv32_fp e in
      let counted : Hart = (Cycle.count_step engines rv32_fp e).machine.hart in
      let first : e.machine.hart.in_trap ≡ false = ground arith in
      rw (Cycle.take_interrupt, in_trap_kept engines rv32_fp e ∙ first)
        (
          handler_of e.machine k l ready
              (enter_handler (bit_or interrupt k) 0 (record counted { in_trap = true }))
              (entered engines rv32_fp (bit_or interrupt k) 0 e.machine.hart counted
                (ap (λ p. p.0) c)),
          ap (λ p. get_or p.1 3 0 + 1) c,
        )

  taken-Serves :
      (e : Emu D) (b : Bool)
      → IsLegal (Cycle.prepare engines rv32_fp e).machine.hart
      → ((Cycle.prepare engines rv32_fp e).interrupts ≡ e.interrupts)
      → (b ≡ true → level_of (Cycle.prepare engines rv32_fp e).machine false ≡ 0)
      → OnSome (Serves (Cycle.prepare engines rv32_fp e).machine e) (
          Cycle.take_first engines rv32_fp
            (level_of (Cycle.prepare engines rv32_fp e).machine b)
            (Cycle.prepare engines rv32_fp e))
  unfolding Cycle.take_first
  taken-Serves e b l same rest =
      let p = Cycle.prepare engines rv32_fp e in
      elim (Option-cases (Cycle.first_enabled Cycle.order (level_of p.machine b))) [
        | inl nothing ↦ rw (Cycle.take_first, nothing) OnSome-none
        | inr (k, found) ↦
            let chosen = level-IsChosen p.machine k b l found rest in
            let there = take_interrupt-Served k p l (chosen.0) in
            rw (Cycle.take_first, found)
              (OnSome-some _ (served k chosen (there.0) (there.1 ∙ ap (λ n. n + 1) same)))
      ]

  prepare-interrupts : (e : Emu D) → (Cycle.prepare engines rv32_fp e).interrupts ≡ e.interrupts
  unfolding Cycle.prepare
  prepare-interrupts e = refl

  step_with :
      (e : Emu D) (enabled : ℕ)
      → Cycle.enabled_interrupts (Cycle.prepare engines rv32_fp e).machine ≡ enabled
      → Cycle.step engines rv32_fp e ≡ (
          if enabled != 0
          then Cycle.take_first engines rv32_fp enabled (Cycle.prepare engines rv32_fp e)
          else some (Cycle.run_instruction engines rv32_fp (Cycle.prepare engines rv32_fp e)))
  unfolding Cycle.step
  step_with e enabled same = rw (Cycle.step, same) refl

  -- With both levels zero nothing can be taken.
  none_ready :
      (m : Machine)
      → IsLegal m.hart
      → level_of m false ≡ 0
      → level_of m true ≡ 0
      → (k : ℕ) → can_take m k ≡ false
  none_ready m l machine_none supervisor_none k =
      let low : test (level_of m false) k ≡ false =
        subst (λ x. test x k ≡ false) (sym machine_none) (test-zero k) in
      let high : test (level_of m true) k ≡ false =
        subst (λ x. test x k ≡ false) (sym supervisor_none) (test-zero k) in
      ground (arith, level-test m k l false, level-test m k l true)

  pub step_serves :
      (e : Emu D)
      → IsLegal e.machine.hart
      → OnSome (Serves (Cycle.prepare engines rv32_fp e).machine e) (Cycle.step engines rv32_fp e)
  step_serves e legal =
      let m = (Cycle.prepare engines rv32_fp e).machine in
      let l = prepare-IsLegal engines rv32_fp e legal in
      let enabled = enabled_lem m in
      elim (Bool-cases (level_of m false != 0)) [
        | inl high ↦
            rw (step_with e (level_of m false) (enabled ∙ rw high refl), high)
              (taken-Serves e false l (prepare-interrupts e) (λ h. cc))
        | inr quiet ↦ elim (Bool-cases (level_of m true != 0)) [
          | inl low ↦
              rw (step_with e (level_of m true) (enabled ∙ rw quiet refl), low)
                (taken-Serves e true l (prepare-interrupts e) (λ h. ground arith))
          | inr none_there ↦
              rw (step_with e (level_of m true) (enabled ∙ rw quiet refl), none_there)
                (OnSome-some _ (unserved (none_ready m l (ground arith) (ground arith)) refl))
        ]
      ]
