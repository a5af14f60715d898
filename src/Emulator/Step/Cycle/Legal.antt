-- ===== src/Emulator/Step/Cycle/Legal.antt =====
-- Every step keeps the registers of the hart legal, and so it never aborts.
use tiny_processors.Prelude.{
  ℕ, ◌+◌, ◌%◌, ◌^◌, ◌≡◌, refl, sym, subst, arith, inl, inr, Bool, true, false, ◌||◌, Option, none,
  some, ◌!=◌, get_or-set_ne, Bool-cases,
}
use tiny_processors.Prelude.Bits.{bit_and-mask}
use tiny_processors.Emulator.Bus.{Emu, Engines}
use tiny_processors.Emulator.Csr.{Machine}
use tiny_processors.Emulator.Csr.Write.{mark_dirty}
use tiny_processors.Emulator.Csr.Legal.{csr_instruction-IsLegal}
use tiny_processors.Emulator.Hart.{Hart, unreserved, enter_handler}
use tiny_processors.Emulator.Hart.Legal.{
  IsLegal, same-IsLegal, moved-IsLegal, enter_handler-IsLegal, mret-IsLegal, sret-IsLegal,
}
use tiny_processors.Emulator.Step.Decode.{rd_of}
use tiny_processors.Emulator.Step.Execute.{FloatUnit, raise_flags}
use tiny_processors.Emulator.Step.Execute.Effects.{Effect}
use tiny_processors.Emulator.Step.Cycle
use tiny_processors.Emulator.Step.Cycle.Relation.{Stepped, step_within}

-- The part of a hart that legality reads is not the reservation.
unreserved-IsLegal : {g h : Hart} → unreserved h ≡ unreserved g → IsLegal g → IsLegal h
unreserved-IsLegal e l = same-IsLegal refl (subst IsLegal (sym e) (same-IsLegal refl l))

next_aligned : (pc : ℕ) → pc % 4 ≡ 0 → (pc + 4) % 2 ^ 32 % 4 ≡ 0
next_aligned pc h = omega arith

-- An instruction goes on at a word.
Effect-aligned :
    {m : Machine} {next : ℕ} {h : Hart} → Effect m next h → IsLegal m.hart → next % 4 ≡ 0
Effect-aligned {m} (Effect.plain next h same (inl e)) l = rw e (next_aligned m.hart.pc l.pc)
Effect-aligned (Effect.plain next h same (inr e)) l = omega (arith, bit_and-mask 2 next)
Effect-aligned {m} (Effect.flags raised) l = next_aligned m.hart.pc l.pc
Effect-aligned (Effect.machine_return p) l = l.mepc
Effect-aligned (Effect.supervisor_return p) l = l.sepc
Effect-aligned {m} (Effect.csr funct3 rs1 number a old h e) l = next_aligned m.hart.pc l.pc

Effect-IsLegal : {m : Machine} {next : ℕ} {h : Hart} → Effect m next h → IsLegal m.hart → IsLegal h
unfolding raise_flags
Effect-IsLegal (Effect.plain next h same where_to) l = unreserved-IsLegal same l
Effect-IsLegal {m} (Effect.flags raised) l = same-IsLegal refl l
Effect-IsLegal {m} (Effect.machine_return p) l = mret-IsLegal m.hart l
Effect-IsLegal {m} (Effect.supervisor_return p) l = sret-IsLegal m.hart l
Effect-IsLegal {m} (Effect.csr funct3 rs1 number a old h e) l =
    (csr_instruction-IsLegal funct3 rs1 number a m l).at (old, h) e

mark_dirty-IsLegal : (fd : Bool) (h : Hart) → IsLegal h → IsLegal (mark_dirty fd h)
unfolding mark_dirty
mark_dirty-IsLegal fd h l = elim (Bool-cases (fd || h.wr_fcsr)) [
  | inl dirty ↦ rw (mark_dirty, dirty) (same-IsLegal refl l)
  | inr clean ↦ rw (mark_dirty, clean) l
]

write_f-IsLegal : (rd : ℕ) (fd : Option ℕ) (h : Hart) → IsLegal h → IsLegal (Cycle.write_f rd fd h)
unfolding Cycle.write_f
write_f-IsLegal rd (some v) h l = mark_dirty-IsLegal true _ (same-IsLegal refl l)
write_f-IsLegal rd none h l = mark_dirty-IsLegal false h l

-- x0 is not written.
write_x-IsLegal :
    (rd : ℕ) (value : Option ℕ) (h : Hart) → IsLegal h → IsLegal (Cycle.write_x rd value h)
unfolding Cycle.write_x
write_x-IsLegal rd none h l = l
write_x-IsLegal rd (some v) h l = elim (Bool-cases (rd != 0)) [
  | inl other ↦ rw (Cycle.write_x, other) (ground (arith, get_or-set_ne h.x rd 0 v 0))
  | inr zero_register ↦ rw (Cycle.write_x, zero_register) l
]

write_back-IsLegal :
    (rd : ℕ) (fd value : Option ℕ) (h : Hart) → IsLegal h → IsLegal (Cycle.write_back rd fd value h)
unfolding Cycle.write_back
write_back-IsLegal rd fd value h l = write_x-IsLegal rd value _ (write_f-IsLegal rd fd h l)

trapped-IsLegal :
    (cause tval : ℕ) (g h : Hart)
    → unreserved h ≡ enter_handler cause tval (unreserved (record g { in_trap = true }))
    → IsLegal g
    → IsLegal h
trapped-IsLegal cause tval g h e l =
    same-IsLegal refl
      (subst IsLegal (sym e) (enter_handler-IsLegal cause tval _ (same-IsLegal refl l)))

module _ {D : Type 0} where
  Stepped-IsLegal : {e e' : Emu D} → Stepped e e' → IsLegal e.machine.hart → IsLegal e'.machine.hart
  Stepped-IsLegal (Stepped.retired word next rd fd h effect same counts) l =
      let written = write_back-IsLegal (rd_of word) fd rd h (Effect-IsLegal effect l) in
      let at_next = moved-IsLegal _ next _ written.priv (Effect-aligned effect l) written in
      same-IsLegal refl (subst IsLegal (sym same) (same-IsLegal refl at_next))
  Stepped-IsLegal {e} {e'} (Stepped.trapped cause tval first same counts) l =
      trapped-IsLegal cause tval _ _ same l
  Stepped-IsLegal (Stepped.interrupted code first same counts) l = trapped-IsLegal _ 0 _ _ same l
  Stepped-IsLegal (Stepped.double_faulted cause tval again halted same counts) l =
      unreserved-IsLegal same l

  module _ (engines : Engines D) (rv32_fp : FloatUnit) where
    pub prepare-IsLegal :
        (e : Emu D)
        → IsLegal e.machine.hart
        → IsLegal (Cycle.prepare engines rv32_fp e).machine.hart
    unfolding Cycle.prepare
    prepare-IsLegal e l = same-IsLegal refl l

    pub step_keeps_registers :
        (e e' : Emu D)
        → IsLegal e.machine.hart
        → Cycle.step engines rv32_fp e ≡ some e'
        → IsLegal e'.machine.hart
    step_keeps_registers e e' l ran =
        Stepped-IsLegal ((step_within engines rv32_fp e).at e' ran) (prepare-IsLegal e l)
