-- ===== src/Emulator/Step/Cycle/Confined.antt =====
-- A step below machine mode leaves machine mode's configuration, and rises only through a trap vector.
use tiny_processors.Prelude.{
  ℕ, ◌≤◌, ◌≡◌, ◌≢◌, inl, inr, refl, sym, ap, ◌∙◌, subst, arith, Bool, true, false, ◌||◌, ◌!=◌,
  Option, none, some, [], ◌∷◌, get_or, Bool-cases,
}
use tiny_processors.Emulator.Bus.{Emu, Engines}
use tiny_processors.Emulator.Csr.{Machine}
use tiny_processors.Emulator.Csr.Write.{mark_dirty}
use tiny_processors.Emulator.Csr.Untouched.{HasWords, machine_part}
use tiny_processors.Emulator.Csr.Isolation.{csr_instruction-IsUntouched}
use tiny_processors.Emulator.Hart.{Hart, unreserved, mstatus_tsr}
use tiny_processors.Emulator.Hart.Legal.{IsLegal}
use tiny_processors.Emulator.Hart.Gates.{
  configuration, IsGated, enter_handler-configuration, enter_handler-IsGated, sret-configuration,
  sret-priv,
}
use tiny_processors.Emulator.Pmp.{priv_m}
use tiny_processors.Emulator.Step.Decode.{rd_of}
use tiny_processors.Emulator.Step.Execute.{FloatUnit, raise_flags}
use tiny_processors.Emulator.Step.Execute.Effects.{Effect}
use tiny_processors.Emulator.Step.Cycle
use tiny_processors.Emulator.Step.Cycle.Legal.{prepare-IsLegal}
use tiny_processors.Emulator.Step.Cycle.Relation.{Stepped, step_within, trapped_hart}

-- The configuration as it was, and the privilege through the gates.
pub record IsConfined (g h : Hart) : Type 0 where
  pub configured : configuration h ≡ configuration g
  pub gated : IsGated g h

mark_dirty-part : (fd : Bool) (h : Hart) → machine_part (mark_dirty fd h) ≡ machine_part h
unfolding mark_dirty
mark_dirty-part fd h = elim (Bool-cases (fd || h.wr_fcsr)) [
  | inl dirty ↦ rw (mark_dirty, dirty) refl
  | inr clean ↦ rw (mark_dirty, clean) refl
]

write_f-part :
    (rd : ℕ) (fd : Option ℕ) (h : Hart) → machine_part (Cycle.write_f rd fd h) ≡ machine_part h
unfolding Cycle.write_f
write_f-part rd (some v) h = mark_dirty-part true _
write_f-part rd none h = mark_dirty-part false h

write_x-part :
    (rd : ℕ) (value : Option ℕ) (h : Hart)
    → machine_part (Cycle.write_x rd value h) ≡ machine_part h
unfolding Cycle.write_x
write_x-part rd none h = refl
write_x-part rd (some v) h = elim (Bool-cases (rd != 0)) [
  | inl other ↦ rw (Cycle.write_x, other) refl
  | inr zero_register ↦ rw (Cycle.write_x, zero_register) refl
]

write_back-part :
    (rd : ℕ) (fd value : Option ℕ) (h : Hart)
    → machine_part (Cycle.write_back rd fd value h) ≡ machine_part h
unfolding Cycle.write_back
write_back-part rd fd value h = write_x-part rd value _ ∙ write_f-part rd fd h

-- What an instruction that retires below machine mode leaves of a hart.
record Keeps (g h : Hart) : Type 0 where
  configured : configuration h ≡ configuration g
  lower : h.priv ≤ g.priv

same_part : {g h : Hart} → machine_part h ≡ machine_part g → Keeps g h
same_part {g} {h} e = record {
  configured =
      ap
        (λ p. (
          get_or p.0 0 0 ∷ get_or p.0 1 0 ∷ get_or p.0 2 0 ∷ get_or p.0 3 0 ∷ get_or p.0 4 0 ∷ [],
          p.1,
        ))
        e;
  lower = let priv : h.priv ≡ g.priv = ap (λ p. get_or p.0 9 0) e in omega arith;
}

Effect-Keeps :
    {m : Machine} {next : ℕ} {h : Hart}
    → Effect m next h
    → IsLegal m.hart
    → HasWords m.hart
    → m.hart.priv ≢ priv_m
    → Keeps m.hart h
unfolding raise_flags
Effect-Keeps (Effect.plain next h same where_to) l w below = same_part (ap machine_part same)
Effect-Keeps (Effect.flags raised) l w below = same_part refl
Effect-Keeps (Effect.machine_return p) l w below = absurd (below p)
Effect-Keeps {m} (Effect.supervisor_return p) l w below = record {
  configured = sret-configuration m.hart;
  lower = sret-priv mstatus_tsr m.hart p below;
}
Effect-Keeps {m} (Effect.csr funct3 rs1 number a old h e) l w below = same_part (
    sym (mark_dirty-part false h)
    ∙ (csr_instruction-IsUntouched funct3 rs1 number a m old h w l.priv below e).own)

trapped-IsConfined :
    (cause tval : ℕ) (g h : Hart) → unreserved h ≡ trapped_hart cause tval g → IsConfined g h
trapped-IsConfined cause tval g h same = record {
  configured = ap configuration same ∙ enter_handler-configuration cause tval _;
  gated =
      subst (IsGated g) (sym same)
        (enter_handler-IsGated cause tval (unreserved (record g { in_trap = true })));
}

retired-IsConfined :
    (rd : ℕ) (fd value : Option ℕ) (g h n : Hart) (next : ℕ)
    → unreserved n
      ≡ unreserved (record (Cycle.write_back rd fd value h) { in_trap = false; pc = next })
    → Keeps g h
    → IsConfined g n
retired-IsConfined rd fd value g h n next same k =
    let written =
      same_part {g = h} {h = Cycle.write_back rd fd value h} (write_back-part rd fd value h) in
    let priv : n.priv ≡ (Cycle.write_back rd fd value h).priv = ap (λ u. u.priv) same in
    record {
      configured = ap configuration same ∙ (written.configured ∙ k.configured);
      gated = inl (let a = written.lower in let b = k.lower in omega arith);
    }

module _ {D : Type 0} where
  Stepped-IsConfined :
      {e e' : Emu D}
      → Stepped e e'
      → IsLegal e.machine.hart
      → HasWords e.machine.hart
      → e.machine.hart.priv ≢ priv_m
      → IsConfined e.machine.hart e'.machine.hart
  Stepped-IsConfined (Stepped.retired word next rd fd h effect same c) l w below =
      retired-IsConfined (rd_of word) fd rd _ h _ next same (Effect-Keeps effect l w below)
  Stepped-IsConfined (Stepped.trapped cause tval first same c) l w below =
      trapped-IsConfined cause tval _ _ same
  Stepped-IsConfined (Stepped.interrupted code first same c) l w below =
      trapped-IsConfined _ 0 _ _ same
  Stepped-IsConfined {e} {e'} (Stepped.double_faulted cause tval again both same c) l w below =
      let priv : e'.machine.hart.priv ≡ e.machine.hart.priv = ap (λ u. u.priv) same in
      record { configured = ap configuration same; gated = inl (omega arith) }

  module _ (engines : Engines D) (rv32_fp : FloatUnit) where
    pub step_confines :
        (e e' : Emu D)
        → IsLegal e.machine.hart
        → HasWords e.machine.hart
        → e.machine.hart.priv ≢ priv_m
        → Cycle.step engines rv32_fp e ≡ some e'
        → IsConfined e.machine.hart e'.machine.hart
    unfolding Cycle.prepare
    step_confines e e' l w below ran = record {
      configured = confined.configured;
      gated = confined.gated;
    }
      where
        words : HasWords (record e.machine.hart { wr_fcsr = false })
        words = record {
          mstatus_word = w.mstatus_word;
          mie_word = w.mie_word;
          mideleg_word = w.mideleg_word;
          mip_soft_word = w.mip_soft_word;
        }

        confined : IsConfined (record e.machine.hart { wr_fcsr = false }) e'.machine.hart
        confined =
            Stepped-IsConfined ((step_within engines rv32_fp e).at e' ran)
              (prepare-IsLegal engines rv32_fp e l) words below
