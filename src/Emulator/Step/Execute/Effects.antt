-- ===== src/Emulator/Step/Execute/Effects.antt =====
-- How an instruction acts on the hart, as a relation, and that `execute` is within it.
use tiny_processors.Prelude.{
  ℕ, ◌+◌, ◌/◌, ◌%◌, ◌^◌, ◌≡◌, refl, ap, ◌⊎◌, inl, inr, arith, Bool, true, false, ◌&&◌, Option, none,
  some, ◌==◌, ◌!=◌, if◌then◌else◌, bit_and, Option-cases, Bool-cases, &&-right,
}
use tiny_processors.Emulator.Access.{Access, acc_ok, acc_fault, acc_misaligned, acc_page_fault}
use tiny_processors.Emulator.Bus.{Emu, with_hart}
use tiny_processors.Emulator.Bus.Frame.{counts, core}
use tiny_processors.Emulator.Csr.{Machine}
use tiny_processors.Emulator.Csr.Write.{csr_instruction}
use tiny_processors.Emulator.Hart.{Hart, unreserved, mret, sret, supervisor_allows, mstatus_tsr}
use tiny_processors.Emulator.Pmp.{priv_m}
use tiny_processors.Emulator.Step.Alu.{branch_taken}
use tiny_processors.Emulator.Step.Decode.{rs1_of, rs2_of, funct3_of}
use tiny_processors.Emulator.Step.Execute

-- What a retired instruction makes of the hart, before its result is written: nothing but the reservation, the
-- flags of an F instruction, a return from a trap where the privilege allows it, or a CSR instruction. It goes on
-- at the next word, or at a word-aligned target, or at the saved pc.
pub data Effect (m : Machine) : ℕ → Hart → Type 0 where
  plain :
      (next : ℕ) (h : Hart)
      → unreserved h ≡ unreserved m.hart
      → (next ≡ (m.hart.pc + 4) % 2 ^ 32) ⊎ (bit_and next 3 ≡ 0)
      → Effect m next h
  flags : (raised : ℕ) → Effect m ((m.hart.pc + 4) % 2 ^ 32) (Execute.raise_flags raised m.hart)
  machine_return : m.hart.priv ≡ priv_m → Effect m m.hart.mepc (mret m.hart)
  supervisor_return :
      supervisor_allows mstatus_tsr m.hart ≡ true → Effect m m.hart.sepc (sret m.hart)
  csr :
      (funct3 rs1 number a old : ℕ) (h : Hart)
      → csr_instruction funct3 rs1 number a m ≡ some (old, h)
      → Effect m ((m.hart.pc + 4) % 2 ^ 32) h

module _ {D : Type 0} where
  -- The end of an instruction that began in `e`.
  pub data Ends (e : Emu D) : Execute.Exec D → Type 0 where
    trapping :
        (cause tval : ℕ) (e' : Emu D) → core e' ≡ core e → Ends e (Execute.traps cause tval e')
    retiring :
        (next : ℕ) (rd fd : Option ℕ) (e' : Emu D)
        → counts e' ≡ counts e
        → Effect e.machine next e'.machine.hart
        → Ends e (Execute.retires next rd fd e')

  pub Ends-if :
      {e : Emu D} (b : Bool) (x y : Execute.Exec D)
      → (b ≡ true → Ends e x)
      → (b ≡ false → Ends e y)
      → Ends e (if b then x else y)
  Ends-if true x y f g = f refl
  Ends-if false x y f g = g refl

  pub illegal-Ends : {e : Emu D} (cause tval : ℕ) → Ends e (Execute.traps cause tval e)
  illegal-Ends {e} cause tval = Ends.trapping cause tval e refl

  -- An instruction that goes on at the next word after accesses that leave `e'`.
  pub goes_on :
      (e e' : Emu D) (rd fd : Option ℕ)
      → core e' ≡ core e
      → Ends e (Execute.retires (Execute.after e) rd fd e')
  unfolding Execute.after
  goes_on e e' rd fd c =
      Ends.retiring _ rd fd e' (ap (λ p. p.1) c) (Effect.plain _ _ (ap (λ p. p.0) c) (inl refl))

  pub after_access :
      (e e' : Emu D) (rd fd : Option ℕ)
      → core e' ≡ core e
      → Ends e (Execute.retires (Execute.after e') rd fd e')
  unfolding Execute.after
  after_access e e' rd fd c =
      Ends.retiring _ rd fd e' (ap (λ p. p.1) c)
        (Effect.plain _ _ (ap (λ p. p.0) c) (inl (ap (λ p. (p.0.pc + 4) % 2 ^ 32) c)))

  pub jump-Ends : (target : ℕ) (rd : Option ℕ) (e : Emu D) → Ends e (Execute.jump target rd e)
  unfolding Execute.jump
  jump-Ends target rd e = elim (Bool-cases (bit_and target 3 != 0)) [
    | inl off ↦ rw off (illegal-Ends _ _)
    | inr on ↦
        rw on (Ends.retiring target rd none e refl (Effect.plain _ _ refl (inr (ground arith))))
  ]

  pub next_word :
      (e : Emu D) (rd fd : Option ℕ) → Ends e (Execute.retires (Execute.after e) rd fd e)
  next_word e rd fd = goes_on e e rd fd refl

  pub ruleset ends = (Ends-if, illegal-Ends, jump-Ends, next_word)

  pub computes-Ends :
      (value : Option ℕ) (word : ℕ) (e : Emu D) → Ends e (Execute.computes value word e)
  unfolding Execute.computes
  computes-Ends none word e = illegal-Ends _ _
  computes-Ends (some v) word e = next_word e (some v) none

  pub branch-Ends : (word : ℕ) (e : Emu D) → Ends e (Execute.execute_branch word e)
  unfolding Execute.execute_branch
  branch-Ends word e =
      elim (Option-cases (
        branch_taken (funct3_of word) (Execute.x_at e.machine.hart (rs1_of word))
          (Execute.x_at e.machine.hart (rs2_of word)))) [
            | inl refused ↦ rw (Execute.execute_branch, refused) (illegal-Ends _ _)
            | inr (taken, decided) ↦ rw (Execute.execute_branch, decided) (search ends depth 6)
          ]

  pub jalr-Ends : (word : ℕ) (e : Emu D) → Ends e (Execute.execute_jalr word e)
  unfolding Execute.execute_jalr
  jalr-Ends word e = search ends depth 6

  machine_return-Ends :
      (b : Bool) (e : Emu D)
      → (b && e.machine.hart.priv == priv_m) ≡ true
      → Ends e (Execute.retires e.machine.hart.mepc none none (with_hart (mret e.machine.hart) e))
  machine_return-Ends b e h =
      Ends.retiring _ none none _ refl (Effect.machine_return (ground arith))

  supervisor_return-Ends :
      (b : Bool) (e : Emu D)
      → (b && supervisor_allows mstatus_tsr e.machine.hart) ≡ true
      → Ends e (Execute.retires e.machine.hart.sepc none none (with_hart (sret e.machine.hart) e))
  supervisor_return-Ends b e h =
      Ends.retiring _ none none _ refl (Effect.supervisor_return (&&-right b _ h))

  privileged-Ends : (word : ℕ) (e : Emu D) → Ends e (Execute.execute_privileged word e)
  unfolding Execute.execute_privileged
  privileged-Ends word e =
      search
        (
          ends,
          machine_return-Ends (word == 0x3020_0073) e,
          supervisor_return-Ends (word == 0x1020_0073) e,
          goes_on e (with_hart (record e.machine.hart { reserved = false }) e) none none refl,
        )
        depth 12

  csr-Ends : (funct3 word : ℕ) (e : Emu D) → Ends e (Execute.execute_csr funct3 word e)
  unfolding Execute.execute_csr Execute.after
  csr-Ends funct3 word e =
      elim (Option-cases (
        csr_instruction funct3 (rs1_of word) (word / 2 ^ 20)
          (Execute.x_at e.machine.hart (rs1_of word)) e.machine)) [
            | inl refused ↦ rw (Execute.execute_csr, refused) (illegal-Ends _ _)
            | inr (r, ran) ↦
                rw (Execute.execute_csr, ran)
                  (Ends.retiring _ (some r.0) none (with_hart r.1 e) refl
                    (Effect.csr funct3 _ _ _ r.0 r.1 ran))
          ]

  pub system-Ends : (word : ℕ) (e : Emu D) → Ends e (Execute.execute_system word e)
  unfolding Execute.execute_system
  system-Ends word e = search (ends, privileged-Ends, csr-Ends) depth 12

  pub delivers-Ends :
      (to_x : Bool) (result : ℕ) (e e' : Emu D)
      → core e' ≡ core e
      → Ends e (Execute.delivers to_x result e')
  unfolding Execute.delivers Execute.after
  delivers-Ends to_x result e e' c = search (Ends-if, after_access e e' _ _ c) depth 6

  pub unless_refused-Ends :
      {A : Type 0} (status : Access A) (cause : Access A → ℕ) (addr : ℕ) (e e' : Emu D)
      (next : A → Execute.Exec D)
      → core e' ≡ core e
      → ((a : A) → status ≡ acc_ok a → Ends e (next a))
      → Ends e (Execute.unless_refused status cause addr e' next)
  unfolding Execute.unless_refused
  unless_refused-Ends (acc_ok a) cause addr e e' next c h = h a refl
  unless_refused-Ends acc_misaligned cause addr e e' next c h = Ends.trapping _ addr e' c
  unless_refused-Ends acc_page_fault cause addr e e' next c h = Ends.trapping _ addr e' c
  unless_refused-Ends acc_fault cause addr e e' next c h = Ends.trapping _ addr e' c
