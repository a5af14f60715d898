-- ===== src/Emulator/Hart/Legal.antt =====
-- The values that the registers of the hart can hold, and that trap entry and the returns keep to them.
use tiny_processors.Prelude.{
  ℕ, ◌/◌, ◌%◌, ◌≡◌, refl, sym, ap, subst, arith, inl, inr, Bool, true, false, if◌then◌else◌,
  bit_and, List, [], ◌∷◌, get_or, Bool-cases,
}
use tiny_processors.Prelude.Bits.{test, flip, has, bit_and_digit}
use tiny_processors.Emulator.Pmp.{priv_u, priv_s}
use tiny_processors.Emulator.Hart.{
  Hart, mie_mask, delegated, enter_handler, mret, sret, mstatus_spp,
}
use tiny_processors.Emulator.Hart.Traps.{is_mode}

-- The registers that the instructions rely on: the modes, the addresses of instructions, the interrupts, and x0.
abbrev pub relied_on : Hart → (List ℕ × List ℕ)
relied_on h =
    (h.priv ∷ h.mpp ∷ h.pc ∷ h.mepc ∷ h.sepc ∷ h.mtvec ∷ h.stvec ∷ h.mie ∷ h.mideleg ∷ [], h.x)

-- The modes are modes, the addresses are those of words, only the six interrupts are enabled or delegated, and x0
-- is zero.
pub record IsLegal (h : Hart) : Type 0 where
  pub priv : is_mode h.priv ≡ true
  pub mpp : is_mode h.mpp ≡ true
  pub pc : h.pc % 4 ≡ 0
  pub mepc : h.mepc % 4 ≡ 0
  pub sepc : h.sepc % 4 ≡ 0
  pub mtvec : h.mtvec % 4 ≡ 0
  pub stvec : h.stvec % 4 ≡ 0
  pub mie : (k : ℕ) → test h.mie k ≡ true → test mie_mask k ≡ true
  pub mideleg : (k : ℕ) → test h.mideleg k ≡ true → test mie_mask k ≡ true
  pub zero_register : get_or h.x 0 0 ≡ 0

-- A hart that agrees with a legal one where the instructions rely on it.
pub same-IsLegal : {g h : Hart} → relied_on h ≡ relied_on g → IsLegal g → IsLegal h
same-IsLegal {g} {h} e l = record {
  priv = subst (λ p. is_mode p ≡ true) (sym (ap (λ r. get_or r.0 0 0) e)) l.priv;
  mpp = subst (λ p. is_mode p ≡ true) (sym (ap (λ r. get_or r.0 1 0) e)) l.mpp;
  pc = subst (λ p. p % 4 ≡ 0) (sym (ap (λ r. get_or r.0 2 0) e)) l.pc;
  mepc = subst (λ p. p % 4 ≡ 0) (sym (ap (λ r. get_or r.0 3 0) e)) l.mepc;
  sepc = subst (λ p. p % 4 ≡ 0) (sym (ap (λ r. get_or r.0 4 0) e)) l.sepc;
  mtvec = subst (λ p. p % 4 ≡ 0) (sym (ap (λ r. get_or r.0 5 0) e)) l.mtvec;
  stvec = subst (λ p. p % 4 ≡ 0) (sym (ap (λ r. get_or r.0 6 0) e)) l.stvec;
  mie =
      subst (λ p. (k : ℕ) → test p k ≡ true → test mie_mask k ≡ true)
        (sym (ap (λ r. get_or r.0 7 0) e)) l.mie;
  mideleg =
      subst (λ p. (k : ℕ) → test p k ≡ true → test mie_mask k ≡ true)
        (sym (ap (λ r. get_or r.0 8 0) e)) l.mideleg;
  zero_register = subst (λ p. get_or p 0 0 ≡ 0) (sym (ap (λ r. r.1) e)) l.zero_register;
}

-- `value & ~3`
pub aligned : (value : ℕ) → bit_and value (flip 32 3) % 4 ≡ 0
aligned value =
    omega (arith, bit_and_digit value 0xffff_fffc, bit_and_digit (value / 2) 0x7fff_fffe)

-- A legal hart is legal in another mode and at another word.
pub moved-IsLegal :
    (mode at : ℕ) (h : Hart)
    → is_mode mode ≡ true
    → at % 4 ≡ 0
    → IsLegal h
    → IsLegal (record h { priv = mode; pc = at })
moved-IsLegal mode at h m a l = record {
  priv = m;
  mpp = l.mpp;
  pc = a;
  mepc = l.mepc;
  sepc = l.sepc;
  mtvec = l.mtvec;
  stvec = l.stvec;
  mie = l.mie;
  mideleg = l.mideleg;
  zero_register = l.zero_register;
}

pub enter_handler-IsLegal :
    (cause tval : ℕ) (h : Hart) → IsLegal h → IsLegal (enter_handler cause tval h)
unfolding enter_handler
enter_handler-IsLegal cause tval h l = elim (Bool-cases (delegated cause h)) [
  | inl on ↦
      rw (enter_handler, on)
        record {
          priv = refl;
          mpp = l.mpp;
          pc = l.stvec;
          mepc = l.mepc;
          sepc = l.pc;
          mtvec = l.mtvec;
          stvec = l.stvec;
          mie = l.mie;
          mideleg = l.mideleg;
          zero_register = l.zero_register;
        }
  | inr off ↦
      rw (enter_handler, off)
        record {
          priv = refl;
          mpp = l.priv;
          pc = l.mtvec;
          mepc = l.pc;
          sepc = l.sepc;
          mtvec = l.mtvec;
          stvec = l.stvec;
          mie = l.mie;
          mideleg = l.mideleg;
          zero_register = l.zero_register;
        }
]

pub mret-IsLegal : (h : Hart) → IsLegal h → IsLegal (mret h)
unfolding mret
mret-IsLegal h l = record {
  priv = l.mpp;
  mpp = refl;
  pc = l.mepc;
  mepc = l.mepc;
  sepc = l.sepc;
  mtvec = l.mtvec;
  stvec = l.stvec;
  mie = l.mie;
  mideleg = l.mideleg;
  zero_register = l.zero_register;
}

pub sret-IsLegal : (h : Hart) → IsLegal h → IsLegal (sret h)
unfolding sret
sret-IsLegal h l =
    same-IsLegal refl (moved-IsLegal _ h.sepc h (lower (has h.mstatus mstatus_spp)) l.sepc l)
  where
    lower : (b : Bool) → is_mode (if b then priv_s else priv_u) ≡ true
    lower true = refl
    lower false = refl
