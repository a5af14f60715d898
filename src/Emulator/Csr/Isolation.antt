-- ===== src/Emulator/Csr/Isolation.antt =====
-- A CSR instruction below machine mode leaves machine mode's part of the hart.
use tiny_processors.Prelude.{
  ℕ, ◌/◌, ◌^◌, ◌≡◌, ◌≢◌, refl, arith, Bool, true, false, ◌||◌, none, some, List, [], ◌∷◌, ltb, ◌==◌,
  if◌then◌else◌, bit_and, bit_or, Bool-cases, Option-cases, OnSome, OnSome-none, on_some, inl, inr,
}
use tiny_processors.Prelude.Bits.{flip, has, test-or}
use tiny_processors.Emulator.Pmp.{priv_m}
use tiny_processors.Emulator.Hart.{Hart, mstatus_fs}
use tiny_processors.Emulator.Hart.Traps.{is_mode}
use tiny_processors.Emulator.Csr.{
  Csr, all_csrs, csr_number, find_csr, sstatus_mask, csr_of, Machine, csr_read,
}
use tiny_processors.Emulator.Csr.Write.{
  csr_write, csr_allowed, csr_instruction, csr_effect, mark_dirty,
}
use tiny_processors.Emulator.Csr.Untouched.{
  HasWords, IsUntouched, shared_same, write_case-IsUntouched,
}

find_csr-number :
    (number : ℕ) (cs : List Csr) (c : Csr) → find_csr number cs ≡ some c → csr_number c ≡ number
unfolding find_csr
find_csr-number number [] c e = cc
find_csr-number number (d ∷ cs) c e = elim (Bool-cases (csr_number d == number)) [
  | inl same ↦ ground arith
  | inr other ↦ find_csr-number number cs c (ground arith)
]

csr_of-number : (number : ℕ) (c : Csr) → csr_of number ≡ some c → csr_number c ≡ number
unfolding csr_of
csr_of-number number c e = find_csr-number number all_csrs c e

csr_write-IsUntouched :
    (number value : ℕ) (m : Hart)
    → ltb 1 (bit_and (number / 2 ^ 8) 3) ≡ false
    → HasWords m
    → IsUntouched m (csr_write number value m)
unfolding csr_write
csr_write-IsUntouched number value m h w = elim (Option-cases (csr_of number)) [
  | inl none_such ↦ rw (csr_write, none_such) (shared_same m m refl refl refl refl)
  | inr (c, found) ↦
      let e = csr_of-number number c found in
      rw (csr_write, found) (write_case-IsUntouched c value m (rw e h) w)
]

-- What `csr_allowed` grants below machine mode is at most of supervisor level.
allowed-level :
    (number : ℕ) (m : Hart)
    → is_mode m.priv ≡ true
    → (m.priv == priv_m) ≡ false
    → csr_allowed number m ≡ true
    → ltb 1 (bit_and (number / 2 ^ 8) 3) ≡ false
unfolding csr_allowed
allowed-level number m mode below allowed = ground arith

csr_effect_refused :
    (op rs1 number operand old : ℕ) (m : Hart)
    → csr_allowed number m ≡ false
    → csr_effect op rs1 number operand old m ≡ none
unfolding csr_effect
csr_effect_refused op rs1 number operand old m refused = ground arith

csr_effect-IsUntouched :
    (op rs1 number operand old : ℕ) (m : Hart)
    → HasWords m
    → is_mode m.priv ≡ true
    → (m.priv == priv_m) ≡ false
    → OnSome (λ (r : ℕ × Hart). IsUntouched m r.1) (csr_effect op rs1 number operand old m)
unfolding csr_effect
csr_effect-IsUntouched op rs1 number operand old m w mode below =
    elim (Bool-cases (csr_allowed number m)) [
      | inl allowed ↦
          let level = allowed-level number m mode below allowed in
          search
            (
              on_some,
              shared_same m m refl refl refl refl,
              csr_write-IsUntouched number operand m level w,
              csr_write-IsUntouched number (bit_or old operand) m level w,
              csr_write-IsUntouched number (bit_and old (flip 32 operand)) m level w,
            )
            depth 16
      | inr refused ↦ rw (csr_effect_refused op rs1 number operand old m refused) OnSome-none
    ]

mark_dirty-IsUntouched :
    (fd : Bool) (m n : Hart) → IsUntouched m n → IsUntouched m (mark_dirty fd n)
unfolding mark_dirty
mark_dirty-IsUntouched fd m n u = elim (Bool-cases (fd || n.wr_fcsr)) [
  | inl dirty ↦ rw dirty record {
    mstatus = λ k off.
        ground (
          arith,
          u.mstatus k off,
          test-or n.mstatus mstatus_fs k,
          test-or sstatus_mask mstatus_fs k,
        );
    mie = u.mie;
    mip_soft = u.mip_soft;
    own = u.own;
  }
  | inr clean ↦ rw clean u
]

-- For a hart in supervisor or user mode with words in mstatus, mie, mideleg and mip_soft, a CSR
-- instruction that executes, with the FS update that follows it, keeps medeleg, mideleg, mtvec,
-- mscratch, mcounteren, mepc, mcause, mtval, MPP, the privilege, the pc and the PMP registers,
-- every bit of mstatus outside sstatus, and every bit of mie and mip_soft that is not delegated.
pub csr_instruction-IsUntouched :
    (funct3 rs1 number a : ℕ) (m : Machine) (old : ℕ) (n : Hart)
    → HasWords m.hart
    → is_mode m.hart.priv ≡ true
    → m.hart.priv ≢ priv_m
    → csr_instruction funct3 rs1 number a m ≡ some (old, n)
    → IsUntouched m.hart (mark_dirty false n)
unfolding csr_instruction
csr_instruction-IsUntouched funct3 rs1 number a m old n w mode below ran =
    mark_dirty-IsUntouched false m.hart n (run.at (old, n) ran)
  where
    run : OnSome (λ (r : ℕ × Hart). IsUntouched m.hart r.1) (csr_instruction funct3 rs1 number a m)
    run = elim (Option-cases (csr_read number m)) [
      | inl none_such ↦ rw (csr_instruction, none_such) OnSome-none
      | inr (value, reads) ↦
          rw (csr_instruction, reads)
            (csr_effect-IsUntouched (bit_and funct3 3) rs1 number (if has funct3 4 then rs1 else a)
              value m.hart w mode (ground arith))
    ]
