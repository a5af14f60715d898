-- ===== src/Emulator/Csr/Legal.antt =====
-- The writes of the CSRs keep the registers of the hart legal.
use tiny_processors.Prelude.{
  ℕ, ◌≡◌, refl, arith, true, Option-cases, OnSome, OnSome-none, on_some, inl, inr, if◌then◌else◌,
  bit_and, bit_or,
}
use tiny_processors.Prelude.Bits.{flip, has, bit_and-lt_right, test, test-or, test-and}
use tiny_processors.Emulator.Hart.{Hart, mie_mask}
use tiny_processors.Emulator.Hart.Traps.{is_mode}
use tiny_processors.Emulator.Hart.Legal.{IsLegal, same-IsLegal, aligned}
use tiny_processors.Emulator.Csr.{
  Csr, sie, stvec, sepc, mstatus, mideleg, mie, mtvec, mepc, s_interrupts, csr_of, Machine,
  csr_read,
}
use tiny_processors.Emulator.Csr.Write.{
  write_case, merge, legal_mpp, csr_write, csr_effect, csr_instruction,
}

legal_mpp-is_mode : (value : ℕ) → is_mode (legal_mpp value) ≡ true
unfolding legal_mpp
legal_mpp-is_mode value = ground (arith, bit_and-lt_right 13 value 0x1800 (omega arith))

-- The supervisor's interrupts are among the six.
pub s_interrupts-mask :
    (value k : ℕ) → test (bit_and value s_interrupts) k ≡ true → test mie_mask k ≡ true
s_interrupts-mask value k h =
    ground (arith, test-and value s_interrupts k, test-and mie_mask s_interrupts k)

mie_mask-mask : (value k : ℕ) → test (bit_and value mie_mask) k ≡ true → test mie_mask k ≡ true
mie_mask-mask value k h = ground (arith, test-and value mie_mask k)

merge-mask :
    (mask x value : ℕ)
    → ((k : ℕ) → test mask k ≡ true → test mie_mask k ≡ true)
    → ((k : ℕ) → test x k ≡ true → test mie_mask k ≡ true)
    → (k : ℕ) → test (merge mask x value) k ≡ true
    → test mie_mask k ≡ true
unfolding merge
merge-mask mask x value f g k h = ground (
  arith,
  test-or (bit_and x (flip 32 mask)) (bit_and value mask) k,
  test-and x (flip 32 mask) k,
  test-and value mask k,
  f k,
  g k,
)

with_mie-IsLegal :
    (enabled : ℕ) (h : Hart)
    → ((k : ℕ) → test enabled k ≡ true → test mie_mask k ≡ true)
    → IsLegal h
    → IsLegal (record h { mie = enabled })
with_mie-IsLegal enabled h f l = ground (arith, f)

write_case-IsLegal : (c : Csr) (value : ℕ) (h : Hart) → IsLegal h → IsLegal (write_case c value h)
unfolding write_case
write_case-IsLegal mstatus value h l = ground (arith, legal_mpp-is_mode value)
write_case-IsLegal stvec value h l = ground (arith, aligned value)
write_case-IsLegal mtvec value h l = ground (arith, aligned value)
write_case-IsLegal sepc value h l = ground (arith, aligned value)
write_case-IsLegal mepc value h l = ground (arith, aligned value)
write_case-IsLegal mideleg value h l = ground (arith, s_interrupts-mask value)
write_case-IsLegal mie value h l = with_mie-IsLegal _ h (mie_mask-mask value) l
write_case-IsLegal sie value h l =
    with_mie-IsLegal _ h (merge-mask h.mideleg h.mie value l.mideleg l.mie) l
write_case-IsLegal c value h l = same-IsLegal refl l

csr_write-IsLegal : (number value : ℕ) (h : Hart) → IsLegal h → IsLegal (csr_write number value h)
unfolding csr_write
csr_write-IsLegal number value h l = elim (Option-cases (csr_of number)) [
  | inl nothing ↦ rw (csr_write, nothing) l
  | inr (c, found) ↦ rw (csr_write, found) (write_case-IsLegal c value h l)
]

csr_effect-IsLegal :
    (op rs1 number operand old : ℕ) (h : Hart)
    → IsLegal h
    → OnSome (λ (r : ℕ × Hart). IsLegal r.1) (csr_effect op rs1 number operand old h)
unfolding csr_effect
csr_effect-IsLegal op rs1 number operand old h l =
    search
      (
        on_some,
        l,
        csr_write-IsLegal number operand h l,
        csr_write-IsLegal number (bit_or old operand) h l,
        csr_write-IsLegal number (bit_and old (flip 32 operand)) h l,
      )
      depth 16

pub csr_instruction-IsLegal :
    (funct3 rs1 number a : ℕ) (m : Machine)
    → IsLegal m.hart
    → OnSome (λ (r : ℕ × Hart). IsLegal r.1) (csr_instruction funct3 rs1 number a m)
unfolding csr_instruction
csr_instruction-IsLegal funct3 rs1 number a m l = elim (Option-cases (csr_read number m)) [
  | inl none_such ↦ rw (csr_instruction, none_such) OnSome-none
  | inr (value, reads) ↦
      rw (csr_instruction, reads)
        (csr_effect-IsLegal (bit_and funct3 3) rs1 number (if has funct3 4 then rs1 else a) value
          m.hart l)
]
