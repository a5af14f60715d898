-- ===== src/Emulator/Csr/Untouched.antt =====
-- Machine mode's part of the hart, and what the writes of the CSRs do to it.
use tiny_processors.Prelude.{
  ℕ, ◌+◌, ◌/◌, ◌%◌, ◌^◌, ◌<◌, ◌≡◌, refl, arith, false, List, [], ◌∷◌, ltb, if◌then◌else◌, bit_and,
}
use tiny_processors.Prelude.Bits.{
  flip, test, test-or, test-and, test-and_not, bit_and-mask, bit_and-lt,
}
use tiny_processors.Emulator.Pmp.{Pmp}
use tiny_processors.Emulator.Hart.{Hart}
use tiny_processors.Emulator.Csr.{
  Csr, fflags, frm, fcsr, sstatus, sie, stvec, scounteren, sscratch, sepc, scause, stval, sip, satp,
  mstatus, misa, medeleg, mideleg, mie, mtvec, mcounteren, mscratch, mepc, mcause, mtval, mip,
  pmpcfg, pmpaddr, cycle, time, instret, cycleh, timeh, instreth, mvendorid, marchid, mimpid,
  mhartid, csr_number, mstatus_writable, sstatus_mask,
}
use tiny_processors.Emulator.Csr.Write.{write_case, merge}

-- The words of the hart that the isolation reads bit by bit.
pub record HasWords (m : Hart) : Type 0 where
  pub mstatus_word : m.mstatus < 2 ^ 32
  pub mie_word : m.mie < 2 ^ 32
  pub mideleg_word : m.mideleg < 2 ^ 32
  pub mip_soft_word : m.mip_soft < 2 ^ 32

-- Machine mode's own registers, with the privilege and the pc.
abbrev pub machine_part : Hart → List ℕ × Pmp
machine_part m = (
  m.medeleg ∷ m.mideleg ∷ m.mtvec ∷ m.mscratch ∷ m.mcounteren ∷ m.mepc ∷ m.mcause ∷ m.mtval ∷ m.mpp
      ∷ m.priv ∷ m.pc ∷ [],
  m.pmp,
)

-- Machine mode's registers as they were, and of the registers that it shares with the supervisor the bits
-- that the supervisor does not see.
pub record IsUntouched (m n : Hart) : Type 0 where
  pub mstatus : (k : ℕ) → test sstatus_mask k ≡ false → test n.mstatus k ≡ test m.mstatus k
  pub mie : (k : ℕ) → test m.mideleg k ≡ false → test n.mie k ≡ test m.mie k
  pub mip_soft : (k : ℕ) → test m.mideleg k ≡ false → test n.mip_soft k ≡ test m.mip_soft k
  pub own : machine_part n ≡ machine_part m

pub shared_same :
    (m n : Hart)
    → n.mstatus ≡ m.mstatus
    → n.mie ≡ m.mie
    → n.mip_soft ≡ m.mip_soft
    → machine_part n ≡ machine_part m
    → IsUntouched m n
shared_same m n a b c d = record {
  mstatus = λ k off. rw a refl;
  mie = λ k off. rw b refl;
  mip_soft = λ k off. rw c refl;
  own = d;
}

test-merge :
    (mask x value k : ℕ)
    → x < 2 ^ 32
    → mask < 2 ^ 32
    → test (merge mask x value) k ≡ (if test mask k then test value k else test x k)
unfolding merge
test-merge mask x value k hx hm = ground (
  arith,
  test-or (bit_and x (flip 32 mask)) (bit_and value mask) k,
  test-and_not 32 x mask k hx hm,
  test-and value mask k,
)

-- Below machine mode, and with a number of at most supervisor level.
pub write_case-IsUntouched :
    (c : Csr) (value : ℕ) (m : Hart)
    → ltb 1 (bit_and (csr_number c / 2 ^ 8) 3) ≡ false
    → HasWords m
    → IsUntouched m (write_case c value m)
unfolding write_case csr_number
write_case-IsUntouched sstatus value m h w = record {
  mstatus = λ k off. ground (
    arith,
    test-or (bit_and m.mstatus (flip 32 sstatus_mask))
        (bit_and (bit_and value sstatus_mask) mstatus_writable) k,
    test-and_not 32 m.mstatus sstatus_mask k w.mstatus_word (omega arith),
    test-and (bit_and value sstatus_mask) mstatus_writable k,
    test-and value sstatus_mask k,
  );
  mie = λ k off. refl;
  mip_soft = λ k off. refl;
  own = refl;
}
write_case-IsUntouched sie value m h w = record {
  mstatus = λ k off. refl;
  mie = λ k off. ground (arith, test-merge m.mideleg m.mie value k w.mie_word w.mideleg_word);
  mip_soft = λ k off. refl;
  own = refl;
}
write_case-IsUntouched sip value m h w = record {
  mstatus = λ k off. refl;
  mie = λ k off. refl;
  mip_soft = λ k off. ground (
    arith,
    test-merge (bit_and m.mideleg 2) m.mip_soft value k w.mip_soft_word
        (bit_and-lt 32 m.mideleg 2 w.mideleg_word),
    test-and m.mideleg 2 k,
  );
  own = refl;
}
write_case-IsUntouched fflags value m h w = shared_same _ _ refl refl refl refl
write_case-IsUntouched frm value m h w = shared_same _ _ refl refl refl refl
write_case-IsUntouched fcsr value m h w = shared_same _ _ refl refl refl refl
write_case-IsUntouched stvec value m h w = shared_same _ _ refl refl refl refl
write_case-IsUntouched scounteren value m h w = shared_same _ _ refl refl refl refl
write_case-IsUntouched sscratch value m h w = shared_same _ _ refl refl refl refl
write_case-IsUntouched sepc value m h w = shared_same _ _ refl refl refl refl
write_case-IsUntouched scause value m h w = shared_same _ _ refl refl refl refl
write_case-IsUntouched stval value m h w = shared_same _ _ refl refl refl refl
write_case-IsUntouched satp value m h w = shared_same _ _ refl refl refl refl
write_case-IsUntouched mstatus value m h w = cc
write_case-IsUntouched misa value m h w = cc
write_case-IsUntouched medeleg value m h w = cc
write_case-IsUntouched mideleg value m h w = cc
write_case-IsUntouched mie value m h w = cc
write_case-IsUntouched mtvec value m h w = cc
write_case-IsUntouched mcounteren value m h w = cc
write_case-IsUntouched mscratch value m h w = cc
write_case-IsUntouched mepc value m h w = cc
write_case-IsUntouched mcause value m h w = cc
write_case-IsUntouched mtval value m h w = cc
write_case-IsUntouched mip value m h w = cc
write_case-IsUntouched (pmpcfg i) value m h w =
    ground (arith, bit_and-mask 2 ((0x3a0 + i % 2) / 2 ^ 8))
write_case-IsUntouched (pmpaddr i) value m h w =
    ground (arith, bit_and-mask 2 ((0x3b0 + i % 8) / 2 ^ 8))
write_case-IsUntouched cycle value m h w = shared_same _ _ refl refl refl refl
write_case-IsUntouched time value m h w = shared_same _ _ refl refl refl refl
write_case-IsUntouched instret value m h w = shared_same _ _ refl refl refl refl
write_case-IsUntouched cycleh value m h w = shared_same _ _ refl refl refl refl
write_case-IsUntouched timeh value m h w = shared_same _ _ refl refl refl refl
write_case-IsUntouched instreth value m h w = shared_same _ _ refl refl refl refl
write_case-IsUntouched mvendorid value m h w = shared_same _ _ refl refl refl refl
write_case-IsUntouched marchid value m h w = shared_same _ _ refl refl refl refl
write_case-IsUntouched mimpid value m h w = shared_same _ _ refl refl refl refl
write_case-IsUntouched mhartid value m h w = shared_same _ _ refl refl refl refl
