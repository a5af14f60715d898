-- ===== src/Emulator/Csr/Tests.antt =====
-- A CSR instruction of a supervisor.
use tiny_processors.Prelude.{◌≡◌, arith, refl, some, false}
use tiny_processors.Emulator.Pmp.{priv_s}
use tiny_processors.Emulator.Hart.{Hart, mstatus_value}
use tiny_processors.Emulator.Hart.Samples.{user}
use tiny_processors.Emulator.Plic.{plic_reset}
use tiny_processors.Emulator.Csr.{
  Machine, csr_read, csr_of, find_csr, csr_number, read_case, csr_read_only,
}
use tiny_processors.Emulator.Csr.Write.{
  csr_instruction, csr_effect, csr_write, write_case, csr_allowed, mark_dirty,
}
use tiny_processors.Emulator.Csr.Untouched.{IsUntouched, HasWords}
use tiny_processors.Emulator.Csr.Isolation.{csr_instruction-IsUntouched}

-- A supervisor with MIE and MPIE set, which it does not see.
abbrev supervisor : Hart
supervisor = record user { priv = priv_s; mstatus = 0x6088; mie = 0x888; mideleg = 0x222 }

abbrev running : Machine
running = record {
  hart = supervisor;
  clint = record { mtime_offset = 0; mtimecmp = 0xffff_ffff_ffff_ffff; msip = 0 };
  plic = plic_reset;
  steps = 40;
  retired = 38;
}

-- Every bit of sstatus that it may write.
abbrev written : Hart
written = record supervisor { mstatus = 0xc_61aa }

runs : csr_instruction 1 5 0x100 0xffff_ffff running ≡ some (0x8000_6000, written)
unfolding csr_instruction csr_effect csr_write write_case csr_allowed csr_read csr_of find_csr
    csr_number read_case mstatus_value csr_read_only
runs = refl

supervisor-HasWords : HasWords supervisor
supervisor-HasWords = record {
  mstatus_word = omega arith;
  mie_word = omega arith;
  mideleg_word = omega arith;
  mip_soft_word = omega arith;
}

csr_instruction-IsUntouched_example : IsUntouched supervisor (mark_dirty false written)
csr_instruction-IsUntouched_example =
    csr_instruction-IsUntouched 1 5 0x100 0xffff_ffff running 0x8000_6000 written
      supervisor-HasWords refl (omega arith) runs
