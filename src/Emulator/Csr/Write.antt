-- ===== src/Emulator/Csr/Write.antt =====
-- The writes of the CSRs in tools/rv32emu_core.c: `csr_write`, `csr_allowed`, and CSRRW, CSRRS and CSRRC of
-- `step`.
use tiny_processors.Prelude.{
  ℕ, ◌+◌, ◌*◌, ◌/◌, ◌^◌, Bool, true, false, not, ◌&&◌, ◌||◌, Option, none, some, ltb, leb, ◌==◌,
  ◌!=◌, if◌then◌else◌, bit_and, bit_or,
}
use tiny_processors.Prelude.Bits.{flip, has}
use tiny_processors.Emulator.Pmp.{write_pmpcfg, write_pmpaddr, priv_u, priv_s, priv_m}
use tiny_processors.Emulator.Hart.{Hart, mie_mask, mstatus_tvm, mstatus_fs}
use tiny_processors.Emulator.Csr.{
  Csr, fflags, frm, fcsr, sstatus, sie, stvec, scounteren, sscratch, sepc, scause, stval, sip, satp,
  mstatus, misa, medeleg, mideleg, mie, mtvec, mcounteren, mscratch, mepc, mcause, mtval, mip,
  pmpcfg, pmpaddr, cycle, time, instret, cycleh, timeh, instreth, mvendorid, marchid, mimpid,
  mhartid, mstatus_writable, sstatus_mask, medeleg_mask, s_interrupts, satp_mode, satp_ppn, csr_of,
  Machine, csr_read, csr_read_only,
}

-- `(x & ~mask) | (value & mask)`
unfoldable pub merge : ℕ → ℕ → ℕ → ℕ
merge mask x value = bit_or (bit_and x (flip 32 mask)) (bit_and value mask)

-- MPP is 3, 1 or 0; 2 is stored as 0.
unfoldable pub legal_mpp : ℕ → ℕ
legal_mpp value = let mpp = bit_and value 0x1800 / 2 ^ 11 in if mpp == 2 then priv_u else mpp

-- The writes, by the case of the `switch`.
unfoldable pub write_case : Csr → ℕ → Hart → Hart
write_case fflags value m = record m {
  fcsr = bit_or (bit_and m.fcsr 0xe0) (bit_and value 31);
  wr_fcsr = true;
}
write_case frm value m = record m {
  fcsr = bit_or (bit_and m.fcsr 31) (bit_and value 7 * 2 ^ 5);
  wr_fcsr = true;
}
write_case fcsr value m = record m { fcsr = bit_and value 255; wr_fcsr = true }
write_case mstatus value m = record m {
  mstatus = bit_and value mstatus_writable;
  mpp = legal_mpp value;
}
write_case sstatus value m = record m {
  mstatus =
      bit_or (bit_and m.mstatus (flip 32 sstatus_mask))
        (bit_and (bit_and value sstatus_mask) mstatus_writable);
}
write_case medeleg value m = record m { medeleg = bit_and value medeleg_mask }
write_case mideleg value m = record m { mideleg = bit_and value s_interrupts }
write_case sie value m = record m { mie = merge m.mideleg m.mie value }
write_case sip value m = record m { mip_soft = merge (bit_and m.mideleg 2) m.mip_soft value }
write_case stvec value m = record m { stvec = bit_and value (flip 32 3) }
write_case scounteren value m = record m { scounteren = bit_and value 7 }
write_case sscratch value m = record m { sscratch = value }
write_case sepc value m = record m { sepc = bit_and value (flip 32 3) }
write_case scause value m = record m { scause = value }
write_case stval value m = record m { stval = value }
write_case satp value m = record m { satp = bit_and value (satp_mode + satp_ppn); reserved = false }
write_case mcounteren value m = record m { mcounteren = bit_and value 7 }
write_case (pmpcfg i) value m = record m { pmp = write_pmpcfg (4 * i) value m.pmp }
write_case mie value m = record m { mie = bit_and value mie_mask }
write_case mip value m = record m { mip_soft = bit_and value s_interrupts }
write_case mscratch value m = record m { mscratch = value }
write_case mtvec value m = record m { mtvec = bit_and value (flip 32 3) }
write_case mepc value m = record m { mepc = bit_and value (flip 32 3) }
write_case mcause value m = record m { mcause = value }
write_case mtval value m = record m { mtval = value }
write_case (pmpaddr i) value m = record m { pmp = write_pmpaddr i value m.pmp }
write_case misa value m = m
write_case cycle value m = m
write_case time value m = m
write_case instret value m = m
write_case cycleh value m = m
write_case timeh value m = m
write_case instreth value m = m
write_case mvendorid value m = m
write_case marchid value m = m
write_case mimpid value m = m
write_case mhartid value m = m

unfoldable pub csr_write : ℕ → ℕ → Hart → Hart
csr_write number value m = elim (csr_of number) [ some c ↦ write_case c value m | none ↦ m ]

unfoldable pub csr_allowed : ℕ → Hart → Bool
csr_allowed number m =
    let bit = 2 ^ bit_and number 3 in
    if m.priv == priv_m
    then true
    else if ltb m.priv (bit_and (number / 2 ^ 8) 3)
    then false
    else if leb 0xc00 number && leb number 0xc82
    then has m.mcounteren bit && (m.priv == priv_s || has m.scounteren bit)
    else if number == 0x180 && has m.mstatus mstatus_tvm
    then false
    else true

-- CSRRW (1), CSRRS (2) and CSRRC (3) on a CSR that reads `old`: what the instruction reads, and the hart
-- after; `none` is an illegal instruction.
unfoldable pub csr_effect : ℕ → ℕ → ℕ → ℕ → ℕ → Hart → Option (ℕ × Hart)
csr_effect op rs1 number operand old m =
    let writes = op == 1 || rs1 != 0 in
    if op == 0
    then none
    else if writes && csr_read_only number || not (csr_allowed number m)
    then none
    else if op == 1
    then some (old, csr_write number operand m)
    else if rs1 == 0
    then some (old, m)
    else if op == 2
    then some (old, csr_write number (bit_or old operand) m)
    else some (old, csr_write number (bit_and old (flip 32 operand)) m)

-- The operand is the register `a` or, with bit 2 of funct3, the field `rs1`.
unfoldable pub csr_instruction : ℕ → ℕ → ℕ → ℕ → Machine → Option (ℕ × Hart)
csr_instruction funct3 rs1 number a m = elim (csr_read number m) [
  | none ↦ none
  | some old ↦ csr_effect (bit_and funct3 3) rs1 number (if has funct3 4 then rs1 else a) old m.hart
]

-- The end of `step`: a write of an f register or of fcsr makes FS Dirty.
unfoldable pub mark_dirty : Bool → Hart → Hart
mark_dirty writes_fd m =
    if writes_fd || m.wr_fcsr then record m { mstatus = bit_or m.mstatus mstatus_fs } else m
